-- ===== src/Central/Cache.antt =====
-- `ObservabilityCache` and the other statics of central_lighting.rs: what the loop records for the
-- host, and what the host reads.
use moergo_rmk.Prelude.{
  ℕ, ◌+◌, ◌-◌, ◌^◌, Bool, true, false, List, [], Option, none, some, take, ltb, ◌==◌, if◌then◌else◌,
  min,
}
use moergo_rmk.Wire.Rmk.{Foreign}
use moergo_rmk.Wire.Types.{ReplicaDigests}
use moergo_rmk.Wire.Message.{Message}
use moergo_rmk.Wire.Encode.Side.{is_some}
use moergo_rmk.Central.State.{ReplicationHealth, Replication}

pub record CachedPeripheral (F : Foreign) : Type 0 where
  pub applied_revision : Option ℕ
  pub engine_revision : ℕ
  pub layers : F.LayerState
  pub powered : Bool
  pub wake_active : Bool
  pub effective_output_enabled : Bool
  pub received_at : ℕ
  pub digests : Option ReplicaDigests

-- `rmk::host::ReplicationMachineState`
pub record MachineState : Type 0 where
  pub last_acked_revision : Option ℕ
  pub awaiting_ack : Bool
  pub generation : ℕ
  pub link_up : Bool
  pub durable_dirty : Bool
  pub context_dirty : Bool
  pub health : ReplicationHealth
  pub expected_digests : Option ReplicaDigests
  pub last_attested_age_ms : Option ℕ
  pub mismatch_count : ℕ

pub record ObservabilityCache (F : Foreign) : Type 0 where
  pub machine : MachineState
  pub peripheral : Option (CachedPeripheral F)
  pub last_attested_at : Option ℕ
  pub last_refresh_requested_at : Option ℕ

pub record PeripheralTransport : Type 0 where
  pub is_auto : Bool
  pub wired : Bool

-- The arrays `rr` and `cause` are two fields each.
pub record PeripheralDebug : Type 0 where
  pub stage : ℕ
  pub boots : ℕ
  pub rr0 : ℕ
  pub rr1 : ℕ
  pub cause0 : ℕ
  pub cause1 : ℕ
  pub panic_loc : Option (List ℕ)

-- The cache, `PERIPHERAL_TRANSPORT` and `PERIPHERAL_DEBUG`.
pub record Statics (F : Foreign) : Type 0 where
  pub cache : ObservabilityCache F
  pub transport : Option PeripheralTransport
  pub debug : Option PeripheralDebug

-- The fields that the loop publishes of its state.
abbrev pub machine_of : Replication → MachineState
machine_of r = record {
  last_acked_revision = r.last_acked_revision;
  awaiting_ack = is_some r.awaiting_ack;
  generation = r.generation;
  link_up = r.link_up;
  durable_dirty = r.full_dirty;
  context_dirty = r.context_dirty;
  health = r.health;
  expected_digests = r.expected_digests;
  last_attested_age_ms = none;
  mismatch_count = r.recovery.mismatch_count;
}

abbrev pub panic_loc_of : Option PeripheralDebug → Option (List ℕ)
panic_loc_of none = none
panic_loc_of (some d) = d.panic_loc

-- `is_utf8` tells whether `from_utf8` takes the bytes.
abbrev pub record_panic_loc :
    (List ℕ → Bool) → ℕ → List ℕ → Option PeripheralDebug → Option PeripheralDebug
record_panic_loc is_utf8 len text none = none
record_panic_loc is_utf8 len text (some d) =
    let bytes = take (min len 23) text in
    some (record d { panic_loc = some (if is_utf8 bytes then bytes else []) })

-- `Instant::saturating_duration_since(..).as_millis().min(u32::MAX)`
abbrev pub age_ms : ℕ → ℕ → ℕ
age_ms now at = min (now - at) (2 ^ 32 - 1)

abbrev pub age_of : ℕ → Option ℕ → Option ℕ
age_of now none = none
age_of now (some at) = some (age_ms now at)

-- `min_refresh_interval` is 100 ms.
abbrev pub too_soon : ℕ → Option ℕ → Bool
too_soon now none = false
too_soon now (some last) = ltb now (last + 100)

module _ {F : Foreign} where
  unfoldable pub set_machine : Replication → ObservabilityCache F → ObservabilityCache F
  set_machine r c = record c { machine = machine_of r; last_attested_at = r.last_attested_at }

  -- `no_layers` is `LayerState::new(0, 0, 0)`.
  unfoldable pub record_attestation :
      F.LayerState → ℕ → ReplicaDigests → ObservabilityCache F → ObservabilityCache F
  record_attestation no_layers now digests c = elim c.peripheral [
    | some p ↦ record c {
      peripheral =
          some (record p { applied_revision = some digests.revision; digests = some digests });
    }
    | none ↦ record c {
      peripheral = some (record {
        applied_revision = some digests.revision;
        engine_revision = digests.revision;
        layers = no_layers;
        powered = false;
        wake_active = false;
        effective_output_enabled = false;
        received_at = now;
        digests = some digests;
      });
    }
  ]

  abbrev pub digests_of : Option (CachedPeripheral F) → Option ReplicaDigests
  digests_of none = none
  digests_of (some p) = p.digests

  unfoldable pub record_status :
      ℕ
      → Option ℕ
      → ℕ
      → F.LayerState
      → Bool
      → Bool
      → Bool
      → ObservabilityCache F
      → ObservabilityCache F
  record_status now applied engine layers powered wake output c = record c {
    peripheral = some (record {
      applied_revision = applied;
      engine_revision = engine;
      layers = layers;
      powered = powered;
      wake_active = wake;
      effective_output_enabled = output;
      received_at = now;
      digests = digests_of c.peripheral;
    });
  }

  unfoldable pub record_secondary_message : (List ℕ → Bool) → Message F → Statics F → Statics F
  record_secondary_message is_utf8 (Message.transport_status auto wired) w = record w {
    transport = some (record { is_auto = auto; wired = wired });
  }
  record_secondary_message is_utf8 (Message.debug_trace stage boots rr0 rr1 cause0 cause1) w =
      record w {
        debug = some (record {
          stage = stage;
          boots = boots;
          rr0 = rr0;
          rr1 = rr1;
          cause0 = cause0;
          cause1 = cause1;
          panic_loc = panic_loc_of w.debug;
        });
      }
  record_secondary_message is_utf8 (Message.debug_panic_loc len text) w = record w {
    debug = record_panic_loc is_utf8 len text w.debug;
  }
  record_secondary_message is_utf8 _ w = w

  -- `BoardReplicationStatus::central`
  unfoldable pub central : ℕ → ObservabilityCache F → MachineState
  central now c = record c.machine { last_attested_age_ms = age_of now c.last_attested_at }

  -- `BoardReplicationStatus::request_refresh`; the flag tells whether a request is sent.
  unfoldable pub request_refresh : ℕ → ObservabilityCache F → ObservabilityCache F × Bool
  request_refresh now c =
      if too_soon now c.last_refresh_requested_at
      then (c, false)
      else (record c { last_refresh_requested_at = some now }, true)

  -- `peripheral_transport()`
  unfoldable pub peripheral_transport : Statics F → Option PeripheralTransport
  peripheral_transport w = if w.cache.machine.link_up then w.transport else none

-- `rmk::host::PeripheralReplicaStatus`
pub record PeripheralReplicaStatus (F : Foreign) : Type 0 where
  pub applied_revision : Option ℕ
  pub engine_revision : ℕ
  pub layers : F.LayerState
  pub powered : Bool
  pub wake_active : Bool
  pub effective_output_enabled : Bool
  pub age_ms : ℕ
  pub digests : Option ReplicaDigests

module _ {F : Foreign} where
  abbrev pub status_of : ℕ → Option (CachedPeripheral F) → Option (PeripheralReplicaStatus F)
  status_of now none = none
  status_of now (some p) = some (record {
    applied_revision = p.applied_revision;
    engine_revision = p.engine_revision;
    layers = p.layers;
    powered = p.powered;
    wake_active = p.wake_active;
    effective_output_enabled = p.effective_output_enabled;
    age_ms = age_ms now p.received_at;
    digests = p.digests;
  })

  -- `BoardReplicationStatus::peripheral`
  unfoldable pub peripheral : ℕ → ℕ → ObservabilityCache F → Option (PeripheralReplicaStatus F)
  peripheral node now c = if node == 1 then status_of now c.peripheral else none
