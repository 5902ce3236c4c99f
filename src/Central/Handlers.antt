-- ===== src/Central/Handlers.antt =====
-- The arms of the loop, on the state of the loop: one function for each kind of event.
use moergo_rmk.Prelude.{
  ℕ, ◌+◌, ◌-◌, ◌%◌, ◌^◌, Bool, true, false, ◌&&◌, none, some, ◌==◌, leb, if◌then◌else◌, min,
}
use moergo_rmk.Wire.Types.{ReplicaDigests}
use moergo_rmk.Replies.Attestation.{AttestationDecision, observe, snapshot_acked}
use moergo_rmk.Replies.Attestation as Recovery
use moergo_rmk.Central.State.{
  ReplicationHealth, PendingAck, Replication, is_full, u8_mod, resync_fast_attempts,
  resync_idle_backoff,
}

-- `AttestationRecovery::reset` makes a new one.
unfoldable pub on_link : Bool → Replication → Replication
on_link up r = record r {
  link_up = up;
  failed_attempts = 0;
  awaiting_ack = none;
  last_acked_revision = none;
  full_dirty = up;
  context_dirty = false;
  retry_at = none;
  recovery = Recovery.new;
  health = if up then ReplicationHealth.resynchronizing else ReplicationHealth.stale;
}

unfoldable pub on_lighting_changed : Replication → Replication
on_lighting_changed r = record r {
  full_dirty = true;
  recovery = Recovery.new;
  health = if r.link_up then ReplicationHealth.resynchronizing else r.health;
}

unfoldable pub on_context_changed : Replication → Replication
on_context_changed r = record r { context_dirty = true }

-- The guard of the `Ack` arm.
abbrev pub acks : ℕ → ℕ → PendingAck → Bool
acks generation revision p = p.generation == generation && p.revision == revision

-- The body of the `Ack` arm.
abbrev pub settle : PendingAck → ℕ → Replication → Replication
settle p revision r =
    if is_full p.kind
    then record r {
      awaiting_ack = none;
      last_acked_revision = some revision;
      recovery = snapshot_acked revision r.recovery;
      failed_attempts = 0;
      health = ReplicationHealth.healthy;
    }
    else record r { awaiting_ack = none; failed_attempts = 0; health = ReplicationHealth.healthy }

unfoldable pub on_ack : ℕ → ℕ → Replication → Replication
on_ack generation revision r = elim r.awaiting_ack [
  | none ↦ r
  | some p ↦ if acks generation revision p then settle p revision r else r
]

abbrev pub health_of : AttestationDecision → ReplicationHealth
health_of AttestationDecision.matching = ReplicationHealth.healthy
health_of AttestationDecision.recover = ReplicationHealth.diverged
health_of AttestationDecision.stale = ReplicationHealth.stale
health_of AttestationDecision.halt = ReplicationHealth.diverged

unfoldable pub on_attestation : ℕ → ReplicaDigests → Replication → Replication
on_attestation now digests r =
    let (recovery', decision) = observe r.expected_digests digests r.recovery in
    record r { last_attested_at = some now; recovery = recovery'; health = health_of decision }

-- `status_request_id.wrapping_add(1)` under the guard of the status arm.
unfoldable pub on_status_refresh : Replication → Replication
on_status_refresh r =
    if r.link_up then record r { status_request_id = (r.status_request_id + 1) % u8_mod } else r

-- The body of the timer arm; `u32::saturating_add`.
abbrev pub give_up : ℕ → Replication → Replication
give_up later r =
    let failed = min (r.failed_attempts + 1) (2 ^ 32 - 1) in
    if leb resync_fast_attempts failed
    then record r {
      awaiting_ack = none;
      full_dirty = r.link_up;
      failed_attempts = failed;
      retry_at = some (later + resync_idle_backoff);
      health = ReplicationHealth.stale;
    }
    else record r {
      awaiting_ack = none;
      full_dirty = r.link_up;
      failed_attempts = failed;
      health = ReplicationHealth.resynchronizing;
    }

-- The clock is read twice: for the test of the deadline, and for the back-off.
unfoldable pub on_timer : ℕ → ℕ → Replication → Replication
on_timer now later r = elim r.awaiting_ack [
  | none ↦ r
  | some p ↦ if leb p.deadline now then give_up later r else r
]
