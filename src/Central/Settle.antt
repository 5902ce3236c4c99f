-- ===== src/Central/Settle.antt =====
-- How the loop takes the acknowledgement and the attestation of a whole snapshot.
use moergo_rmk.Prelude.{ℕ, ◌+◌, ◌%◌, Bool, true, false, ◌||◌, ◌≡◌, List, Option, some, ok, arith}
use moergo_rmk.Wire.Rmk.{Foreign, LayerOps, Sizes}
use moergo_rmk.Wire.Types.{ReplicaDigests, BatteryPair}
use moergo_rmk.Wire.Message.{Message}
use moergo_rmk.Wire.Decode.{decode}
use moergo_rmk.Replies.Attestation.{observe, digests_eq}
use moergo_rmk.Replica.Tables.{Tables}
use moergo_rmk.Replica.Snapshot.{Snapshot}
use moergo_rmk.Replica.Walk.{Channel, try_queue_snapshot}
use moergo_rmk.Central.State.{Replication, PendingAck, TransferKind, ReplicationHealth, u8_mod}
use moergo_rmk.Central.Handlers.{on_ack, on_attestation}
use moergo_rmk.Central.Offer.{
  clear_retry, may_offer, offered, offer, pending, try_send_snapshot, queue_full,
}
use moergo_rmk.Central.Loop.{Event, Clock, Turn, World, on_message, on_event, head, turn}
use moergo_rmk.Central.Debt.{owed}
use moergo_rmk.Central.Pace.{Ready}

-- A whole snapshot is pending, and nothing else is owed.
pub record Awaits (p : PendingAck) (d : ReplicaDigests) (r : Replication) : Type 0 where
  pub waits : r.awaiting_ack ≡ some p
  pub settled : r.full_dirty || r.context_dirty ≡ false
  pub expects : r.expected_digests ≡ some d
  pub full : p.kind ≡ TransferKind.full_snapshot

-- The snapshot of a revision is acknowledged, and nothing is owed.
pub record Acked (revision : ℕ) (d : ReplicaDigests) (r : Replication) : Type 0 where
  pub none_owed : owed r ≡ false
  pub expects : r.expected_digests ≡ some d
  pub last : r.last_acked_revision ≡ some revision
  pub health : r.health ≡ ReplicationHealth.healthy

pub on_ack-Acked :
    (p : PendingAck) (d : ReplicaDigests) (r : Replication)
    → Awaits p d r
    → Acked p.revision d (on_ack p.generation p.revision r)
unfolding on_ack
on_ack-Acked p d r h = ground arith

digests_eq_refl : (d : ReplicaDigests) → digests_eq d d ≡ true
digests_eq_refl d = ground arith

pub on_attestation-Acked :
    (now revision : ℕ) (d : ReplicaDigests) (r : Replication)
    → Acked revision d r
    → Acked revision d (on_attestation now d r)
      × ((on_attestation now d r).recovery.mismatch_count ≡ 0)
unfolding on_attestation observe
on_attestation-Acked now revision d r h = ground (arith, digests_eq_refl d)

module _ {F : Foreign} (z : Sizes) (T : Tables F) {D : Type 0} (C : Channel D)
    (encode : Message F → D) (digests : Snapshot T → ReplicaDigests) where
  pub offer-Awaits :
      (now sent : ℕ) (s : Snapshot T) (b : BatteryPair) (r : Replication) (q q' : C.Queue)
      → Ready (clear_retry now r)
      → r.full_dirty ≡ true
      → try_queue_snapshot z T C encode ((r.generation + 1) % u8_mod) s b q ≡ (q', true)
      → ((offer z T C encode digests now sent (some s) b r q).1 ≡ q')
        × Awaits
            (pending z T C encode digests sent
              ((r.generation + 1) % u8_mod)
              s
              TransferKind.full_snapshot
              (some (digests s)))
            (digests s)
            (offer z T C encode digests now sent (some s) b r q).0
  unfolding offer clear_retry may_offer offered try_send_snapshot queue_full
  offer-Awaits now sent s b r q q' h due taken = ground arith

  -- With nothing owed nothing is offered.
  pub offer-Acked :
      (now sent revision : ℕ) (prepared : Option (Snapshot T)) (b : BatteryPair)
      (d : ReplicaDigests) (r : Replication) (q : C.Queue)
      → Acked revision d r
      → ((offer z T C encode digests now sent prepared b r q).1 ≡ q)
        × Acked revision d (offer z T C encode digests now sent prepared b r q).0
  unfolding offer clear_retry may_offer
  offer-Acked now sent revision prepared b d r q h = ground arith

module _ {F : Foreign} (z : Sizes) (T : Tables F) (ops : LayerOps F) {D : Type 0} (C : Channel D)
    (encode : Message F → D) (digests : Snapshot T → ReplicaDigests) (no_layers : F.LayerState)
    (is_utf8 : List ℕ → Bool) where
  -- The iteration that the packet of an acknowledgement wakes, and that of an attestation.
  pub received_ack :
      (clock : Clock) (prepared : Option (Snapshot T)) (bytes : List ℕ) (g v : ℕ) (w : World F C)
      → decode z ops bytes ≡ ok (Message.ack g v)
      → let t : Turn T = record {
        clock = clock;
        prepared = prepared;
        event = Event.received bytes;
      } in
        (turn z T ops C encode digests no_layers is_utf8 t w).replication
        ≡ on_ack g v (head z T ops C encode digests no_layers is_utf8 t w).replication
  unfolding turn on_event on_message
  received_ack clock prepared bytes g v w carries = rw carries

  pub received_attestation :
      (clock : Clock) (prepared : Option (Snapshot T)) (bytes : List ℕ) (g : ℕ) (d : ReplicaDigests)
      (w : World F C)
      → decode z ops bytes ≡ ok (Message.attestation g d)
      → let t : Turn T = record {
        clock = clock;
        prepared = prepared;
        event = Event.received bytes;
      } in
        (turn z T ops C encode digests no_layers is_utf8 t w).replication
        ≡ on_attestation clock.woken d
            (head z T ops C encode digests no_layers is_utf8 t w).replication
  unfolding turn on_event on_message
  received_attestation clock prepared bytes g d w carries = rw carries
