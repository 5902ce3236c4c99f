-- ===== src/Central/Invariant.antt =====
-- What holds of the state of the loop at each turn.
use moergo_rmk.Prelude.{ℕ, ◌<◌, ◌^◌, ◌≡◌, Bool, true, false, Option, some, arith}
use moergo_rmk.Wire.Rmk.{Foreign, Sizes}
use moergo_rmk.Wire.Types.{ReplicaDigests, BatteryPair}
use moergo_rmk.Wire.Message.{Message}
use moergo_rmk.Wire.Encode.Side.{is_some}
use moergo_rmk.Replica.Tables.{Tables}
use moergo_rmk.Replica.Snapshot.{Snapshot}
use moergo_rmk.Replica.Walk.{Channel}
use moergo_rmk.Replies.Attestation.{observe, snapshot_acked}
use moergo_rmk.Central.State.{PendingAck, Replication, is_full, is_halted, replication, u8_mod}
use moergo_rmk.Central.Handlers.{
  on_link, on_lighting_changed, on_context_changed, on_ack, on_attestation, on_status_refresh,
  on_timer,
}
use moergo_rmk.Central.Offer.{
  clear_retry, may_offer, offered, offer, try_send_snapshot, try_send_context_update, queue_full,
  queue_context,
}

pub record ReplicationValid (r : Replication) : Type 0 where
  -- With the link down nothing is pending and no back-off runs.
  pub waits_on_link : is_some r.awaiting_ack ≡ true → r.link_up ≡ true
  pub retries_on_link : is_some r.retry_at ≡ true → r.link_up ≡ true
  -- A pending transfer and a back-off exclude each other.
  pub one_deadline : is_some r.awaiting_ack ≡ true → is_some r.retry_at ≡ false
  pub never_halted : is_halted r.health ≡ false
  pub generation_u8 : r.generation < u8_mod
  pub request_u8 : r.status_request_id < u8_mod
  pub failed_u32 : r.failed_attempts < 2 ^ 32
  -- What is pending carries the last generation that was taken.
  pub pending_generation : (p : PendingAck) → r.awaiting_ack ≡ some p → p.generation ≡ r.generation
  -- A pending context update amends the snapshot that was acknowledged last.
  pub pending_amends :
      (p : PendingAck)
      → r.awaiting_ack ≡ some p
      → is_full p.kind ≡ false
      → r.last_acked_revision ≡ some p.revision
  -- The digests of a pending snapshot are the expected ones.
  pub pending_expected :
      (p : PendingAck)
      → r.awaiting_ack ≡ some p
      → is_full p.kind ≡ true
      → (is_some p.digests ≡ true) × (r.expected_digests ≡ p.digests)
  pub mismatch_u8 : r.recovery.mismatch_count < u8_mod

pub replication-ReplicationValid : ReplicationValid replication
unfolding replication
replication-ReplicationValid = ground arith

module _ (r : Replication) (h : ReplicationValid r) where
  pub on_link-ReplicationValid : (up : Bool) → ReplicationValid (on_link up r)
  unfolding on_link
  on_link-ReplicationValid up = ground arith

  pub on_lighting_changed-ReplicationValid : ReplicationValid (on_lighting_changed r)
  unfolding on_lighting_changed
  on_lighting_changed-ReplicationValid = ground arith

  pub on_context_changed-ReplicationValid : ReplicationValid (on_context_changed r)
  unfolding on_context_changed
  on_context_changed-ReplicationValid = ground arith

  pub on_ack-ReplicationValid : (g v : ℕ) → ReplicationValid (on_ack g v r)
  unfolding on_ack snapshot_acked
  on_ack-ReplicationValid g v = ground arith

  pub on_attestation-ReplicationValid :
      (now : ℕ) (d : ReplicaDigests) → ReplicationValid (on_attestation now d r)
  unfolding on_attestation observe
  on_attestation-ReplicationValid now d = ground arith

  pub on_status_refresh-ReplicationValid : ReplicationValid (on_status_refresh r)
  unfolding on_status_refresh
  on_status_refresh-ReplicationValid = ground arith

  pub on_timer-ReplicationValid : (now later : ℕ) → ReplicationValid (on_timer now later r)
  unfolding on_timer
  on_timer-ReplicationValid now later = ground arith

  pub clear_retry-ReplicationValid : (now : ℕ) → ReplicationValid (clear_retry now r)
  unfolding clear_retry
  clear_retry-ReplicationValid now = ground arith

module _ {F : Foreign} (z : Sizes) (T : Tables F) {D : Type 0} (C : Channel D)
    (encode : Message F → D) (digests : Snapshot T → ReplicaDigests) where
  pub offer-ReplicationValid :
      (now sent : ℕ) (prepared : Option (Snapshot T)) (b : BatteryPair) (r : Replication)
      (q : C.Queue)
      → ReplicationValid r
      → ReplicationValid (offer z T C encode digests now sent prepared b r q).0
  unfolding offer clear_retry may_offer offered try_send_snapshot try_send_context_update queue_full
      queue_context
  offer-ReplicationValid now sent prepared b r q h = ground arith
