-- ===== src/Central/Offer.antt =====
-- The head of the loop: what `CentralReplication` offers to the split queue, and when.
use moergo_rmk.Prelude.{
  ℕ, ◌+◌, ◌%◌, Bool, false, not, ◌&&◌, ◌||◌, Option, none, some, ◌==◌, leb, if◌then◌else◌,
}
use moergo_rmk.Wire.Rmk.{Foreign, Sizes}
use moergo_rmk.Wire.Types.{ReplicaDigests, BatteryPair}
use moergo_rmk.Wire.Message.{Message}
use moergo_rmk.Wire.Encode.Side.{is_some}
use moergo_rmk.Replica.Tables.{Tables}
use moergo_rmk.Replica.Snapshot.{Snapshot, to_replicated}
use moergo_rmk.Replica.Walk.{Channel, try_queue_snapshot}
use moergo_rmk.Replies.Attestation.{is_some_of}
use moergo_rmk.Central.State.{
  TransferKind, ReplicationHealth, PendingAck, Replication, is_halted, ack_timeout, send_backoff,
  u8_mod,
}

-- `retry_at.is_some_and(|at| at <= Instant::now())` clears the back-off.
unfoldable pub clear_retry : ℕ → Replication → Replication
clear_retry now r =
    if is_some_of (λ t. leb t now) r.retry_at then record r { retry_at = none } else r

-- The condition under which the loop offers a transfer.
unfoldable pub may_offer : Replication → Bool
may_offer r =
    r.link_up
    && not (is_some r.awaiting_ack)
    && (r.full_dirty || r.context_dirty)
    && not (is_some r.retry_at)
    && not (is_halted r.health)

-- The bookkeeping of a transfer that the queue took, and of one it refused.
abbrev pub expect : Option ReplicaDigests → Option ReplicaDigests → Option ReplicaDigests
expect none old = old
expect (some d) old = some d

unfoldable pub offered : ℕ → Option PendingAck → Replication → Replication
offered sent (some p) r = record r {
  expected_digests = expect p.digests r.expected_digests;
  awaiting_ack = some p;
  full_dirty = false;
  context_dirty = false;
  health = ReplicationHealth.resynchronizing;
}
offered sent none r = record r { retry_at = some (sent + send_backoff) }

module _ {F : Foreign} (z : Sizes) (T : Tables F) {D : Type 0} (C : Channel D)
    (encode : Message F → D) (digests : Snapshot T → ReplicaDigests) where
  abbrev pub pending : ℕ → ℕ → Snapshot T → TransferKind → Option ReplicaDigests → PendingAck
  pending sent generation s kind d = record {
    generation = generation;
    revision = s.revision;
    kind = kind;
    deadline = sent + ack_timeout;
    digests = d;
  }

  -- `generation` is the one that `self` has taken; `digests` is `replica_digests`.
  unfoldable pub queue_full :
      ℕ → ℕ → Snapshot T → BatteryPair → C.Queue → C.Queue × Option PendingAck
  queue_full sent generation s batteries q =
      let (q', taken) = try_queue_snapshot z T C encode generation s batteries q in
      (
        q',
        if taken
            then some (pending sent generation s TransferKind.full_snapshot (some (digests s)))
            else none,
      )

  unfoldable pub queue_context :
      ℕ → ℕ → Snapshot T → BatteryPair → C.Queue → C.Queue × Option PendingAck
  queue_context sent generation s batteries q =
      let update =
        Message.context_update generation s.revision (to_replicated s.context) batteries in
      elim (C.try_send (encode update) q) [
        | none ↦ (q, none)
        | some q' ↦ (q', some (pending sent generation s TransferKind.context_update none))
      ]

  -- `try_send_snapshot` with `queue_prepared_snapshot`. The replica that `ExportReplica` leaves in
  -- the slot is an argument; it is missing when the request or the slot fails.
  unfoldable pub try_send_snapshot :
      ℕ
      → Option (Snapshot T)
      → BatteryPair
      → Replication
      → C.Queue
      → Replication × C.Queue × Option PendingAck
  try_send_snapshot sent none batteries r q = (r, q, none)
  try_send_snapshot sent (some s) batteries r q =
      let g = (r.generation + 1) % u8_mod in
      let (q', p) = queue_full sent g s batteries q in (record r { generation = g }, q', p)

  -- `try_send_context_update` with `queue_prepared_context_update`.
  unfoldable pub try_send_context_update :
      ℕ
      → Option (Snapshot T)
      → BatteryPair
      → Replication
      → C.Queue
      → Replication × C.Queue × Option PendingAck
  try_send_context_update sent none batteries r q = (r, q, none)
  try_send_context_update sent (some s) batteries r q =
      let g = (r.generation + 1) % u8_mod in
      let (q', p) =
        (if is_some_of (λ last. s.revision == last) r.last_acked_revision
          then queue_context sent g s batteries q
          else queue_full sent g s batteries q) in
      (record r { generation = g }, q', p)

  -- The head of one iteration, at `now`; `sent` is the clock when the queue has answered.
  unfoldable pub offer :
      ℕ → ℕ → Option (Snapshot T) → BatteryPair → Replication → C.Queue → Replication × C.Queue
  offer now sent prepared batteries before q =
      let r = clear_retry now before in
      if may_offer r
      then (let (r', q', p) =
            (if r.full_dirty
              then try_send_snapshot sent prepared batteries r q
              else try_send_context_update sent prepared batteries r q) in
          (offered sent p r', q'))
      else (r, q)
