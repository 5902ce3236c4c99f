-- ===== src/Replica/Sender.antt =====
-- `try_queue_snapshot` queues the whole transaction or nothing.
use moergo_rmk.Prelude.{
  ℕ, ◌+◌, ◌≤◌, ◌<◌, ◌≡◌, refl, sym, ap, ◌∙◌, Bool, true, false, ◌||◌, List, [], ◌∷◌, ◌++◌, none,
  some, length, map, ltb, arith, append-nil, append_assoc, ltb_of_lt, Bool-cases, inl, inr,
}
use moergo_rmk.Wire.Rmk.{Foreign, Sizes}
use moergo_rmk.Wire.Types.{BatteryPair}
use moergo_rmk.Wire.Message.{Message}
use moergo_rmk.Replica.Tables.{Tables}
use moergo_rmk.Replica.Snapshot.{Snapshot}
use moergo_rmk.Replica.Walk.{
  SnapshotCounts, snapshot_counts, snapshot_packets, walk, Channel, count_sink, send_sink,
  try_queue_snapshot,
}

-- The documented behaviour of a bounded channel.
pub record ChannelLaws {D : Type 0} (C : Channel D) : Type 0 where
  pub try_send_room :
      (d : D) (q : C.Queue)
      → 0 < C.free_capacity q
      → (q' : C.Queue) × (C.try_send d q ≡ some q')
        × (C.queued q' ≡ C.queued q ++ (d ∷ []))
        × (C.free_capacity q' + 1 ≡ C.free_capacity q)
  pub try_send_full : (d : D) (q : C.Queue) → C.free_capacity q ≡ 0 → C.try_send d q ≡ none

-- A packet that the sink takes.
walk_taken {ℓ} :
    {S : Type ℓ} {M : Type 0} (sink : S → M → S × Bool) (s s' : S) (m : M) (ms : List M)
    → sink s m ≡ (s', true)
    → walk sink s (m ∷ ms) ≡ walk sink s' ms
unfolding walk
walk_taken sink s s' m ms h = rw h

module _ {F : Foreign} (z : Sizes) (T : Tables F) {D : Type 0} (C : Channel D)
    (encode : Message F → D) where
  -- The tests of `try_queue_snapshot`: the counts of the right half, and the room for all packets.
  abbrev pub oversized : SnapshotCounts → Bool
  oversized counts =
      ltb z.leds_per_half counts.overlay_cells
      || ltb z.scene_capacity counts.scene_cells
      || ltb z.scene_capacity counts.conditional_scene_cells

  walk-count_sink :
      (n : ℕ) (ms : List (Message F)) → walk (count_sink z T C encode) n ms ≡ (n + length ms, true)
  unfolding walk
  walk-count_sink n [] = ap (λ k. (k, true)) (omega arith)
  walk-count_sink n (m ∷ ms) =
      walk_taken (count_sink z T C encode) n (n + 1) m ms refl
      ∙ walk-count_sink (n + 1) ms
      ∙ ap (λ k. (k, true)) (omega arith)

  module _ (laws : ChannelLaws C) where
    walk-send_sink :
        (ms : List (Message F)) (q : C.Queue)
        → length ms ≤ C.free_capacity q
        → (q' : C.Queue) × (walk (send_sink z T C encode) q ms ≡ (q', true))
          × (C.queued q' ≡ C.queued q ++ map encode ms)
          × (C.free_capacity q' + length ms ≡ C.free_capacity q)
    unfolding walk
    walk-send_sink [] q h = (q, refl, sym (append-nil _), omega arith)
    walk-send_sink (m ∷ ms) q h =
        let (u, sent, queued, free) = laws.try_send_room (encode m) q (omega arith) in
        let (q', run, queued', free') = walk-send_sink ms u (omega (arith, free)) in
        (
          q',
          walk_taken (send_sink z T C encode) q u m ms (rw (send_sink, sent)) ∙ run,
          queued'
              ∙ ap (λ l. l ++ map encode ms) queued
              ∙ append_assoc (C.queued q) (encode m ∷ []) (map encode ms),
          omega (arith, free, free'),
        )

    module _ (g : ℕ) (s : Snapshot T) (b : BatteryPair) (q : C.Queue) where
      abbrev packets : List (Message F)
      packets = snapshot_packets z T g s b (snapshot_counts z T s)

      -- The reservation counts the packets that the walk then sends.
      reserved :
          (answer : Bool)
          → ltb (C.free_capacity q) (length packets) ≡ answer
          → ltb (C.free_capacity q) (walk (count_sink z T C encode) 0 packets).0 ≡ answer
      reserved answer h =
          ap (λ r. ltb (C.free_capacity q) r.0) (walk-count_sink 0 packets)
          ∙ ap (ltb (C.free_capacity q)) (omega arith)
          ∙ h

      queue_whole :
          oversized (snapshot_counts z T s) ≡ false
          → length packets ≤ C.free_capacity q
          → (q' : C.Queue) × (try_queue_snapshot z T C encode g s b q ≡ (q', true))
            × (C.queued q' ≡ C.queued q ++ map encode packets)
      unfolding try_queue_snapshot
      queue_whole small room =
          let (q', run, queued, free) = walk-send_sink packets q room in
          (q', rw (small, reserved false (ground arith)) run, queued)

      -- A snapshot is queued whole, in the order of the transaction, when its counts are in bounds
      -- and the queue has room for every packet; otherwise the call answers false and the queue is
      -- left as it was, so that no partial transaction is ever queued.
      pub try_queue_snapshot_lem :
          (oversized (snapshot_counts z T s) ≡ false
            → length packets ≤ C.free_capacity q
            → (q' : C.Queue) × (try_queue_snapshot z T C encode g s b q ≡ (q', true))
              × (C.queued q' ≡ C.queued q ++ map encode packets))
          × (oversized (snapshot_counts z T s) ≡ true
              → try_queue_snapshot z T C encode g s b q ≡ (q, false))
          × (C.free_capacity q < length packets
              → try_queue_snapshot z T C encode g s b q ≡ (q, false))
      unfolding try_queue_snapshot
      try_queue_snapshot_lem = (
        queue_whole,
        λ h. rw h,
        λ h. elim (Bool-cases (oversized (snapshot_counts z T s))) [
          | inl big ↦ rw big
          | inr small ↦ rw (small, reserved true (ltb_of_lt _ _ h))
        ],
      )
