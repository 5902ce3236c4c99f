-- ===== src/Central/Resend.antt =====
-- A lost transfer is sent again in full.
use moergo_rmk.Prelude.{
  ℕ, ◌+◌, ◌%◌, ◌≤◌, ◌<◌, ◌∙◌, ◌++◌, Bool, true, false, ◌≡◌, refl, sym, ap, subst, List, none, some,
  arith, length, map,
}
use moergo_rmk.Wire.Rmk.{Foreign, LayerOps, Sizes}
use moergo_rmk.Wire.Types.{ReplicaDigests}
use moergo_rmk.Wire.Message.{Message}
use moergo_rmk.Replica.Tables.{Tables}
use moergo_rmk.Replica.Snapshot.{Snapshot}
use moergo_rmk.Replica.Walk.{Channel, snapshot_counts, snapshot_packets}
use moergo_rmk.Replica.Sender.{ChannelLaws, oversized, try_queue_snapshot_lem}
use moergo_rmk.Central.State.{Replication, PendingAck, TransferKind, u8_mod}
use moergo_rmk.Central.Handlers.{on_timer}
use moergo_rmk.Central.Offer.{clear_retry, pending}
use moergo_rmk.Central.Loop.{Event, Turn, World, on_event, head, turn, turns}
use moergo_rmk.Central.Invariant.{ReplicationValid}
use moergo_rmk.Central.Pace.{
  BacksOff, Ready, before_retry, timeout-BacksOff, turns_stay-BacksOff, clear_retry-Ready,
  BacksOff-Ready, offer-full,
}
use moergo_rmk.Central.Recover.{offer-pending}

pending-idle :
    (r : Replication) (p : PendingAck)
    → ReplicationValid r
    → r.awaiting_ack ≡ some p
    → (r.link_up ≡ true) × (r.retry_at ≡ none) × (p.generation ≡ r.generation)
pending-idle r p h wait = ground (arith, h.pending_generation p wait)

module _ {F : Foreign} (z : Sizes) (T : Tables F) (ops : LayerOps F) {D : Type 0} (C : Channel D)
    (encode : Message F → D) (digests : Snapshot T → ReplicaDigests) (no_layers : F.LayerState)
    (is_utf8 : List ℕ → Bool) (laws : ChannelLaws C) where
  -- The head of the iteration in which the timer of a pending transfer runs out changes nothing.
  timed-head :
      (p : PendingAck) (t : Turn T) (w : World F C)
      → w.replication.awaiting_ack ≡ some p
      → w.replication.retry_at ≡ none
      → (head z T ops C encode digests no_layers is_utf8 t w).replication ≡ w.replication
  unfolding head clear_retry
  timed-head p t w wait idle =
      ap (λ o. o.0)
        (offer-pending z T ops C encode digests no_layers is_utf8 t.clock.top t.clock.sent
          t.prepared w.batteries w.replication w.queue p wait)
      ∙ rw idle

  timed-turn :
      (p : PendingAck) (t : Turn T) (w : World F C)
      → w.replication.awaiting_ack ≡ some p
      → w.replication.retry_at ≡ none
      → t.event ≡ Event.timer_fired
      → (turn z T ops C encode digests no_layers is_utf8 t w).replication
        ≡ on_timer t.clock.woken t.clock.later w.replication
  unfolding turn on_event head
  timed-turn p t w wait idle fires =
      rw fires (ap (on_timer t.clock.woken t.clock.later) (timed-head p t w wait idle))

  -- The head of an iteration that offers a whole snapshot.
  abbrev pub Offers : Turn T → World F C → Snapshot T → ℕ → Type 0
  Offers u w s g =
      (C.queued (head z T ops C encode digests no_layers is_utf8 u w).queue
        ≡ C.queued w.queue
          ++ map encode (snapshot_packets z T g s w.batteries (snapshot_counts z T s)))
      × ((head z T ops C encode digests no_layers is_utf8 u w).replication.awaiting_ack
          ≡ some (
              pending z T C encode digests u.clock.sent g s TransferKind.full_snapshot
                (some (digests s))))

  -- The replica of a turn can be queued as a whole.
  abbrev pub Sends : Turn T → World F C → Snapshot T → ℕ → Type 0
  Sends u w s g =
      (u.prepared ≡ some s)
      × (oversized z T C encode (snapshot_counts z T s) ≡ false)
      × (length (snapshot_packets z T g s w.batteries (snapshot_counts z T s))
          ≤ C.free_capacity w.queue)

  Ready-Offers :
      (u : Turn T) (w : World F C) (s : Snapshot T) (g : ℕ)
      → Ready (clear_retry u.clock.top w.replication)
      → w.replication.full_dirty ≡ true
      → (w.replication.generation + 1) % u8_mod ≡ g
      → Sends u w s g
      → Offers u w s g
  unfolding head
  Ready-Offers u w s g can due next (ready, small, room) =
      let (q', taken, queued) =
        (try_queue_snapshot_lem z T C encode laws g s w.batteries w.queue).0 small room in
      let (sent, waits) =
        offer-full z T C encode digests u.clock.top u.clock.sent s w.batteries w.replication w.queue
          q' can due (rw next taken) in
      (rw ready (ap C.queued sent ∙ queued), rw ready (waits ∙ rw next refl))

  module _ (p : PendingAck) (t : Turn T) (w : World F C) (valid : ReplicationValid w.replication)
      (wait : w.replication.awaiting_ack ≡ some p) (fires : t.event ≡ Event.timer_fired)
      (due : p.deadline ≤ t.clock.woken) where
    abbrev lost : World F C
    lost = turn z T ops C encode digests no_layers is_utf8 t w

    lost_lem :
        (lost.replication.full_dirty ≡ true)
        × (lost.replication.generation ≡ p.generation)
        × (4 ≤ w.replication.failed_attempts → BacksOff (t.clock.later + 20_000) lost.replication)
        × (w.replication.failed_attempts < 4 → Ready lost.replication)
    lost_lem =
        let (up, idle, same) = pending-idle w.replication p valid wait in
        let (full, gen, slow, fast) =
          subst
            (λ r.
              (r.full_dirty ≡ true)
              × (r.generation ≡ w.replication.generation)
              × (4 ≤ w.replication.failed_attempts → BacksOff (t.clock.later + 20_000) r)
              × (w.replication.failed_attempts < 4 → Ready r))
            (sym (timed-turn p t w wait idle fires))
            (timeout-BacksOff t.clock.woken t.clock.later w.replication p wait idle up due) in
        (full, gen ∙ sym same, slow, fast)

    next_lem : (lost.replication.generation + 1) % u8_mod ≡ (p.generation + 1) % u8_mod
    next_lem = rw (lost_lem.1) refl

    -- A transfer that is lost, whatever its kind, is sent again in full: after fewer than five losses
    -- in a row, when the timer has fired at its deadline, the very next iteration queues every packet
    -- of a new snapshot under the next generation and waits for it, if the replica is exported and in
    -- bounds and the queue has the room.
    pub lost-Offers :
        (s : Snapshot T) (u : Turn T)
        → w.replication.failed_attempts < 4
        → Sends u lost s ((p.generation + 1) % u8_mod)
        → Offers u lost s ((p.generation + 1) % u8_mod)
    lost-Offers s u few sends =
        let (full, gen, slow, fast) = lost_lem in
        Ready-Offers u lost s ((p.generation + 1) % u8_mod)
          (clear_retry-Ready u.clock.top lost.replication (fast few)) full next_lem sends

    -- From the fifth loss in a row on, the first iteration that starts 20 s after the timeout does,
    -- whichever events other than an edge of the link wake the loop before.
    pub lost-Offers_late :
        (s : Snapshot T) (u : Turn T) (ts : List (Turn T))
        → 4 ≤ w.replication.failed_attempts
        → before_retry (t.clock.later + 20_000) ts ≡ true
        → t.clock.later + 20_000 ≤ u.clock.top
        → let later = turns z T ops C encode digests no_layers is_utf8 ts lost in
          Sends u later s ((p.generation + 1) % u8_mod)
          → Offers u later s ((p.generation + 1) % u8_mod)
    lost-Offers_late s u ts many early after sends =
        let (full, gen, slow, fast) = lost_lem in
        let (still, same, keeps) =
          turns_stay-BacksOff z T ops C encode digests no_layers is_utf8 (t.clock.later + 20_000) ts
            lost (slow many) early in
        let later = turns z T ops C encode digests no_layers is_utf8 ts lost in
        Ready-Offers u later s ((p.generation + 1) % u8_mod)
          (BacksOff-Ready (t.clock.later + 20_000) u.clock.top later.replication still after)
          (keeps full) (rw same next_lem) sends
