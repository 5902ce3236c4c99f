-- ===== src/Central/Recover.antt =====
-- A pending transfer waits for its own deadline.
use moergo_rmk.Prelude.{
  ℕ, ◌∙◌, Bool, true, false, not, ◌&&◌, ◌≡◌, ap, List, [], ◌∷◌, Option, some, ok, arith, Result,
  leb,
}
use moergo_rmk.Wire.Rmk.{Foreign, LayerOps, Sizes}
use moergo_rmk.Wire.Types.{ReplicaDigests, BatteryPair}
use moergo_rmk.Wire.Message.{Message, DecodeError}
use moergo_rmk.Wire.Decode.{decode}
use moergo_rmk.Replies.Attestation.{observe}
use moergo_rmk.Replica.Tables.{Tables}
use moergo_rmk.Replica.Snapshot.{Snapshot}
use moergo_rmk.Replica.Walk.{Channel}
use moergo_rmk.Central.State.{Replication, PendingAck}
use moergo_rmk.Central.Handlers.{
  on_ack, on_attestation, on_lighting_changed, on_context_changed, on_status_refresh, on_timer,
  acks,
}
use moergo_rmk.Central.Offer.{clear_retry, may_offer, offer}
use moergo_rmk.Central.Loop.{Event, Clock, Turn, World, head, turn, turns}
use moergo_rmk.Central.Turns.{
  Reaction, on_event-Reaction, kept, linked, changed, moved, acked, attested, refreshed, timed,
}

-- The packet acknowledges the transfer.
abbrev pub is_ack_of : {F : Foreign} → PendingAck → Result DecodeError (Message F) → Bool
is_ack_of p (ok (Message.ack g v)) = acks g v p
is_ack_of p _ = false

module _ {F : Foreign} (z : Sizes) (ops : LayerOps F) where
  -- What ends the wait for an acknowledgement: an edge of the link, the acknowledgement, and a timer
  -- that fires at the deadline or later.
  abbrev pub resolves : PendingAck → Clock → Event → Bool
  resolves p clock (Event.link_changed up) = true
  resolves p clock (Event.received bytes) = is_ack_of p (decode z ops bytes)
  resolves p clock Event.timer_fired = leb p.deadline clock.woken
  resolves p clock _ = false

  abbrev pub unresolved : {T : Tables F} → PendingAck → List (Turn T) → Bool
  unresolved p [] = true
  unresolved p (t ∷ ts) = not (resolves p t.clock t.event) && unresolved p ts

  reaction-pending :
      {clock : Clock} {e : Event} {r r' : Replication} (p : PendingAck)
      → Reaction z ops clock e r r'
      → resolves p clock e ≡ false
      → r.awaiting_ack ≡ some p
      → r'.awaiting_ack ≡ some p
  unfolding on_lighting_changed on_context_changed on_ack on_attestation on_status_refresh on_timer
      observe
  reaction-pending p kept still h = h
  reaction-pending p (linked up e) still h = ground (arith, e)
  reaction-pending p changed still h = h
  reaction-pending p moved still h = h
  reaction-pending p (acked bytes g v e dec) still h = ground (arith, e, dec)
  reaction-pending p (attested d) still h = h
  reaction-pending p refreshed still h = ground arith
  reaction-pending p (timed e) still h = ground (arith, e)

split_unresolved :
    {F : Foreign} {T : Tables F} (z : Sizes) (ops : LayerOps F) (p : PendingAck) (t : Turn T)
    (ts : List (Turn T))
    → unresolved z ops p (t ∷ ts) ≡ true
    → (resolves z ops p t.clock t.event ≡ false) × (unresolved z ops p ts ≡ true)
split_unresolved z ops p t ts h = ground arith

module _ {F : Foreign} (z : Sizes) (T : Tables F) (ops : LayerOps F) {D : Type 0} (C : Channel D)
    (encode : Message F → D) (digests : Snapshot T → ReplicaDigests) (no_layers : F.LayerState)
    (is_utf8 : List ℕ → Bool) where
  module _ (now sent : ℕ) (prepared : Option (Snapshot T)) (b : BatteryPair) (r : Replication)
      (q : C.Queue) (p : PendingAck) where
    -- Nothing is offered while a transfer is pending.
    pub offer-pending :
        r.awaiting_ack ≡ some p
        → offer z T C encode digests now sent prepared b r q ≡ (clear_retry now r, q)
    unfolding offer clear_retry may_offer
    offer-pending wait = ground arith

    clear_retry-pending : r.awaiting_ack ≡ some p → (clear_retry now r).awaiting_ack ≡ some p
    unfolding clear_retry
    clear_retry-pending wait = ground arith

  head-pending :
      (p : PendingAck) (t : Turn T) (w : World F C)
      → w.replication.awaiting_ack ≡ some p
      → (head z T ops C encode digests no_layers is_utf8 t w).replication.awaiting_ack ≡ some p
  unfolding head
  head-pending p t w wait =
      let (now, sent, b, r, q) : ℕ × ℕ × BatteryPair × Replication × C.Queue =
        (t.clock.top, t.clock.sent, w.batteries, w.replication, w.queue) in
      ap (λ o. o.0.awaiting_ack) (offer-pending now sent t.prepared b r q p wait)
      ∙ clear_retry-pending now sent t.prepared b r q p wait

  -- A pending transfer keeps its deadline: in a run without an edge of the link, without its
  -- acknowledgement and without a timer that fires at its deadline or later, it stays pending
  -- unchanged, however many other events wake the loop.
  pub turns-pending :
      (p : PendingAck) (ts : List (Turn T)) (w : World F C)
      → w.replication.awaiting_ack ≡ some p
      → unresolved z ops p ts ≡ true
      → (turns z T ops C encode digests no_layers is_utf8 ts w).replication.awaiting_ack ≡ some p
  unfolding turns turn
  turns-pending p [] w wait still = wait
  turns-pending p (t ∷ ts) w wait still =
      let (quiet, rest) = split_unresolved z ops p t ts still in
      turns-pending p ts (turn z T ops C encode digests no_layers is_utf8 t w)
        (reaction-pending z ops p
          (on_event-Reaction z T ops C encode digests no_layers is_utf8 t.clock t.event
            (head z T ops C encode digests no_layers is_utf8 t w))
          quiet (head-pending p t w wait))
        rest
