-- ===== src/Central/Debt.antt =====
-- What the loop owes to the right half, and when it is silent.
use moergo_rmk.Prelude.{
  ℕ, ◌∙◌, Bool, true, false, ◌||◌, ◌≡◌, refl, sym, ◌⊎◌, inl, inr, List, Option, some, ok, err,
  arith, Result, Option-cases, Bool-cases,
}
use moergo_rmk.Wire.Rmk.{Foreign, LayerOps, Sizes}
use moergo_rmk.Wire.Types.{ReplicaDigests, BatteryPair}
use moergo_rmk.Wire.Message.{Message, DecodeError}
use moergo_rmk.Wire.Decode.{decode}
use moergo_rmk.Wire.Encode.Side.{is_some}
use moergo_rmk.Replies.Attestation.{observe}
use moergo_rmk.Replica.Tables.{Tables}
use moergo_rmk.Replica.Snapshot.{Snapshot}
use moergo_rmk.Replica.Walk.{Channel}
use moergo_rmk.Central.State.{Replication, PendingAck}
use moergo_rmk.Central.Handlers.{
  on_ack, on_attestation, on_link, on_lighting_changed, on_context_changed, on_status_refresh,
  on_timer, acks,
}
use moergo_rmk.Central.Offer.{
  clear_retry, may_offer, offered, offer, try_send_snapshot, try_send_context_update, queue_full,
  queue_context,
}
use moergo_rmk.Central.Loop.{
  Event, Clock, Turn, World, on_message, on_decoded, on_event, head, turn,
}
use moergo_rmk.Central.Turns.{
  Reaction, on_event-Reaction, kept, linked, changed, moved, acked, attested, refreshed, timed,
}

-- A change that the right half has not acknowledged: still to be offered, or pending.
abbrev pub owed : Replication → Bool
owed r = r.full_dirty || r.context_dirty || is_some r.awaiting_ack

-- The packet of an event is the acknowledgement of what is pending.
pub record Acknowledges {F : Foreign} (z : Sizes) (ops : LayerOps F) (r : Replication) (e : Event)
    : Type 0 where
  pub pending : PendingAck
  pub bytes : List ℕ
  pub awaited : r.awaiting_ack ≡ some pending
  pub arrived : e ≡ Event.received bytes
  pub carries : decode z ops bytes ≡ ok (Message.ack pending.generation pending.revision)

acks_sound : (g v : ℕ) (p : PendingAck) → acks g v p ≡ true → (g ≡ p.generation) × (v ≡ p.revision)
acks_sound g v p h = ground arith

-- An acknowledgement settles only the transfer that it names.
on_ack-owed :
    {F : Foreign} (z : Sizes) (ops : LayerOps F) (e : Event) (r : Replication) (bytes : List ℕ)
    (g v : ℕ)
    → e ≡ Event.received bytes
    → decode z ops bytes ≡ ok (Message.ack g v)
    → owed r ≡ true
    → (owed (on_ack g v r) ≡ true) ⊎ Acknowledges z ops r e
unfolding on_ack
on_ack-owed z ops e r bytes g v at dec due = elim (Option-cases r.awaiting_ack) [
  | inl idle ↦ inl (rw idle (ground arith))
  | inr (p, wait) ↦ elim (Bool-cases (acks g v p)) [
    | inr other ↦ inl (rw (wait, other) (ground arith))
    | inl ours ↦
        let (same_g, same_v) = acks_sound g v p ours in
        inr (record {
          pending = p;
          bytes = bytes;
          awaited = wait;
          arrived = at;
          carries = rw (sym same_g, sym same_v) dec;
        })
  ]
]

module _ {F : Foreign} (z : Sizes) (T : Tables F) (ops : LayerOps F) {D : Type 0} (C : Channel D)
    (encode : Message F → D) (digests : Snapshot T → ReplicaDigests) (no_layers : F.LayerState)
    (is_utf8 : List ℕ → Bool) where
  on_message-queue :
      (now : ℕ) (m : Message F) (w : World F C)
      → (on_message z T ops C encode digests no_layers is_utf8 now m w).queue ≡ w.queue
  unfolding on_message
  on_message-queue now m w = ground arith

  on_decoded-queue :
      (now : ℕ) (found : Result DecodeError (Message F)) (w : World F C)
      → (on_decoded z T ops C encode digests no_layers is_utf8 now found w).queue ≡ w.queue
  on_decoded-queue now (err e) w = refl
  on_decoded-queue now (ok m) w = on_message-queue now m w

  -- Only a request for a status report makes an event send, and only with the link up.
  on_event-queue :
      (clock : Clock) (e : Event) (w : World F C)
      → w.replication.link_up ≡ false
      → (on_event z T ops C encode digests no_layers is_utf8 clock e w).queue ≡ w.queue
  unfolding on_event on_status_refresh
  on_event-queue clock (Event.received bytes) w h =
      on_decoded-queue clock.woken (decode z ops bytes) w
  on_event-queue clock (Event.link_changed up) w h = refl
  on_event-queue clock Event.lighting_changed w h = refl
  on_event-queue clock Event.layers_changed w h = refl
  on_event-queue clock Event.indicators_changed w h = refl
  on_event-queue clock (Event.battery_changed b) w h = refl
  on_event-queue clock (Event.peripheral_battery_changed id b) w h = refl
  on_event-queue clock Event.status_refresh_requested w h = rw h
  on_event-queue clock Event.timer_fired w h = refl

  module _ (now sent : ℕ) (prepared : Option (Snapshot T)) (b : BatteryPair) (r : Replication)
      (q : C.Queue) where
    offer_down :
        r.link_up ≡ false
        → ((offer z T C encode digests now sent prepared b r q).1 ≡ q)
          × ((offer z T C encode digests now sent prepared b r q).0.link_up ≡ false)
    unfolding offer clear_retry may_offer
    offer_down h = ground arith

    offer-owed : owed r ≡ true → owed (offer z T C encode digests now sent prepared b r q).0 ≡ true
    unfolding offer clear_retry may_offer offered try_send_snapshot try_send_context_update
        queue_full queue_context
    offer-owed h = ground arith

    offer-link_up : (offer z T C encode digests now sent prepared b r q).0.link_up ≡ r.link_up
    unfolding offer clear_retry may_offer offered try_send_snapshot try_send_context_update
        queue_full queue_context
    offer-link_up = ground arith

  reaction-owed :
      {clock : Clock} {e : Event} {r r' : Replication}
      → Reaction z ops clock e r r'
      → r.link_up ≡ true
      → owed r ≡ true
      → (owed r' ≡ true) ⊎ ((e ≡ Event.link_changed false) ⊎ Acknowledges z ops r e)
  unfolding on_link on_lighting_changed on_context_changed on_attestation on_status_refresh on_timer
      observe
  reaction-owed kept up due = inl due
  reaction-owed (linked true at) up due = inl refl
  reaction-owed (linked false at) up due = inr (inl at)
  reaction-owed changed up due = inl refl
  reaction-owed moved up due = inl (ground arith)
  reaction-owed {e = e} {r = r} (acked bytes g v at dec) up due =
      elim (on_ack-owed z ops e r bytes g v at dec due) [
        | inl still ↦ inl still
        | inr settled ↦ inr (inr settled)
      ]
  reaction-owed (attested d) up due = inl due
  reaction-owed refreshed up due = inl (ground arith)
  reaction-owed (timed at) up due = inl (ground arith)

  -- With the link up, no iteration forgets a change: what is still to be offered or is pending stays
  -- so, whatever the queue refuses and whichever timeouts pass, until the link goes down or the
  -- packet arrives that acknowledges the pending transfer with its generation and its revision.
  pub turn-owed :
      (t : Turn T) (w : World F C)
      → w.replication.link_up ≡ true
      → owed w.replication ≡ true
      → (owed (turn z T ops C encode digests no_layers is_utf8 t w).replication ≡ true)
        ⊎ ((t.event ≡ Event.link_changed false)
            ⊎ Acknowledges z ops
                (head z T ops C encode digests no_layers is_utf8 t w).replication
                t.event)
  unfolding turn head
  turn-owed t w up due =
      let (now, sent, p, b, r, q) : ℕ
          × ℕ
          × Option (Snapshot T)
          × BatteryPair
          × Replication
          × C.Queue =
        (t.clock.top, t.clock.sent, t.prepared, w.batteries, w.replication, w.queue) in
      reaction-owed
        (on_event-Reaction z T ops C encode digests no_layers is_utf8 t.clock t.event
          (head z T ops C encode digests no_layers is_utf8 t w))
        (offer-link_up now sent p b r q ∙ up) (offer-owed now sent p b r q due)

  -- With the link down an iteration sends nothing.
  pub turn_down-queue :
      (t : Turn T) (w : World F C)
      → w.replication.link_up ≡ false
      → (turn z T ops C encode digests no_layers is_utf8 t w).queue ≡ w.queue
  unfolding turn head
  turn_down-queue t w down =
      let (quiet, still) =
        offer_down t.clock.top t.clock.sent t.prepared w.batteries w.replication w.queue down in
      on_event-queue t.clock t.event (head z T ops C encode digests no_layers is_utf8 t w) still
      ∙ quiet
