-- ===== src/Central/Pace.antt =====
-- When the loop offers again: the back-off, and the deadline of a pending transfer.
use moergo_rmk.Prelude.{
  ℕ, ◌%◌, ◌+◌, ◌≤◌, ◌<◌, ◌∙◌, Bool, true, false, not, ◌&&◌, ◌≡◌, refl, ap, subst, List, [], ◌∷◌,
  Option, none, some, arith, ltb,
}
use moergo_rmk.Wire.Rmk.{Foreign, LayerOps, Sizes}
use moergo_rmk.Wire.Types.{ReplicaDigests, BatteryPair}
use moergo_rmk.Wire.Message.{Message}
use moergo_rmk.Replies.Attestation.{observe}
use moergo_rmk.Replica.Tables.{Tables}
use moergo_rmk.Replica.Snapshot.{Snapshot}
use moergo_rmk.Replica.Walk.{Channel, try_queue_snapshot}
use moergo_rmk.Central.State.{TransferKind, is_halted, u8_mod, Replication, PendingAck}
use moergo_rmk.Central.Handlers.{
  on_ack, on_attestation, on_lighting_changed, on_context_changed, on_status_refresh, on_timer,
}
use moergo_rmk.Central.Offer.{
  pending, clear_retry, may_offer, offered, offer, try_send_snapshot, queue_full,
}
use moergo_rmk.Central.Loop.{Event, Clock, Turn, World, head, turn, turns}
use moergo_rmk.Central.Turns.{
  Reaction, on_event-Reaction, kept, linked, changed, moved, acked, attested, refreshed, timed,
}

abbrev pub is_link : Event → Bool
is_link (Event.link_changed up) = true
is_link _ = false

-- No iteration of a run reaches the instant `at`, and none sees an edge of the link.
abbrev pub before_retry : {F : Foreign} {T : Tables F} → ℕ → List (Turn T) → Bool
before_retry at [] = true
before_retry at (t ∷ ts) = ltb t.clock.top at && not (is_link t.event) && before_retry at ts

split_before :
    {F : Foreign} {T : Tables F} (at : ℕ) (t : Turn T) (ts : List (Turn T))
    → before_retry at (t ∷ ts) ≡ true
    → (t.clock.top < at) × (is_link t.event ≡ false) × (before_retry at ts ≡ true)
split_before at t ts h = ground arith

-- The loop backs off until `at`.
pub record BacksOff (at : ℕ) (r : Replication) : Type 0 where
  pub idle : r.awaiting_ack ≡ none
  pub waits : r.retry_at ≡ some at
  pub up : r.link_up ≡ true
  pub sound : is_halted r.health ≡ false

-- With the link up, nothing is pending and no back-off runs.
pub record Ready (r : Replication) : Type 0 where
  pub idle : r.awaiting_ack ≡ none
  pub free : r.retry_at ≡ none
  pub up : r.link_up ≡ true
  pub sound : is_halted r.health ≡ false

module _ {F : Foreign} (z : Sizes) (T : Tables F) (ops : LayerOps F) {D : Type 0} (C : Channel D)
    (encode : Message F → D) (digests : Snapshot T → ReplicaDigests) (no_layers : F.LayerState)
    (is_utf8 : List ℕ → Bool) where
  offer-before_retry :
      (at now sent : ℕ) (prepared : Option (Snapshot T)) (b : BatteryPair) (r : Replication)
      (q : C.Queue)
      → r.retry_at ≡ some at
      → now < at
      → offer z T C encode digests now sent prepared b r q ≡ (r, q)
  unfolding offer clear_retry may_offer
  offer-before_retry at now sent prepared b r q wait early = ground arith

  reaction-BacksOff :
      {clock : Clock} {e : Event} {r r' : Replication} (at : ℕ)
      → Reaction z ops clock e r r'
      → is_link e ≡ false
      → BacksOff at r
      → BacksOff at r'
        × (r'.generation ≡ r.generation)
        × (r.full_dirty ≡ true → r'.full_dirty ≡ true)
  unfolding on_lighting_changed on_context_changed on_ack on_attestation on_status_refresh on_timer
      observe
  reaction-BacksOff at kept no_edge h = (h, refl, λ due. due)
  reaction-BacksOff at (linked up e) no_edge h = ground (arith, e)
  reaction-BacksOff at changed no_edge h = ground arith
  reaction-BacksOff at moved no_edge h = ground arith
  reaction-BacksOff at (acked bytes g v e dec) no_edge h = ground arith
  reaction-BacksOff at (attested d) no_edge h = ground arith
  reaction-BacksOff at refreshed no_edge h = ground arith
  reaction-BacksOff at (timed e) no_edge h = ground arith

  turn-BacksOff :
      (at : ℕ) (t : Turn T) (w : World F C)
      → t.clock.top < at
      → is_link t.event ≡ false
      → BacksOff at w.replication
      → BacksOff at (turn z T ops C encode digests no_layers is_utf8 t w).replication
        × ((turn z T ops C encode digests no_layers is_utf8 t w).replication.generation
            ≡ w.replication.generation)
        × (w.replication.full_dirty ≡ true
            → (turn z T ops C encode digests no_layers is_utf8 t w).replication.full_dirty ≡ true)
  unfolding turn head
  turn-BacksOff at t w early no_edge h =
      let same =
        offer-before_retry at t.clock.top t.clock.sent t.prepared w.batteries w.replication w.queue
          h.waits early in
      reaction-BacksOff at
        (subst
          (λ o.
            Reaction z ops t.clock t.event o.0
              (turn z T ops C encode digests no_layers is_utf8 t w).replication)
          same
          (on_event-Reaction z T ops C encode digests no_layers is_utf8 t.clock t.event
            (head z T ops C encode digests no_layers is_utf8 t w)))
        no_edge h

  pub turns_stay-BacksOff :
      (at : ℕ) (ts : List (Turn T)) (w : World F C)
      → BacksOff at w.replication
      → before_retry at ts ≡ true
      → let last = turns z T ops C encode digests no_layers is_utf8 ts w in
        BacksOff at last.replication
        × (last.replication.generation ≡ w.replication.generation)
        × (w.replication.full_dirty ≡ true → last.replication.full_dirty ≡ true)
  unfolding turns
  turns_stay-BacksOff at [] w h early = (h, refl, λ due. due)
  turns_stay-BacksOff at (u ∷ ts) w h early =
      let (soon, no_edge, rest) = split_before at u ts early in
      let (still, same, keeps) = turn-BacksOff at u w soon no_edge h in
      let (last, gen, keeps') =
        turns_stay-BacksOff at ts (turn z T ops C encode digests no_layers is_utf8 u w) still
          rest in
      (last, gen ∙ same, λ due. keeps' (keeps due))

  -- A back-off lasts: in a run that sees no edge of the link and starts no iteration at the instant
  -- `at` or later, no change of the lighting, the layers, the indicators or a battery, no packet and
  -- no timer makes the loop offer a transfer. The head of each iteration leaves the queue, no
  -- generation is taken, the back-off still runs to the same instant with the link up, and a whole
  -- snapshot that was owed still is.
  pub turns-BacksOff :
      (at : ℕ) (ts : List (Turn T)) (t : Turn T) (w : World F C)
      → BacksOff at w.replication
      → before_retry at ts ≡ true
      → t.clock.top < at
      → let last = turns z T ops C encode digests no_layers is_utf8 ts w in
        BacksOff at last.replication
        × (last.replication.generation ≡ w.replication.generation)
        × (w.replication.full_dirty ≡ true → last.replication.full_dirty ≡ true)
        × ((head z T ops C encode digests no_layers is_utf8 t last).queue ≡ last.queue)
  unfolding head
  turns-BacksOff at ts t w h early now =
      let last = turns z T ops C encode digests no_layers is_utf8 ts w in
      let (still, gen, keeps) = turns_stay-BacksOff at ts w h early in
      (
        still,
        gen,
        keeps,
        ap (λ o. o.1)
            (offer-before_retry at t.clock.top t.clock.sent t.prepared last.batteries
              last.replication last.queue still.waits now),
      )

-- The fifth unacknowledged transfer in a row starts a back-off of 20 s, counted from the instant of
-- the timeout; an earlier one starts none. Either way a whole snapshot is owed.
pub timeout-BacksOff :
    (now later : ℕ) (r : Replication) (p : PendingAck)
    → r.awaiting_ack ≡ some p
    → r.retry_at ≡ none
    → r.link_up ≡ true
    → p.deadline ≤ now
    → ((on_timer now later r).full_dirty ≡ true)
      × ((on_timer now later r).generation ≡ r.generation)
      × (4 ≤ r.failed_attempts → BacksOff (later + 20_000) (on_timer now later r))
      × (r.failed_attempts < 4 → Ready (on_timer now later r))
unfolding on_timer
timeout-BacksOff now later r p wait idle up due = ground arith

-- A transfer that the queue refuses, or whose replica is missing, starts a back-off of 50 ms.
pub offered-BacksOff :
    (sent : ℕ) (r : Replication) → Ready r → BacksOff (sent + 50) (offered sent none r)
unfolding offered
offered-BacksOff sent r h = ground arith

module _ {F : Foreign} (z : Sizes) (T : Tables F) {D : Type 0} (C : Channel D)
    (encode : Message F → D) (digests : Snapshot T → ReplicaDigests) where
  -- A whole snapshot that is owed and that the queue takes is offered: at once, or when the back-off
  -- has run out.
  pub offer-full :
      (now sent : ℕ) (s : Snapshot T) (b : BatteryPair) (r : Replication) (q q' : C.Queue)
      → Ready (clear_retry now r)
      → r.full_dirty ≡ true
      → try_queue_snapshot z T C encode ((r.generation + 1) % u8_mod) s b q ≡ (q', true)
      → ((offer z T C encode digests now sent (some s) b r q).1 ≡ q')
        × ((offer z T C encode digests now sent (some s) b r q).0.awaiting_ack
            ≡ some (
                pending z T C encode digests sent
                  ((r.generation + 1) % u8_mod)
                  s
                  TransferKind.full_snapshot
                  (some (digests s))))
  unfolding offer clear_retry may_offer offered try_send_snapshot queue_full
  offer-full now sent s b r q q' h due taken = ground arith

pub clear_retry-Ready : (now : ℕ) (r : Replication) → Ready r → Ready (clear_retry now r)
unfolding clear_retry
clear_retry-Ready now r h = ground arith

pub BacksOff-Ready :
    (at now : ℕ) (r : Replication) → BacksOff at r → at ≤ now → Ready (clear_retry now r)
unfolding clear_retry
BacksOff-Ready at now r h due = ground arith
