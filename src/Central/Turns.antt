-- ===== src/Central/Turns.antt =====
-- A message changes the state of the loop only as an acknowledgement or an attestation; the
-- invariant over whole runs.
use moergo_rmk.Prelude.{ℕ, Bool, ◌≡◌, refl, List, [], ◌∷◌, ok, err, Result}
use moergo_rmk.Wire.Rmk.{Foreign, LayerOps, Sizes}
use moergo_rmk.Wire.Types.{ReplicaDigests}
use moergo_rmk.Wire.Message.{Message, DecodeError}
use moergo_rmk.Wire.Decode.{decode}
use moergo_rmk.Replica.Tables.{Tables}
use moergo_rmk.Replica.Snapshot.{Snapshot}
use moergo_rmk.Replica.Walk.{Channel}
use moergo_rmk.Central.State.{Replication}
use moergo_rmk.Central.Handlers.{
  on_ack, on_attestation, on_link, on_lighting_changed, on_context_changed, on_status_refresh,
  on_timer,
}
use moergo_rmk.Central.Loop.{
  Event, Clock, Turn, World, on_message, on_decoded, on_event, head, turn, turns,
}
use moergo_rmk.Central.Invariant.{
  ReplicationValid, on_link-ReplicationValid, on_lighting_changed-ReplicationValid,
  on_context_changed-ReplicationValid, on_ack-ReplicationValid, on_attestation-ReplicationValid,
  on_status_refresh-ReplicationValid, on_timer-ReplicationValid, offer-ReplicationValid,
}

-- What an event does to the state of the loop.
pub data Reaction {F : Foreign} (z : Sizes) (ops : LayerOps F) (clock : Clock) (e : Event)
    (r : Replication) : Replication → Type 0 where
  kept : Reaction z ops clock e r r
  linked : (up : Bool) → e ≡ Event.link_changed up → Reaction z ops clock e r (on_link up r)
  changed : Reaction z ops clock e r (on_lighting_changed r)
  moved : Reaction z ops clock e r (on_context_changed r)
  acked :
      (bytes : List ℕ) (g v : ℕ)
      → e ≡ Event.received bytes
      → decode z ops bytes ≡ ok (Message.ack g v)
      → Reaction z ops clock e r (on_ack g v r)
  attested : (d : ReplicaDigests) → Reaction z ops clock e r (on_attestation clock.woken d r)
  refreshed : Reaction z ops clock e r (on_status_refresh r)
  timed : e ≡ Event.timer_fired → Reaction z ops clock e r (on_timer clock.woken clock.later r)

module _ {F : Foreign} (z : Sizes) (T : Tables F) (ops : LayerOps F) {D : Type 0} (C : Channel D)
    (encode : Message F → D) (digests : Snapshot T → ReplicaDigests) (no_layers : F.LayerState)
    (is_utf8 : List ℕ → Bool) where
  on_message-Reaction :
      (clock : Clock) (bytes : List ℕ) (m : Message F) (w : World F C)
      → decode z ops bytes ≡ ok m
      → Reaction z ops clock
          (Event.received bytes)
          w.replication
          (on_message z T ops C encode digests no_layers is_utf8 clock.woken m w).replication
  unfolding on_message
  on_message-Reaction clock bytes (Message.ack g v) w h = acked bytes g v refl h
  on_message-Reaction clock bytes (Message.attestation g d) w h = attested d
  on_message-Reaction clock bytes (Message.status_report _ _ _ _ _ _ _) w h = kept
  on_message-Reaction clock bytes (Message.frame_chunk _ _ _ _ _ _ _ _ _) w h = kept
  on_message-Reaction clock bytes (Message.begin _ _ _ _ _ _ _ _) w h = kept
  on_message-Reaction clock bytes (Message.wake_layers _ _ _) w h = kept
  on_message-Reaction clock bytes (Message.context _ _ _ _) w h = kept
  on_message-Reaction clock bytes (Message.context_update _ _ _ _) w h = kept
  on_message-Reaction clock bytes (Message.extension _ _ _ _) w h = kept
  on_message-Reaction clock bytes (Message.extension_overlay _ _ _ _) w h = kept
  on_message-Reaction clock bytes (Message.cell _ _ _) w h = kept
  on_message-Reaction clock bytes (Message.scene_cell _ _ _) w h = kept
  on_message-Reaction clock bytes (Message.conditional_scene_begin _ _ _) w h = kept
  on_message-Reaction clock bytes (Message.conditional_scene_cell _ _ _) w h = kept
  on_message-Reaction clock bytes (Message.conditional_scene_ext _ _ _ _) w h = kept
  on_message-Reaction clock bytes (Message.commit _ _ _ _) w h = kept
  on_message-Reaction clock bytes (Message.effect_hit _) w h = kept
  on_message-Reaction clock bytes (Message.replica_probe _) w h = kept
  on_message-Reaction clock bytes (Message.status_request _) w h = kept
  on_message-Reaction clock bytes (Message.frame_chunk_request _ _) w h = kept
  on_message-Reaction clock bytes (Message.transport_status _ _) w h = kept
  on_message-Reaction clock bytes (Message.debug_trace _ _ _ _ _ _) w h = kept
  on_message-Reaction clock bytes (Message.debug_panic_loc _ _) w h = kept

  on_decoded-Reaction :
      (clock : Clock) (bytes : List ℕ) (found : Result DecodeError (Message F)) (w : World F C)
      → decode z ops bytes ≡ found
      → Reaction z ops clock
          (Event.received bytes)
          w.replication
          (on_decoded z T ops C encode digests no_layers is_utf8 clock.woken found w).replication
  on_decoded-Reaction clock bytes (err e) w h = kept
  on_decoded-Reaction clock bytes (ok m) w h = on_message-Reaction clock bytes m w h

  pub on_event-Reaction :
      (clock : Clock) (e : Event) (w : World F C)
      → Reaction z ops clock e w.replication
          (on_event z T ops C encode digests no_layers is_utf8 clock e w).replication
  unfolding on_event
  on_event-Reaction clock (Event.link_changed up) w = linked up refl
  on_event-Reaction clock Event.lighting_changed w = changed
  on_event-Reaction clock Event.layers_changed w = kept
  on_event-Reaction clock Event.indicators_changed w = moved
  on_event-Reaction clock (Event.battery_changed b) w = moved
  on_event-Reaction clock (Event.peripheral_battery_changed id b) w = moved
  on_event-Reaction clock (Event.received bytes) w =
      on_decoded-Reaction clock bytes (decode z ops bytes) w refl
  on_event-Reaction clock Event.status_refresh_requested w = refreshed
  on_event-Reaction clock Event.timer_fired w = timed refl

reaction-ReplicationValid :
    {F : Foreign} {z : Sizes} {ops : LayerOps F} {clock : Clock} {e : Event} {r r' : Replication}
    → Reaction z ops clock e r r'
    → ReplicationValid r
    → ReplicationValid r'
reaction-ReplicationValid kept h = h
reaction-ReplicationValid {r = r} (linked up _) h = on_link-ReplicationValid r h up
reaction-ReplicationValid {r = r} changed h = on_lighting_changed-ReplicationValid r h
reaction-ReplicationValid {r = r} moved h = on_context_changed-ReplicationValid r h
reaction-ReplicationValid {r = r} (acked _ g v _ _) h = on_ack-ReplicationValid r h g v
reaction-ReplicationValid {clock = c} {r = r} (attested d) h =
    on_attestation-ReplicationValid r h c.woken d
reaction-ReplicationValid {r = r} refreshed h = on_status_refresh-ReplicationValid r h
reaction-ReplicationValid {clock = c} {r = r} (timed _) h =
    on_timer-ReplicationValid r h c.woken c.later

module _ {F : Foreign} (z : Sizes) (T : Tables F) (ops : LayerOps F) {D : Type 0} (C : Channel D)
    (encode : Message F → D) (digests : Snapshot T → ReplicaDigests) (no_layers : F.LayerState)
    (is_utf8 : List ℕ → Bool) where
  pub turn-ReplicationValid :
      (t : Turn T) (w : World F C)
      → ReplicationValid w.replication
      → ReplicationValid (turn z T ops C encode digests no_layers is_utf8 t w).replication
  unfolding turn head
  turn-ReplicationValid t w h =
      reaction-ReplicationValid
        (on_event-Reaction z T ops C encode digests no_layers is_utf8 t.clock t.event
          (head z T ops C encode digests no_layers is_utf8 t w))
        (offer-ReplicationValid z T C encode digests t.clock.top t.clock.sent t.prepared w.batteries
          w.replication w.queue h)

  -- Every iteration, and so every run of the loop, whatever the events, the clock, the exports and
  -- the queue do, keeps the state in order. With the link down nothing is pending and no back-off
  -- runs; a pending transfer and a back-off never run at the same time; what is pending carries the
  -- last generation; a pending context update amends the snapshot that was acknowledged last; the
  -- digests of a pending snapshot are the expected ones; the health is never `Halted`; and the
  -- counters stay within their widths.
  pub turns-ReplicationValid :
      (ts : List (Turn T)) (w : World F C)
      → ReplicationValid w.replication
      → ReplicationValid (turns z T ops C encode digests no_layers is_utf8 ts w).replication
  unfolding turns
  turns-ReplicationValid [] w h = h
  turns-ReplicationValid (t ∷ ts) w h =
      turns-ReplicationValid ts (turn z T ops C encode digests no_layers is_utf8 t w)
        (turn-ReplicationValid t w h)
