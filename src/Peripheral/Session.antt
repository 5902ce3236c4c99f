-- ===== src/Peripheral/Session.antt =====
-- What the run loop of the peripheral sends, and when.
use moergo_rmk.Prelude.{
  ℕ, ◌≤◌, ◌≡◌, refl, sym, subst, Bool, true, false, ◌||◌, List, [], ◌∷◌, ◌++◌, Option, none, some,
  ◌==◌, ltb, arith, Bool-cases, ◌⊎◌, inl, inr,
}
use moergo_rmk.Wire.Rmk.{Foreign, LayerOps, Sizes}
use moergo_rmk.Wire.Types.{ReplicaDigests}
use moergo_rmk.Wire.Message.{Message}
use moergo_rmk.Replica.Tables.{Tables}
use moergo_rmk.Replica.Walk.{Channel}
use moergo_rmk.Peripheral.{Effect, process}
use moergo_rmk.Peripheral.Effects.{AtMostOne, process-AtMostOne}
use moergo_rmk.Peripheral.Loop.{
  sub_u8, Surroundings, Wakeup, Session, is_up, is_edge, trace_message, loc_message, taken_or, send,
  try_send_diagnostic, relay_loc, relay_debug_now, announce_transport_now, try_send_attestation,
  perform_one, perform, on_link_changed, on_packet, on_heartbeat, on_announce_due, iterate,
  iterations,
}

module _ {F : Foreign} {D : Type 0} (C : Channel D) (encode : Message F → D) (capacity : ℕ) where
  -- The queue is as before, or it was empty and took one message, or it took an acknowledgement.
  abbrev pub Sent : C.Queue → C.Queue → Type 0
  Sent q q' =
      (q' ≡ q)
      ⊎ ((m : Message F) × (C.free_capacity q ≡ capacity) × (C.try_send (encode m) q ≡ some q'))
      ⊎ ((g : ℕ) × (r : ℕ) × (C.try_send (encode (Message.ack g r)) q ≡ some q'))

  taken_or_either :
      (o : Option C.Queue) (q : C.Queue)
      → ((taken_or C encode capacity o q).0 ≡ q) ⊎ (o ≡ some (taken_or C encode capacity o q).0)
  taken_or_either none q = inl refl
  taken_or_either (some q') q = inr refl

  pub send-Sent : (g r : ℕ) (q : C.Queue) → Sent q (send C encode capacity (Message.ack g r) q).0
  send-Sent g r q = elim (taken_or_either (C.try_send (encode (Message.ack g r)) q) q) [
    | inl h ↦ inl h
    | inr h ↦ inr (inr (g, r, h))
  ]

  pub try_send_diagnostic-Sent :
      (m : Message F) (q : C.Queue) → Sent q (try_send_diagnostic C encode capacity m q).0
  unfolding try_send_diagnostic
  try_send_diagnostic-Sent m q = elim (Bool-cases (C.free_capacity q == capacity)) [
    | inr h ↦ rw h (inl refl)
    | inl same ↦ rw same (elim (taken_or_either (C.try_send (encode m) q) q) [
      | inl h ↦ inl h
      | inr h ↦ inr (inl (m, ground (arith, same), h))
    ])
  ]

  pub try_send_attestation-Sent :
      (d : Option ReplicaDigests) (g : ℕ) (q : C.Queue)
      → Sent q (try_send_attestation C encode capacity d g q).0
  unfolding try_send_attestation
  try_send_attestation-Sent none g q = inl refl
  try_send_attestation-Sent (some d) g q = try_send_diagnostic-Sent (Message.attestation g d) q

  relay_loc-Sent :
      (loc : Option (List ℕ)) (q : C.Queue) → Sent q (relay_loc C encode capacity loc q).0
  relay_loc-Sent none q = inl refl
  relay_loc-Sent (some loc) q = try_send_diagnostic-Sent (loc_message loc) q

  pub relay_debug_now-Sent :
      (w : Surroundings) (step : ℕ) (q : C.Queue)
      → Sent q (relay_debug_now C encode capacity w step q).0
  unfolding relay_debug_now
  relay_debug_now-Sent w step q = elim (Bool-cases (is_up w.link)) [
    | inr h ↦ rw h (inl refl)
    | inl h ↦ rw h (elim (Bool-cases (step == 0)) [
      | inl h ↦ rw h (try_send_diagnostic-Sent (trace_message w.boot) q)
      | inr h ↦ rw h (relay_loc-Sent w.panic_loc q)
    ])
  ]

  pub announce_transport_now-Sent :
      (w : Surroundings) (q : C.Queue) → Sent q (announce_transport_now C encode capacity w q).0
  unfolding announce_transport_now
  announce_transport_now-Sent w q = elim (Bool-cases (is_up w.link)) [
    | inr h ↦ rw h (inl refl)
    | inl h ↦ rw h (try_send_diagnostic-Sent (Message.transport_status true w.wired_later) q)
  ]

module _ {F : Foreign} (z : Sizes) (T : Tables F) (ops : LayerOps F) {D : Type 0} (C : Channel D)
    (encode : Message F → D) (capacity bootloader_tag : ℕ) where
  on_announce_due-Sent :
      (w : Surroundings) (s : Session T C)
      → Sent C encode capacity s.outbound
          (on_announce_due z T ops C encode capacity bootloader_tag w s).outbound
  unfolding on_announce_due
  on_announce_due-Sent w s = elim (Bool-cases (is_edge w || s.announce_transport)) [
    | inl h ↦ rw h (announce_transport_now-Sent C encode capacity w s.outbound)
    | inr h ↦ rw h (elim (Bool-cases (ltb 0 s.relay_debug)) [
      | inl owed ↦
          rw owed (relay_debug_now-Sent C encode capacity w (sub_u8 2 s.relay_debug) s.outbound)
      | inr paid ↦ rw paid (inl refl)
    ])
  ]

  on_heartbeat-Sent :
      (w : Surroundings) (s : Session T C)
      → Sent C encode capacity s.outbound
          (on_heartbeat z T ops C encode capacity bootloader_tag w s).outbound
  unfolding on_heartbeat
  on_heartbeat-Sent w s = elim (Bool-cases (is_up w.link)) [
    | inl h ↦ rw h (try_send_attestation-Sent C encode capacity w.last_digests 0 s.outbound)
    | inr h ↦ rw h (inl refl)
  ]

  perform_one-Sent :
      (w : Surroundings) (e : Effect T) (q : C.Queue)
      → Sent C encode capacity q (perform_one z T ops C encode capacity bootloader_tag w e q)
  unfolding perform_one
  perform_one-Sent w (Effect.try_send_attestation g) q =
      try_send_attestation-Sent C encode capacity w.last_digests g q
  perform_one-Sent w (Effect.update_context g r c b) q = send-Sent C encode capacity g r q
  perform_one-Sent w Effect.jump_to_bootloader q = inl refl
  perform_one-Sent w (Effect.record_hit slot) q = inl refl
  perform_one-Sent w (Effect.status_request id) q = inl refl
  perform_one-Sent w (Effect.frame_chunk_request id offset) q = inl refl
  perform_one-Sent w (Effect.publish g snapshot b) q = inl refl

  perform-Sent :
      (w : Surroundings) (effects : List (Effect T)) (q : C.Queue)
      → AtMostOne z T effects
      → Sent C encode capacity q (perform z T ops C encode capacity bootloader_tag w effects q)
  unfolding perform
  perform-Sent w [] q single = inl refl
  perform-Sent w (e ∷ []) q single = perform_one-Sent w e q
  perform-Sent w (e ∷ (e' ∷ es)) q single = absurd single

  on_packet-Sent :
      (w : Surroundings) (inbox : List (List ℕ)) (s : Session T C)
      → Sent C encode capacity s.outbound
          (on_packet z T ops C encode capacity bootloader_tag w inbox s).outbound
  unfolding on_packet
  on_packet-Sent w [] s = inl refl
  on_packet-Sent w (bytes ∷ rest) s =
      perform-Sent w (process z T ops bootloader_tag w.last_applied bytes s.receiver).1 s.outbound
        (process-AtMostOne z T ops bootloader_tag w.last_applied bytes s.receiver)

  on_link_changed-Sent :
      (w : Surroundings) (up : Bool) (s : Session T C)
      → Sent C encode capacity s.outbound
          (on_link_changed z T ops C encode capacity bootloader_tag w up s).outbound
  unfolding on_link_changed
  on_link_changed-Sent w true s = inl refl
  on_link_changed-Sent w false s = inl refl

  -- Whatever wakes the loop, an iteration leaves the outbound queue as it is, or adds one message to
  -- an empty queue, or adds one acknowledgement: a report never takes the room of an acknowledgement.
  pub iterate-Sent :
      (w : Surroundings) (e : Wakeup) (s : Session T C)
      → Sent C encode capacity s.outbound
          (iterate z T ops C encode capacity bootloader_tag w e s).outbound
  unfolding iterate
  iterate-Sent w (Wakeup.link_changed up) s =
      on_link_changed-Sent w up (record s { inbox = s.inbox ++ w.arrived })
  iterate-Sent w Wakeup.packet_received s =
      on_packet-Sent w (s.inbox ++ w.arrived) (record s { inbox = s.inbox ++ w.arrived })
  iterate-Sent w Wakeup.heartbeat_due s =
      on_heartbeat-Sent w (record s { inbox = s.inbox ++ w.arrived })
  iterate-Sent w Wakeup.announce_due s =
      on_announce_due-Sent w (record s { inbox = s.inbox ++ w.arrived })

  -- The counter of the relay.
  abbrev pub RelayValid : Session T C → Type 0
  RelayValid s = s.relay_debug ≤ 2

  on_packet-relay :
      (w : Surroundings) (inbox : List (List ℕ)) (s : Session T C)
      → (on_packet z T ops C encode capacity bootloader_tag w inbox s).relay_debug ≡ s.relay_debug
  unfolding on_packet
  on_packet-relay w [] s = refl
  on_packet-relay w (bytes ∷ rest) s = refl

  iterate-RelayValid :
      (w : Surroundings) (e : Wakeup) (s : Session T C)
      → RelayValid s
      → RelayValid (iterate z T ops C encode capacity bootloader_tag w e s)
  unfolding iterate on_link_changed on_heartbeat on_announce_due
  iterate-RelayValid w (Wakeup.link_changed true) s valid = omega arith
  iterate-RelayValid w (Wakeup.link_changed false) s valid = valid
  iterate-RelayValid w Wakeup.packet_received s valid =
      subst (λ n. n ≤ 2)
        (sym (on_packet-relay w (s.inbox ++ w.arrived) (record s { inbox = s.inbox ++ w.arrived })))
        valid
  iterate-RelayValid w Wakeup.heartbeat_due s valid = ground (arith, valid)
  iterate-RelayValid w Wakeup.announce_due s valid = ground (arith, valid)

  -- From a relay counter of at most two, as the loop starts with, every sequence of iterations keeps
  -- it so, though a decrement of zero would wrap to 255.
  pub iterations-RelayValid :
      (turns : List (Surroundings × Wakeup)) (s : Session T C)
      → RelayValid s
      → RelayValid (iterations z T ops C encode capacity bootloader_tag turns s)
  unfolding iterations
  iterations-RelayValid [] s valid = valid
  iterations-RelayValid ((w, e) ∷ rest) s valid =
      iterations-RelayValid rest (iterate z T ops C encode capacity bootloader_tag w e s)
        (iterate-RelayValid w e s valid)
