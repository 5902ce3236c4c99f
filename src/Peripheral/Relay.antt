-- ===== src/Peripheral/Relay.antt =====
-- What the peripheral tells the other half behind a reconnect.
use moergo_rmk.Prelude.{
  ℕ, ◌<◌, ◌≡◌, refl, sym, ap, Bool, true, false, not, ◌||◌, List, [], ◌∷◌, ◌++◌, Option, none, some,
  arith, ==_refl, append-nil,
}
use moergo_rmk.Wire.Rmk.{Foreign, LayerOps, Sizes}
use moergo_rmk.Wire.Message.{Message}
use moergo_rmk.Replica.Tables.{Tables}
use moergo_rmk.Replica.Walk.{Channel}
use moergo_rmk.Replica.Sender.{ChannelLaws}
use moergo_rmk.Peripheral.Loop.{
  Surroundings, Wakeup, Session, is_up, is_edge, auto_split_enabled, trace_message, loc_message,
  try_send_diagnostic, relay_loc, relay_debug_now, announce_transport_now, on_link_changed,
  on_announce_due, iterate,
}

module _ {F : Foreign} {D : Type 0} (C : Channel D) (laws : ChannelLaws C) (encode : Message F → D)
    (capacity : ℕ) (room : 0 < capacity) where
  -- A message is taken: the queue that is left, and the flag.
  abbrev pub Taken : Message F → C.Queue → C.Queue × Bool → Type 0
  Taken m q (q', sent) = (C.queued q' ≡ C.queued q ++ (encode m ∷ [])) × (sent ≡ true)

  diagnostic-Taken :
      (m : Message F) (q : C.Queue)
      → C.free_capacity q ≡ capacity
      → Taken m q (try_send_diagnostic C encode capacity m q)
  unfolding try_send_diagnostic
  diagnostic-Taken m q empty =
      let (q', taken, queued, less) =
        laws.try_send_room (encode m) q (omega (arith, room, empty)) in
      rw (empty, ==_refl capacity, taken) (queued, refl)

  pub announced :
      (w : Surroundings) (q : C.Queue)
      → C.free_capacity q ≡ capacity
      → is_up w.link ≡ true
      → ((C.queued (announce_transport_now C encode capacity w q).0)
          ≡ C.queued q ++ (encode (Message.transport_status true w.wired_later) ∷ []))
        × ((announce_transport_now C encode capacity w q).1 ≡ false)
  unfolding announce_transport_now
  announced w q empty up =
      let (queued, taken) =
        diagnostic-Taken (Message.transport_status true w.wired_later) q empty in
      rw up (queued, ap not taken)

  pub traced :
      (w : Surroundings) (q : C.Queue)
      → C.free_capacity q ≡ capacity
      → is_up w.link ≡ true
      → Taken (trace_message w.boot) q (relay_debug_now C encode capacity w 0 q)
  unfolding relay_debug_now
  traced w q empty up = rw up (diagnostic-Taken (trace_message w.boot) q empty)

  abbrev pub loc_packets : Option (List ℕ) → List D
  loc_packets none = []
  loc_packets (some loc) = encode (loc_message loc) ∷ []

  located_loc :
      (loc : Option (List ℕ)) (q : C.Queue)
      → C.free_capacity q ≡ capacity
      → ((C.queued (relay_loc C encode capacity loc q).0) ≡ C.queued q ++ loc_packets loc)
        × ((relay_loc C encode capacity loc q).1 ≡ true)
  located_loc none q empty = (sym (append-nil (C.queued q)), refl)
  located_loc (some loc) q empty = diagnostic-Taken (loc_message loc) q empty

  pub located :
      (w : Surroundings) (q : C.Queue)
      → C.free_capacity q ≡ capacity
      → is_up w.link ≡ true
      → ((C.queued (relay_debug_now C encode capacity w 1 q).0)
          ≡ C.queued q ++ loc_packets w.panic_loc)
        × ((relay_debug_now C encode capacity w 1 q).1 ≡ true)
  unfolding relay_debug_now
  located w q empty up = rw up (located_loc w.panic_loc q empty)

module _ {F : Foreign} (z : Sizes) (T : Tables F) (ops : LayerOps F) {D : Type 0} (C : Channel D)
    (laws : ChannelLaws C) (encode : Message F → D) (capacity : ℕ) (room : 0 < capacity)
    (bootloader_tag : ℕ) where
  -- An iteration that pays what is owed, on a queue that the other tasks have left.
  abbrev pub pay : Surroundings → C.Queue → Session T C → Session T C
  pay w q s =
      iterate z T ops C encode capacity bootloader_tag w Wakeup.announce_due
        (record s { outbound = q })

  announce_step :
      (w : Surroundings) (q : C.Queue) (s : Session T C)
      → s.announce_transport ≡ true
      → C.free_capacity q ≡ capacity
      → is_up w.link ≡ true
      → (C.queued (pay w q s).outbound
          ≡ C.queued q ++ (encode (Message.transport_status true w.wired_later) ∷ []))
        × ((pay w q s).announce_transport ≡ false)
        × ((pay w q s).relay_debug ≡ s.relay_debug)
  unfolding iterate on_announce_due
  announce_step w q s owed empty up =
      let (queued, kept) = announced C laws encode capacity room w q empty up in
      let owes : (is_edge w || s.announce_transport) ≡ true = ground (arith, owed) in
      rw (owes) (queued, kept, refl)

  trace_step :
      (w : Surroundings) (q : C.Queue) (s : Session T C)
      → s.announce_transport ≡ false
      → s.relay_debug ≡ 2
      → is_edge w ≡ false
      → C.free_capacity q ≡ capacity
      → is_up w.link ≡ true
      → (C.queued (pay w q s).outbound ≡ C.queued q ++ (encode (trace_message w.boot) ∷ []))
        × ((pay w q s).announce_transport ≡ false)
        × ((pay w q s).relay_debug ≡ 1)
  unfolding iterate on_announce_due
  trace_step w q s paid two steady empty up =
      let (queued, sent) = traced C laws encode capacity room w q empty up in
      rw (paid, steady, two, sent) (queued, refl, refl)

  loc_step :
      (w : Surroundings) (q : C.Queue) (s : Session T C)
      → s.announce_transport ≡ false
      → s.relay_debug ≡ 1
      → is_edge w ≡ false
      → C.free_capacity q ≡ capacity
      → is_up w.link ≡ true
      → (C.queued (pay w q s).outbound
          ≡ C.queued q ++ loc_packets C laws encode capacity room w.panic_loc)
        × ((pay w q s).announce_transport ≡ false)
        × ((pay w q s).relay_debug ≡ 0)
  unfolding iterate on_announce_due
  loc_step w q s paid one steady empty up =
      let (queued, sent) = located C laws encode capacity room w q empty up in
      rw (paid, steady, one, sent) (queued, refl, refl)

  -- The link comes up.
  abbrev pub reconnected : Surroundings → Session T C → Session T C
  reconnected w s = iterate z T ops C encode capacity bootloader_tag w (Wakeup.link_changed true) s

  -- When the link comes up on a board that selects its transport, the next three iterations that pay
  -- what is owed, each with the link up and on an empty queue, and the last two without a change of
  -- the transport, send the announcement of the transport, the trace of the boot, and the place of
  -- the last panic, if there is one, in this order. After them nothing is owed.
  pub relay-delivers :
      (w0 w1 w2 w3 : Surroundings) (q1 q2 q3 : C.Queue) (s : Session T C)
      → auto_split_enabled w0 ≡ true
      → is_up w1.link ≡ true
      → is_up w2.link ≡ true
      → is_up w3.link ≡ true
      → is_edge w2 ≡ false
      → is_edge w3 ≡ false
      → C.free_capacity q1 ≡ capacity
      → C.free_capacity q2 ≡ capacity
      → C.free_capacity q3 ≡ capacity
      → (C.queued (pay w1 q1 (reconnected w0 s)).outbound
          ≡ C.queued q1 ++ (encode (Message.transport_status true w1.wired_later) ∷ []))
        × (C.queued (pay w2 q2 (pay w1 q1 (reconnected w0 s))).outbound
            ≡ C.queued q2 ++ (encode (trace_message w2.boot) ∷ []))
        × (C.queued (pay w3 q3 (pay w2 q2 (pay w1 q1 (reconnected w0 s)))).outbound
            ≡ C.queued q3 ++ loc_packets C laws encode capacity room w3.panic_loc)
        × ((pay w3 q3 (pay w2 q2 (pay w1 q1 (reconnected w0 s)))).announce_transport ≡ false)
        × ((pay w3 q3 (pay w2 q2 (pay w1 q1 (reconnected w0 s)))).relay_debug ≡ 0)
  unfolding iterate on_link_changed
  relay-delivers w0 w1 w2 w3 q1 q2 q3 s auto up1 up2 up3 steady2 steady3 empty1 empty2 empty3 =
      let (announcement, paid1, two) = announce_step w1 q1 (reconnected w0 s) auto empty1 up1 in
      let (trace, paid2, one) =
        trace_step w2 q2 (pay w1 q1 (reconnected w0 s)) paid1 two steady2 empty2 up2 in
      let (loc, paid3, none_owed) =
        loc_step w3 q3 (pay w2 q2 (pay w1 q1 (reconnected w0 s))) paid2 one steady3 empty3 up3 in
      (announcement, trace, loc, paid3, none_owed)
