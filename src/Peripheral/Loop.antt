-- ===== src/Peripheral/Loop.antt =====
-- The run loop of `PeripheralReplication`: the packets of the inbox, the heartbeat, and what the half
-- owes the other one behind a reconnect.
use moergo_rmk.Prelude.{
  ℕ, zero, suc, ◌+◌, ◌-◌, ◌%◌, ◌^◌, Bool, true, false, not, ◌&&◌, ◌||◌, List, [], ◌∷◌, ◌++◌, Option,
  none, some, ◌==◌, ltb, if◌then◌else◌, min, length,
}
use moergo_rmk.Wire.Rmk.{Foreign, LayerOps, Sizes}
use moergo_rmk.Wire.Types.{ReplicaDigests}
use moergo_rmk.Wire.Message.{Message}
use moergo_rmk.Replica.Tables.{Tables}
use moergo_rmk.Replica.Stage.{Receiver, reset}
use moergo_rmk.Replica.Walk.{Channel}
use moergo_rmk.Peripheral.{Effect, process}

-- `debug_trace_parts()`; the arrays are two fields each.
pub record BootTrace : Type 0 where
  pub stage : ℕ
  pub boots : ℕ
  pub rr0 : ℕ
  pub rr1 : ℕ
  pub cause0 : ℕ
  pub cause1 : ℕ

-- What an iteration reads: `arrived` is what has come into the inbox since the last one, `link` is
-- `SPLIT_APP_LINK.try_get()`, and `wired_selected()` is read at the head, in the arm, and behind it.
pub record Surroundings : Type 0 where
  pub arrived : List (List ℕ)
  pub link : Option Bool
  pub wired_before : Bool
  pub wired : Bool
  pub wired_later : Bool
  pub wireless : Bool
  pub last_applied : Option ℕ
  pub last_digests : Option ReplicaDigests
  pub boot : BootTrace
  pub panic_loc : Option (List ℕ)

-- What the `select4` of the loop waits for.
pub data Wakeup : Type 0 where
  link_changed : Bool → Wakeup
  packet_received heartbeat_due announce_due : Wakeup

-- The variables of the loop, `SPLIT_APP_RX` and `SPLIT_APP_PERIPH_TX`.
pub record Session {F : Foreign} (T : Tables F) {D : Type 0} (C : Channel D) : Type 0 where
  pub receiver : Receiver T
  pub inbox : List (List ℕ)
  pub heartbeat_at : ℕ
  pub announce_transport : Bool
  pub relay_debug : ℕ
  pub outbound : C.Queue

-- `ATTESTATION_INTERVAL` in milliseconds.
abbrev pub attestation_interval : ℕ
attestation_interval = 300000

abbrev pub diagnostic_may_enqueue : ℕ → ℕ → Bool
diagnostic_may_enqueue free_capacity capacity = free_capacity == capacity

abbrev pub is_up : Option Bool → Bool
is_up none = false
is_up (some up) = up

abbrev pub auto_split_enabled : Surroundings → Bool
auto_split_enabled w = not (w.wired && w.wireless)

-- `u8` subtraction; it wraps where the program is built without overflow checks.
abbrev pub sub_u8 : ℕ → ℕ → ℕ
sub_u8 a b = (a + 2 ^ 8 - b) % 2 ^ 8

-- `wired_selected() != wired`
abbrev pub is_edge : Surroundings → Bool
is_edge w = if w.wired then not w.wired_before else w.wired_before

-- An array of `n` bytes that begins with the text and is filled with zeros.
abbrev pub padded : ℕ → List ℕ → List ℕ
padded zero text = []
padded (suc n) [] = 0 ∷ padded n []
padded (suc n) (x ∷ text) = x ∷ padded n text

module _ {F : Foreign} where
  abbrev pub trace_message : BootTrace → Message F
  trace_message t = Message.debug_trace t.stage t.boots t.rr0 t.rr1 t.cause0 t.cause1

  abbrev pub loc_message : List ℕ → Message F
  loc_message loc = Message.debug_panic_loc (min (length loc) 23) (padded 23 loc)

module _ {F : Foreign} {D : Type 0} (C : Channel D) (encode : Message F → D) (capacity : ℕ) where
  abbrev pub taken_or : Option C.Queue → C.Queue → C.Queue × Bool
  taken_or none q = (q, false)
  taken_or (some q') q = (q', true)

  abbrev pub send : Message F → C.Queue → C.Queue × Bool
  send m q = taken_or (C.try_send (encode m) q) q

  -- The flag tells whether the queue took the message.
  unfoldable pub try_send_diagnostic : Message F → C.Queue → C.Queue × Bool
  try_send_diagnostic m q =
      if diagnostic_may_enqueue (C.free_capacity q) capacity then send m q else (q, false)

  abbrev pub relay_loc : Option (List ℕ) → C.Queue → C.Queue × Bool
  relay_loc none q = (q, true)
  relay_loc (some loc) q = try_send_diagnostic (loc_message loc) q

  unfoldable pub relay_debug_now : Surroundings → ℕ → C.Queue → C.Queue × Bool
  relay_debug_now w step q =
      if is_up w.link
      then if step == 0
        then try_send_diagnostic (trace_message w.boot) q
        else relay_loc w.panic_loc q
      else (q, false)

  -- The flag tells whether the announcement is still owed.
  unfoldable pub announce_transport_now : Surroundings → C.Queue → C.Queue × Bool
  announce_transport_now w q =
      if is_up w.link
      then (let (q', taken) = try_send_diagnostic (Message.transport_status true w.wired_later) q in
          (q', not taken))
      else (q, false)

  unfoldable pub try_send_attestation : Option ReplicaDigests → ℕ → C.Queue → C.Queue × Bool
  try_send_attestation none generation q = (q, false)
  try_send_attestation (some d) generation q =
      try_send_diagnostic (Message.attestation generation d) q

module _ {F : Foreign} (z : Sizes) (T : Tables F) (ops : LayerOps F) {D : Type 0} (C : Channel D)
    (encode : Message F → D) (capacity bootloader_tag : ℕ) where
  -- What an effect of a packet sends.
  unfoldable pub perform_one : Surroundings → Effect T → C.Queue → C.Queue
  perform_one w (Effect.try_send_attestation g) q =
      (try_send_attestation C encode capacity w.last_digests g q).0
  perform_one w (Effect.update_context g r c b) q = (send C encode capacity (Message.ack g r) q).0
  perform_one w _ q = q

  unfoldable pub perform : Surroundings → List (Effect T) → C.Queue → C.Queue
  perform w [] q = q
  perform w (e ∷ es) q = perform w es (perform_one w e q)

  unfoldable pub on_link_changed : Surroundings → Bool → Session T C → Session T C
  on_link_changed w true s = record s {
    receiver = reset z T s.receiver;
    announce_transport = auto_split_enabled w;
    relay_debug = 2;
  }
  on_link_changed w false s = record s { receiver = reset z T s.receiver; inbox = [] }

  unfoldable pub on_packet : Surroundings → List (List ℕ) → Session T C → Session T C
  on_packet w [] s = s
  on_packet w (bytes ∷ rest) s =
      let (rx, effects) = process z T ops bootloader_tag w.last_applied bytes s.receiver in
      record s { receiver = rx; inbox = rest; outbound = perform w effects s.outbound }

  unfoldable pub on_heartbeat : Surroundings → Session T C → Session T C
  on_heartbeat w s =
      let at = s.heartbeat_at + attestation_interval in
      if is_up w.link
      then record s {
        heartbeat_at = at;
        outbound = (try_send_attestation C encode capacity w.last_digests 0 s.outbound).0;
        announce_transport = auto_split_enabled w;
      }
      else record s { heartbeat_at = at }

  unfoldable pub on_announce_due : Surroundings → Session T C → Session T C
  on_announce_due w s =
      if is_edge w || s.announce_transport
      then (let (q, owed) = announce_transport_now C encode capacity w s.outbound in
          record s { outbound = q; announce_transport = owed })
      else if ltb 0 s.relay_debug
      then (let (q, sent) =
            relay_debug_now C encode capacity w (sub_u8 2 s.relay_debug) s.outbound in
          record s {
            outbound = q;
            relay_debug = if sent then sub_u8 s.relay_debug 1 else s.relay_debug;
          })
      else s

  abbrev pub on_wakeup : Surroundings → Wakeup → Session T C → Session T C
  on_wakeup w (Wakeup.link_changed up) s = on_link_changed w up s
  on_wakeup w Wakeup.packet_received s = on_packet w s.inbox s
  on_wakeup w Wakeup.heartbeat_due s = on_heartbeat w s
  on_wakeup w Wakeup.announce_due s = on_announce_due w s

  -- One iteration.
  unfoldable pub iterate : Surroundings → Wakeup → Session T C → Session T C
  iterate w e s = on_wakeup w e (record s { inbox = s.inbox ++ w.arrived })

  unfoldable pub iterations : List (Surroundings × Wakeup) → Session T C → Session T C
  iterations [] s = s
  iterations ((w, e) ∷ rest) s = iterations rest (iterate w e s)
