-- ===== src/Central/Loop.antt =====
-- One iteration of the loop: the offer, what it publishes, and the event that wakes it.
use moergo_rmk.Prelude.{
  ℕ, Bool, List, [], ◌∷◌, Option, none, some, Result, ok, err, ◌==◌, if◌then◌else◌, min,
}
use moergo_rmk.Wire.Rmk.{Foreign, LayerOps, Sizes}
use moergo_rmk.Wire.Types.{ReplicaDigests, BatteryPair, BatteryStatus}
use moergo_rmk.Wire.Message.{Message, DecodeError}
use moergo_rmk.Wire.Decode.{decode}
use moergo_rmk.Replica.Tables.{Tables}
use moergo_rmk.Replica.Snapshot.{Snapshot}
use moergo_rmk.Replica.Walk.{Channel}
use moergo_rmk.Central.State.{PendingAck, Replication}
use moergo_rmk.Central.Cache.{
  Statics, set_machine, record_attestation, record_status, record_secondary_message,
}
use moergo_rmk.Central.Handlers.{
  on_link, on_lighting_changed, on_context_changed, on_ack, on_attestation, on_status_refresh,
  on_timer,
}
use moergo_rmk.Central.Offer.{offer}

-- What the `select` of the loop waits for.
pub data Event : Type 0 where
  link_changed : Bool → Event
  lighting_changed layers_changed indicators_changed : Event
  battery_changed : BatteryStatus → Event
  -- the number of the peripheral, and its battery
  peripheral_battery_changed : ℕ → BatteryStatus → Event
  -- the payload of a packet
  received : List ℕ → Event
  status_refresh_requested timer_fired : Event

-- The readings of the clock in one iteration, in order: at the head, behind the offer, and two in
-- the arm of the event.
pub record Clock : Type 0 where
  pub top : ℕ
  pub sent : ℕ
  pub woken : ℕ
  pub later : ℕ

-- One iteration's surroundings: the clock, the replica that an export yields, and the event.
pub record Turn {F : Foreign} (T : Tables F) : Type 0 where
  pub clock : Clock
  pub prepared : Option (Snapshot T)
  pub event : Event

-- The deadline the loop sleeps to, if any.
abbrev pub deadline_of : Option PendingAck → Option ℕ
deadline_of none = none
deadline_of (some p) = some p.deadline

abbrev pub earliest : Option ℕ → Option ℕ → Option ℕ
earliest none b = b
earliest (some a) none = some a
earliest (some a) (some b) = some (min a b)

unfoldable pub wake_at : Replication → Option ℕ
wake_at r = earliest (deadline_of r.awaiting_ack) r.retry_at

-- The loop, the outbound queue, the batteries (`BATTERY_STATUSES`), the statics, and
-- `FRAME_RESPONSES`, a channel for one message.
pub record World (F : Foreign) {D : Type 0} (C : Channel D) : Type 0 where
  pub replication : Replication
  pub queue : C.Queue
  pub batteries : BatteryPair
  pub statics : Statics F
  pub responses : Option (Message F)

module _ {F : Foreign} (z : Sizes) (T : Tables F) (ops : LayerOps F) {D : Type 0} (C : Channel D)
    (encode : Message F → D) (digests : Snapshot T → ReplicaDigests) (no_layers : F.LayerState)
    (is_utf8 : List ℕ → Bool) where
  -- `Channel::try_send` on the channel for one message.
  abbrev pub offer_response : Message F → Option (Message F) → Option (Message F)
  offer_response m none = some m
  offer_response m (some old) = some old

  -- The arms for a decoded message.
  unfoldable pub on_message : ℕ → Message F → World F C → World F C
  on_message now (Message.ack generation revision) w = record w {
    replication = on_ack generation revision w.replication;
  }
  on_message now (Message.attestation generation d) w = record w {
    replication = on_attestation now d w.replication;
    statics = record w.statics { cache = record_attestation no_layers now d w.statics.cache };
  }
  on_message now (Message.status_report id applied engine layers powered wake output) w = record w {
    statics = record w.statics {
      cache = record_status now applied engine layers powered wake output w.statics.cache;
    };
  }
  on_message now (Message.frame_chunk id revision total start len c0 c1 c2 c3) w = record w {
    responses =
        offer_response (Message.frame_chunk id revision total start len c0 c1 c2 c3) w.responses;
  }
  on_message now m w = record w { statics = record_secondary_message is_utf8 m w.statics }

  abbrev pub on_decoded : ℕ → Result DecodeError (Message F) → World F C → World F C
  on_decoded now (err e) w = w
  on_decoded now (ok m) w = on_message now m w

  abbrev pub on_packet : ℕ → List ℕ → World F C → World F C
  on_packet now bytes w = on_decoded now (decode z ops bytes) w

  -- The request for a status report; a full queue drops it.
  abbrev pub send_request : Replication → C.Queue → C.Queue
  send_request r q =
      if r.link_up
      then elim (C.try_send (encode (Message.status_request r.status_request_id)) q) [
        | none ↦ q
        | some q' ↦ q'
      ]
      else q

  unfoldable pub on_event : Clock → Event → World F C → World F C
  on_event clock (Event.link_changed up) w = record w { replication = on_link up w.replication }
  on_event clock Event.lighting_changed w = record w {
    replication = on_lighting_changed w.replication;
  }
  on_event clock Event.layers_changed w = w
  on_event clock Event.indicators_changed w = record w {
    replication = on_context_changed w.replication;
  }
  on_event clock (Event.battery_changed b) w = record w {
    replication = on_context_changed w.replication;
    batteries = record w.batteries { left = b };
  }
  on_event clock (Event.peripheral_battery_changed id b) w = record w {
    replication = on_context_changed w.replication;
    batteries = if id == 0 then record w.batteries { right = b } else w.batteries;
  }
  on_event clock (Event.received bytes) w = on_packet clock.woken bytes w
  on_event clock Event.status_refresh_requested w =
      let r = on_status_refresh w.replication in
      record w { replication = r; queue = send_request r w.queue }
  on_event clock Event.timer_fired w = record w {
    replication = on_timer clock.woken clock.later w.replication;
  }

  -- The head of the loop, with `set_machine`.
  unfoldable pub head : Turn T → World F C → World F C
  head t w =
      let (r, q) =
        offer z T C encode digests t.clock.top t.clock.sent t.prepared w.batteries w.replication
          w.queue in
      record w {
        replication = r;
        queue = q;
        statics = record w.statics { cache = set_machine r w.statics.cache };
      }

  -- One iteration.
  unfoldable pub turn : Turn T → World F C → World F C
  turn t w = on_event t.clock t.event (head t w)

  -- A run of the loop.
  unfoldable pub turns : List (Turn T) → World F C → World F C
  turns [] w = w
  turns (t ∷ ts) w = turns ts (turn t w)
