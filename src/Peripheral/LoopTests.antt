-- ===== src/Peripheral/LoopTests.antt =====
-- Concrete iterations of the loop.
use moergo_rmk.Prelude.{ℕ, ◌≡◌, ◌≤◌, refl, true, false, [], ◌∷◌, List, none, some, arith}
use moergo_rmk.Wire.Message.{Message}
use moergo_rmk.Wire.Encode.{packet}
use moergo_rmk.Fixtures.{example_foreign, example_ops, example_values, glove80}
use moergo_rmk.Fixtures.ListTables.{list_tables}
use moergo_rmk.Fixtures.Queue.{list_channel, list_channel-ChannelLaws}
use moergo_rmk.Fixtures.Snapshots.{empty_receiver}
use moergo_rmk.Peripheral.Loop.{
  BootTrace, Surroundings, Wakeup, Session, iterate, iterations, trace_message, loc_message,
}
use moergo_rmk.Peripheral.Session.{Sent, iterate-Sent, iterations-RelayValid}
use moergo_rmk.Peripheral.Worker.{ApplyRequest, Worker, apply_request}
use moergo_rmk.Peripheral.Replies.{Replied, iterate-apply_request}
use moergo_rmk.Peripheral.Relay.{pay, reconnected, relay-delivers}

abbrev to_packet : Message example_foreign → List ℕ
to_packet = packet glove80 example_ops example_values

abbrev boot : BootTrace
boot = record { stage = 3; boots = 2; rr0 = 1; rr1 = 0; cause0 = 4; cause1 = 0 }

abbrev around : Surroundings
around = record {
  arrived = [];
  link = some true;
  wired_before = true;
  wired = true;
  wired_later = true;
  wireless = false;
  last_applied = none;
  last_digests = none;
  boot = boot;
  panic_loc = some (109 ∷ 97 ∷ []);
}

abbrev session : Session list_tables list_channel
session = record {
  receiver = empty_receiver;
  inbox = [];
  heartbeat_at = 300000;
  announce_transport = true;
  relay_debug = 2;
  outbound = [];
}

iterate-Sent_example :
    Sent list_channel to_packet 128 []
      (iterate glove80 list_tables example_ops list_channel to_packet 128 99 around
        Wakeup.announce_due session).outbound
iterate-Sent_example =
    iterate-Sent glove80 list_tables example_ops list_channel to_packet 128 99 around
      Wakeup.announce_due session

iterations-RelayValid_example :
    (iterations glove80 list_tables example_ops list_channel to_packet 128 99
      ((around, Wakeup.announce_due) ∷ (around, Wakeup.announce_due) ∷ [])
      session).relay_debug
    ≤ 2
iterations-RelayValid_example =
    iterations-RelayValid glove80 list_tables example_ops list_channel to_packet 128 99
      ((around, Wakeup.announce_due) ∷ (around, Wakeup.announce_due) ∷ []) session (omega arith)

abbrev linked : Session list_tables list_channel
linked =
    reconnected glove80 list_tables example_ops list_channel list_channel-ChannelLaws to_packet 128
      (omega arith) 99 around session

abbrev paid : Session list_tables list_channel → Session list_tables list_channel
paid s =
    pay glove80 list_tables example_ops list_channel list_channel-ChannelLaws to_packet 128
      (omega arith) 99 around [] s

relay-delivers_example :
    ((paid linked).outbound ≡ to_packet (Message.transport_status true true) ∷ [])
    × ((paid (paid linked)).outbound ≡ to_packet (trace_message boot) ∷ [])
    × ((paid (paid (paid linked))).outbound ≡ to_packet (loc_message (109 ∷ 97 ∷ [])) ∷ [])
    × ((paid (paid (paid linked))).announce_transport ≡ false)
    × ((paid (paid (paid linked))).relay_debug ≡ 0)
relay-delivers_example =
    relay-delivers glove80 list_tables example_ops list_channel list_channel-ChannelLaws to_packet
      128 (omega arith) 99 around around around around [] [] [] session refl refl refl refl refl
      refl refl refl refl

abbrev request : ApplyRequest
request = record {
  generation = 3;
  revision = 7;
  digests = record {
    schema = 1;
    revision = 7;
    settings = 2;
    overlay = 3;
    scenes = 4;
    conditional_scenes = 5;
  };
}

abbrev worker : Worker list_channel
worker = record { last_applied = none; last_digests = none; outbound = [] }

iterate-apply_request_example :
    Replied list_channel list_channel-ChannelLaws to_packet 128 request
      (iterate glove80 list_tables example_ops list_channel to_packet 128 99 around
        Wakeup.announce_due session).outbound
      (apply_request list_channel to_packet 128 true request (record worker {
        outbound =
            (iterate glove80 list_tables example_ops list_channel to_packet 128 99 around
              Wakeup.announce_due session).outbound;
      }))
iterate-apply_request_example =
    iterate-apply_request glove80 list_tables example_ops list_channel list_channel-ChannelLaws
      to_packet 128 99 around Wakeup.announce_due session request worker refl (omega arith)
