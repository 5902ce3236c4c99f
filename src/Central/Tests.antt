-- ===== src/Central/Tests.antt =====
-- Concrete turns of the loop.
use moergo_rmk.Prelude.{
  ℕ, ◌++◌, ◌≡◌, ◌⊎◌, refl, true, false, List, [], ◌∷◌, none, some, map, arith, ◌<◌,
}
use moergo_rmk.Wire.Types.{ReplicaDigests}
use moergo_rmk.Wire.Message.{Message}
use moergo_rmk.Wire.Encode.{packet}
use moergo_rmk.Replica.Digest.{replica_digests}
use moergo_rmk.Replica.Replicates.{Replicates}
use moergo_rmk.Replica.Snapshot.{Snapshot}
use moergo_rmk.Replica.Walk.{snapshot_counts, snapshot_packets}
use moergo_rmk.Peripheral.{Effect, process_all}
use moergo_rmk.Fixtures.{example_ops, example_values, example_foreign, glove80}
use moergo_rmk.Fixtures.ListTables.{list_tables, list_laws}
use moergo_rmk.Fixtures.Queue.{list_channel, list_channel-ChannelLaws}
use moergo_rmk.Fixtures.Snapshots.{
  layered_snapshot, layered_snapshot-Sendable, example_batteries, empty_receiver, glove80-SizesFit,
}
use moergo_rmk.Central.State.{Replication, PendingAck, TransferKind, replication}
use moergo_rmk.Central.Cache.{Statics, machine_of}
use moergo_rmk.Central.Loop.{Event, Clock, Turn, World, head, turn, turns, on_event}
use moergo_rmk.Central.Handlers.{on_timer}
use moergo_rmk.Central.Offer.{offer, clear_retry, may_offer}
use moergo_rmk.Central.Invariant.{ReplicationValid, replication-ReplicationValid}
use moergo_rmk.Central.Turns.{turns-ReplicationValid}
use moergo_rmk.Central.Debt.{owed, Acknowledges, turn-owed, turn_down-queue}
use moergo_rmk.Central.Pace.{BacksOff, clear_retry-Ready, turns-BacksOff}
use moergo_rmk.Central.Recover.{turns-pending}
use moergo_rmk.Central.Resend.{Offers, lost-Offers, lost-Offers_late}
use moergo_rmk.Central.Settle.{Acked}
use moergo_rmk.Central.Converge.{transfer-converges}

abbrev to_packet : Message example_foreign → List ℕ
to_packet = packet glove80 example_ops example_values

abbrev digests : Snapshot list_tables → ReplicaDigests
digests = replica_digests glove80 list_tables example_values 1 32

abbrev statics : Statics example_foreign
statics = record {
  cache = record {
    machine = machine_of replication;
    peripheral = none;
    last_attested_at = none;
    last_refresh_requested_at = none;
  };
  transport = none;
  debug = none;
}

abbrev world : Replication → World example_foreign list_channel
world r = record {
  replication = r;
  queue = [];
  batteries = example_batteries;
  statics = statics;
  responses = none;
}

abbrev clock_at : ℕ → Clock
clock_at t = record { top = t; sent = t; woken = t; later = t }

abbrev turn_at : ℕ → Event → Turn list_tables
turn_at t e = record { clock = clock_at t; prepared = some layered_snapshot; event = e }

-- Just linked, with a pending snapshot, and in a back-off.
abbrev linked : Replication
linked = record replication { link_up = true }

abbrev waiting_for : PendingAck
waiting_for = record {
  generation = 0;
  revision = 7;
  kind = TransferKind.full_snapshot;
  deadline = 600;
  digests = some (digests layered_snapshot);
}

abbrev waiting : ℕ → Replication
waiting failed = record replication {
  link_up = true;
  full_dirty = false;
  awaiting_ack = some waiting_for;
  expected_digests = some (digests layered_snapshot);
  failed_attempts = failed;
}

abbrev run :
    List (Turn list_tables)
    → World example_foreign list_channel
    → World example_foreign list_channel
run = turns glove80 list_tables example_ops list_channel to_packet digests 0 (λ bytes. true)

abbrev step :
    Turn list_tables → World example_foreign list_channel → World example_foreign list_channel
step = turn glove80 list_tables example_ops list_channel to_packet digests 0 (λ bytes. true)

abbrev first :
    Turn list_tables → World example_foreign list_channel → World example_foreign list_channel
first = head glove80 list_tables example_ops list_channel to_packet digests 0 (λ bytes. true)

turns-ReplicationValid_example :
    ReplicationValid
      (run
        (turn_at 0 (Event.link_changed true) ∷ turn_at 10 Event.lighting_changed ∷ [])
        (world replication)).replication
turns-ReplicationValid_example =
    turns-ReplicationValid glove80 list_tables example_ops list_channel to_packet digests 0
      (λ bytes. true) (turn_at 0 (Event.link_changed true) ∷ turn_at 10 Event.lighting_changed ∷ [])
      (world replication) replication-ReplicationValid

turn-owed_example :
    (owed (step (turn_at 10 Event.layers_changed) (world linked)).replication ≡ true)
    ⊎ ((Event.layers_changed ≡ Event.link_changed false)
        ⊎ Acknowledges glove80 example_ops
            (first (turn_at 10 Event.layers_changed) (world linked)).replication
            Event.layers_changed)
unfolding replication
turn-owed_example =
    turn-owed glove80 list_tables example_ops list_channel to_packet digests 0 (λ bytes. true)
      (turn_at 10 Event.layers_changed) (world linked) refl refl

turn_down-queue_example :
    (step (turn_at 10 Event.status_refresh_requested) (world replication)).queue ≡ []
unfolding replication
turn_down-queue_example =
    turn_down-queue glove80 list_tables example_ops list_channel to_packet digests 0 (λ bytes. true)
      (turn_at 10 Event.status_refresh_requested) (world replication) refl

abbrev resting : Replication
resting = record replication { link_up = true; retry_at = some 20_600 }

abbrev busy_turns : List (Turn list_tables)
busy_turns = turn_at 700 Event.lighting_changed ∷ turn_at 800 Event.indicators_changed ∷ []

turns-BacksOff_example :
    BacksOff 20_600 (run busy_turns (world resting)).replication
    × ((run busy_turns (world resting)).replication.generation ≡ resting.generation)
    × (resting.full_dirty ≡ true → (run busy_turns (world resting)).replication.full_dirty ≡ true)
    × ((first (turn_at 900 Event.layers_changed) (run busy_turns (world resting))).queue
        ≡ (run busy_turns (world resting)).queue)
unfolding replication
turns-BacksOff_example =
    turns-BacksOff glove80 list_tables example_ops list_channel to_packet digests 0 (λ bytes. true)
      20_600 busy_turns (turn_at 900 Event.layers_changed) (world resting)
      (record { idle = refl; waits = refl; up = refl; sound = refl }) refl (omega arith)

turns-pending_example :
    (run busy_turns (world (waiting 0))).replication.awaiting_ack ≡ some waiting_for
unfolding replication
turns-pending_example =
    turns-pending glove80 list_tables example_ops list_channel to_packet digests 0 (λ bytes. true)
      waiting_for busy_turns (world (waiting 0)) refl refl

waiting-ReplicationValid : (failed : ℕ) → failed < 10 → ReplicationValid (waiting failed)
unfolding replication
waiting-ReplicationValid failed h = ground arith

lost-Offers_example :
    Offers glove80 list_tables example_ops list_channel to_packet digests 0
      (λ bytes. true)
      list_channel-ChannelLaws
      (turn_at 700 Event.layers_changed)
      (step (turn_at 650 Event.timer_fired) (world (waiting 0)))
      layered_snapshot
      1
unfolding replication turn head offer clear_retry may_offer on_event on_timer snapshot_packets
lost-Offers_example =
    lost-Offers glove80 list_tables example_ops list_channel to_packet digests 0 (λ bytes. true)
      list_channel-ChannelLaws waiting_for (turn_at 650 Event.timer_fired) (world (waiting 0))
      (waiting-ReplicationValid 0 (omega arith)) refl refl (omega arith) layered_snapshot
      (turn_at 700 Event.layers_changed) (omega arith) (refl, refl, omega arith)

abbrev late_turns : List (Turn list_tables)
late_turns = turn_at 651 Event.layers_changed ∷ turn_at 660 Event.timer_fired ∷ []

lost-Offers_late_example :
    Offers glove80 list_tables example_ops list_channel to_packet digests 0
      (λ bytes. true)
      list_channel-ChannelLaws
      (turn_at 21_000 Event.layers_changed)
      (run late_turns (step (turn_at 650 Event.timer_fired) (world (waiting 4))))
      layered_snapshot
      1
unfolding replication turns turn head offer clear_retry may_offer on_event on_timer snapshot_packets
lost-Offers_late_example =
    lost-Offers_late glove80 list_tables example_ops list_channel to_packet digests 0
      (λ bytes. true) list_channel-ChannelLaws waiting_for (turn_at 650 Event.timer_fired)
      (world (waiting 4)) (waiting-ReplicationValid 4 (omega arith)) refl refl (omega arith)
      layered_snapshot (turn_at 21_000 Event.layers_changed) late_turns (omega arith) refl
      (omega arith) (refl, refl, omega arith)

abbrev sent_packets : List (Message example_foreign)
sent_packets =
    snapshot_packets glove80 list_tables 1 layered_snapshot example_batteries
      (snapshot_counts glove80 list_tables layered_snapshot)

abbrev ack_turn : Turn list_tables
ack_turn = record {
  clock = clock_at 10;
  prepared = some layered_snapshot;
  event = Event.received (to_packet (Message.ack 1 7));
}

abbrev attest_turn : Snapshot list_tables → Turn list_tables
attest_turn s' = record {
  clock = clock_at 90;
  prepared = none;
  event = Event.received (to_packet (Message.attestation 0 (digests s')));
}

transfer-converges_example :
    (s' : Snapshot list_tables) × ((first ack_turn (world linked)).queue
      ≡ [] ++ map to_packet sent_packets)
    × ((process_all glove80 list_tables example_ops 99 none
          (map to_packet sent_packets)
          empty_receiver).1
        ≡ Effect.publish 1 s' example_batteries ∷ [])
    × Replicates list_tables glove80 layered_snapshot s'
    × Acked 7
        (digests layered_snapshot)
        (step (attest_turn s') (step ack_turn (world linked))).replication
    × ((step (attest_turn s') (step ack_turn (world linked))).replication.recovery.mismatch_count
        ≡ 0)
unfolding replication snapshot_packets
transfer-converges_example =
    transfer-converges glove80 list_tables list_laws glove80-SizesFit example_ops example_values
      (omega arith) 1 32 list_channel list_channel-ChannelLaws 0 (λ bytes. true) layered_snapshot
      (world linked) (clock_at 10) (clock_at 90) none 99 none empty_receiver
      (record { overlay = some 4 }) 0
      (clear_retry-Ready 10 linked (record { idle = refl; free = refl; up = refl; sound = refl }))
      refl (ground arith) refl layered_snapshot-Sendable (ground arith) (omega arith) refl
