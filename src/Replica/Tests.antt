-- ===== src/Replica/Tests.antt =====
-- A concrete snapshot, and its transfer.
use moergo_rmk.Prelude.{
  ◌⊎◌, some, ℕ, List, false, ◌++◌, ◌≤◌, ◌<◌, Bool, length, ◌≡◌, ◌≢◌, arith, refl, [], ◌∷◌, none,
  some, true, map,
}
use moergo_rmk.Wire.Fits.{carried}
use moergo_rmk.Fixtures.{overlay_cell, example_ops, example_values, example_foreign, glove80}
use moergo_rmk.Fixtures.Queue.{list_channel, list_channel-ChannelLaws}
use moergo_rmk.Fixtures.ListTables.{list_tables, list_laws}
use moergo_rmk.Wire.Types.{LayerPolicy, OutputMode}
use moergo_rmk.Replica.Commit.{Complete, apply_output}
use moergo_rmk.Replica.Invariant.{ReceiverValid, apply-ReceiverValid}
use moergo_rmk.Replica.Stage.{Stage, Receiver, apply}
use moergo_rmk.Replica.Digest.{replica_digests}
use moergo_rmk.Replica.Digest.Sense.{Setting, digests_with, replica_digests-set_to}
use moergo_rmk.Replica.Digest.Durable.{replica_digests-lasting}
use moergo_rmk.Replica.Snapshot.{Snapshot}
use moergo_rmk.Wire.Message.{Message}
use moergo_rmk.Wire.Encode.{packet}
use moergo_rmk.Replica.Sender.{oversized, try_queue_snapshot_lem}
use moergo_rmk.Replica.Walk.{try_queue_snapshot, snapshot_counts, snapshot_packets}
use moergo_rmk.Replica.Stage.{receive, stage_note}
use moergo_rmk.Replica.Replicates.{Replicates}
use moergo_rmk.Replica.Transfer.{receive-snapshot_packets}
use moergo_rmk.Fixtures.Snapshots.{
  example_snapshot, example_batteries, empty_receiver, glove80-SizesFit, example_snapshot-Sendable,
  layered_snapshot, layered_snapshot-Sendable,
}

receive-snapshot_packets_example :
    (s' : Snapshot list_tables) × (receive glove80 list_tables
        (map carried (
          snapshot_packets glove80 list_tables 3 example_snapshot example_batteries
            (snapshot_counts glove80 list_tables example_snapshot)))
        empty_receiver
      ≡ (record { stage = none; debug = stage_note 0 0 }, (3, s', example_batteries) ∷ []))
    × Replicates list_tables glove80 example_snapshot s'
receive-snapshot_packets_example =
    receive-snapshot_packets glove80 list_tables list_laws glove80-SizesFit 3 example_snapshot
      example_batteries empty_receiver example_snapshot-Sendable

abbrev to_packet : Message example_foreign → List ℕ
to_packet = packet glove80 example_ops example_values

abbrev example_packets : List (Message example_foreign)
example_packets =
    snapshot_packets glove80 list_tables 3 example_snapshot example_batteries
      (snapshot_counts glove80 list_tables example_snapshot)

abbrev queue_example : List (List ℕ) → List (List ℕ) × Bool
queue_example q =
    try_queue_snapshot glove80 list_tables list_channel to_packet 3 example_snapshot
      example_batteries q

try_queue_snapshot_lem_example :
    (oversized glove80 list_tables list_channel to_packet
          (snapshot_counts glove80 list_tables example_snapshot)
        ≡ false
      → length example_packets ≤ 128
      → (q' : List (List ℕ)) × (queue_example [] ≡ (q', true))
        × (q' ≡ [] ++ map to_packet example_packets))
    × (oversized glove80 list_tables list_channel to_packet
            (snapshot_counts glove80 list_tables example_snapshot)
          ≡ true
        → queue_example [] ≡ ([], false))
    × (128 < length example_packets → queue_example [] ≡ ([], false))
try_queue_snapshot_lem_example =
    try_queue_snapshot_lem glove80 list_tables list_channel to_packet list_channel-ChannelLaws 3
      example_snapshot example_batteries []

abbrev begin_message : Message example_foreign
begin_message =
    Message.begin 3 7 1 0 LayerPolicy.effective_only 1000 example_snapshot.settings
      OutputMode.always_on

abbrev begun : Receiver list_tables
begun = (apply glove80 list_tables begin_message empty_receiver).0

apply-ReceiverValid_example :
    ReceiverValid glove80 list_tables
      (apply glove80 list_tables (Message.cell 3 7 (overlay_cell 41)) begun).0
apply-ReceiverValid_example =
    apply-ReceiverValid glove80 list_tables list_laws glove80-SizesFit
      (Message.cell 3 7 (overlay_cell 41)) begun
      (apply-ReceiverValid glove80 list_tables list_laws glove80-SizesFit begin_message
        empty_receiver tt)

abbrev commit_message : Message example_foreign
commit_message = Message.commit 3 7 1 0

-- A commit without its packets.
apply_output_example :
    ((apply glove80 list_tables commit_message begun).1 ≡ none)
    ⊎ ((st : Stage list_tables) × (g : ℕ) × (r : ℕ) × (n : ℕ) × (p : ℕ) × (commit_message
          ≡ Message.commit g r n p)
        × (begun.stage ≡ some st)
        × ((apply glove80 list_tables commit_message begun).1
            ≡ some (st.generation, st.snapshot, st.batteries))
        × Complete glove80 list_tables st g r n p)
apply_output_example = apply_output glove80 list_tables commit_message begun

-- What the transfer of `layered_snapshot` leaves.
abbrev layered_replica : Snapshot list_tables
layered_replica =
    (receive-snapshot_packets glove80 list_tables list_laws glove80-SizesFit 3 layered_snapshot
      example_batteries empty_receiver layered_snapshot-Sendable).0

-- It some time later.
abbrev aged_replica : Snapshot list_tables
aged_replica = record layered_replica { sample_time_ms = 90000; wake_layers = 0 }

replica_digests-lasting_example :
    replica_digests glove80 list_tables example_values 1 32 aged_replica
    ≡ replica_digests glove80 list_tables example_values 1 32 layered_snapshot
replica_digests-lasting_example =
    replica_digests-lasting glove80 list_tables example_values 1 32 layered_snapshot layered_replica
      aged_replica (record { overlay = some 4 })
      (receive-snapshot_packets glove80 list_tables list_laws glove80-SizesFit 3 layered_snapshot
        example_batteries empty_receiver layered_snapshot-Sendable).2
      refl
      (record {
        same_revision = refl;
        same_settings = refl;
        same_output_mode = refl;
        same_policy = refl;
        same_extension = refl;
        same_extension_layers = refl;
        same_extension_params = refl;
        same_overlay_params = refl;
        same_overlay_count = refl;
        same_overlay = λ slot right. refl;
        same_scenes_count = refl;
        same_scenes = λ layer slot right. refl;
        same_rules = refl;
      })

-- Two hues.
replica_digests-set_to_example :
    digests_with glove80 list_tables example_values 1 32 layered_snapshot Setting.hue 10
    ≢ digests_with glove80 list_tables example_values 1 32 layered_snapshot Setting.hue 11
replica_digests-set_to_example =
    replica_digests-set_to glove80 list_tables example_values 1 32 layered_snapshot
      (record {
        brightness_byte = omega arith;
        hue_byte = omega arith;
        saturation_byte = omega arith;
        value_byte = omega arith;
        speed_byte = omega arith;
        extension_bytes = (omega arith, (omega arith, (omega arith, (omega arith, tt))));
        layers_bytes = (omega arith, (omega arith, tt));
        params_bytes = tt;
        overlay_params_bytes = tt;
      })
      Setting.hue 10 11 (omega arith) (omega arith) (λ h. omega (arith, h))
