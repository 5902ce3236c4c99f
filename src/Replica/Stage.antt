-- ===== src/Replica/Stage.antt =====
-- `Stage`, `SnapshotStage` and the `STAGE_DEBUG` counters: the receiver.
use moergo_rmk.Prelude.{
  ℕ, ◌+◌, ◌-◌, ◌*◌, ◌^◌, Bool, true, false, not, ◌&&◌, ◌||◌, List, [], ◌∷◌, Option, none, some,
  length, any, leb, ltb, ◌==◌, if◌then◌else◌, bit_and, bit_or,
}
use moergo_rmk.Prelude.Bits.{shr}
use moergo_rmk.Wire.Rmk.{Foreign, Sizes}
use moergo_rmk.Wire.Types.{
  OverlayCell, SceneTableCell, RuntimeConditionalSceneCell, BatteryPair, BatteryStatus,
  ConnectionCondition, EffectsCondition, ExtensionState, ExtensionReplicaParams, ConditionSet,
  StandardMutableState, OutputMode, LayerPolicy, ReplicatedContext,
}
use moergo_rmk.Wire.Message.{Message}
use moergo_rmk.Replica.Tables.{Tables, at_key}
use moergo_rmk.Replica.Snapshot.{Snapshot, apply_to}

abbrev pub no_batteries : BatteryPair
no_batteries = record { left = BatteryStatus.unavailable; right = BatteryStatus.unavailable }

-- `stage_note`: the byte at `shift` of the counters is bumped, modulo 256.
abbrev pub stage_note : ℕ → ℕ → ℕ
stage_note shift v =
    bit_or (bit_and v (2 ^ 32 - 1 - 0xff * 2 ^ shift))
      (bit_and (bit_and (shr v shift) 0xff + 1) 0xff * 2 ^ shift)

-- `stage_abort`: the site in the high byte, the aborts below it.
abbrev pub stage_abort : ℕ → ℕ → ℕ
stage_abort site v =
    bit_or (bit_or (bit_and v 0xffff) (site * 2 ^ 24))
      (bit_and (bit_and (shr v 16) 0xff + 1) 0xff * 2 ^ 16)

module _ {F : Foreign} (T : Tables F) where
  pub record Stage : Type 0 where
    pub generation : ℕ
    pub snapshot : Snapshot T
    pub expected_overlay_cells : ℕ
    pub expected_scene_cells : ℕ
    pub expected_conditional_scene_cells : Option ℕ
    pub wake_layers_received : Bool
    pub context_received : Bool
    pub extension_received : Bool
    pub extension_overlay_received : Bool
    pub batteries : BatteryPair

  -- `SnapshotStage` beside the static `STAGE_DEBUG`.
  pub record Receiver : Type 0 where
    pub stage : Option Stage
    pub debug : ℕ

  -- What a commit hands out.
  abbrev pub Output : Type 0
  Output = Option (ℕ × Snapshot T × BatteryPair)

module _ {F : Foreign} (z : Sizes) (T : Tables F) where
  -- `stage.generation == generation && stage.snapshot.revision == revision`
  abbrev pub matches : ℕ → ℕ → Stage T → Bool
  matches generation revision st = st.generation == generation && st.snapshot.revision == revision

  abbrev pub aborted : ℕ → Receiver T → Receiver T
  aborted site rx = record { stage = none; debug = stage_abort site rx.debug }

  abbrev pub staged : Stage T → Receiver T → Receiver T
  staged st rx = record { stage = some st; debug = rx.debug }

  -- An arm that needs a stage: without one it does nothing.
  abbrev pub with_stage : Receiver T → (Stage T → Receiver T) → Receiver T
  with_stage rx f = elim rx.stage [ none ↦ rx | some st ↦ f st ]

  unfoldable pub on_begin :
      ℕ → ℕ → ℕ → ℕ → LayerPolicy → ℕ → StandardMutableState → OutputMode → Receiver T → Receiver T
  on_begin generation revision cell_count scene_count scene_policy sample_time_ms settings mode rx =
      if leb cell_count z.leds_per_half && leb scene_count z.scene_capacity
      then record {
        stage = some (record {
          generation = generation;
          snapshot = record {
            revision = revision;
            settings = settings;
            output_mode = mode;
            wake_layers = 0;
            overlay = T.overlay_new;
            scenes = T.set_policy scene_policy T.scenes_new;
            rules = T.rules_new;
            context = T.default_context;
            sample_time_ms = sample_time_ms;
            extension = none;
            extension_layers = none;
            extension_params = none;
            extension_overlay_params = none;
          };
          expected_overlay_cells = cell_count;
          expected_scene_cells = scene_count;
          expected_conditional_scene_cells = none;
          wake_layers_received = false;
          context_received = false;
          extension_received = false;
          extension_overlay_received = false;
          batteries = no_batteries;
        });
        debug = stage_note 0 rx.debug;
      }
      else record rx { debug = stage_note 8 rx.debug }

  unfoldable pub on_wake_layers : ℕ → ℕ → ℕ → Receiver T → Receiver T
  on_wake_layers generation revision wake_layers rx = with_stage rx λ st.
      if not (matches generation revision st)
      then aborted 1 rx
      else staged
          (record st {
            snapshot = record (st.snapshot) { wake_layers = wake_layers };
            wake_layers_received = true;
          })
          rx

  unfoldable pub on_context : ℕ → ℕ → ReplicatedContext → BatteryPair → Receiver T → Receiver T
  on_context generation revision context batteries rx = with_stage rx λ st.
      if not (matches generation revision st)
      then aborted 2 rx
      else staged
          (record st {
            snapshot = record (st.snapshot) { context = apply_to context st.snapshot.context };
            batteries = batteries;
            context_received = true;
          })
          rx

  unfoldable pub on_extension :
      ℕ → ℕ → Option ExtensionState → Option ExtensionReplicaParams → Receiver T → Receiver T
  on_extension generation revision extension params rx = with_stage rx λ st.
      if not (matches generation revision st)
      then aborted 3 rx
      else staged
          (record st {
            snapshot = record (st.snapshot) { extension = extension; extension_params = params };
            extension_received = true;
          })
          rx

  unfoldable pub on_extension_overlay :
      ℕ → ℕ → Option ℕ → Option ExtensionReplicaParams → Receiver T → Receiver T
  on_extension_overlay generation revision overlay params rx = with_stage rx λ st.
      if not (matches generation revision st)
      then aborted 4 rx
      else staged
          (record st {
            snapshot = record (st.snapshot) {
              extension_layers = some (record { overlay = overlay });
              extension_overlay_params = params;
            };
            extension_overlay_received = true;
          })
          rx

  -- The push is reached only behind the tests before it.
  unfoldable pub on_cell : ℕ → ℕ → OverlayCell → Receiver T → Receiver T
  on_cell generation revision cell rx = with_stage rx λ st.
      let cells = T.overlay_slice st.snapshot.overlay in
      if not (matches generation revision st)
        || leb st.expected_overlay_cells (length cells)
        || any (λ c. c.slot == cell.slot) cells
      then aborted 5 rx
      else elim (T.overlay_push cell st.snapshot.overlay) [
        | none ↦ aborted 5 rx
        | some t ↦ staged (record st { snapshot = record (st.snapshot) { overlay = t } }) rx
      ]

  unfoldable pub on_scene_cell : ℕ → ℕ → SceneTableCell → Receiver T → Receiver T
  on_scene_cell generation revision cell rx = with_stage rx λ st.
      let cells = T.scenes_iter st.snapshot.scenes in
      if not (matches generation revision st)
        || leb st.expected_scene_cells (length cells)
        || any (at_key cell.layer cell.slot) cells
      then aborted 6 rx
      else elim (T.scenes_set cell st.snapshot.scenes) [
        | none ↦ aborted 6 rx
        | some t ↦ staged (record st { snapshot = record (st.snapshot) { scenes = t } }) rx
      ]

  unfoldable pub on_conditional_scene_begin : ℕ → ℕ → ℕ → Receiver T → Receiver T
  on_conditional_scene_begin generation revision cell_count rx = with_stage rx λ st.
      if not (matches generation revision st) || ltb z.scene_capacity cell_count
      then aborted 7 rx
      else staged
          (record st {
            snapshot = record (st.snapshot) { rules = T.rules_clear st.snapshot.rules };
            expected_conditional_scene_cells = some cell_count;
          })
          rx

  -- `expected.is_none_or(|expected| len >= expected)`
  abbrev pub is_full : Option ℕ → ℕ → Bool
  is_full none len = true
  is_full (some expected) len = leb expected len

  unfoldable pub on_conditional_scene_cell :
      ℕ → ℕ → RuntimeConditionalSceneCell F → Receiver T → Receiver T
  on_conditional_scene_cell generation revision cell rx = with_stage rx λ st.
      if not (matches generation revision st)
        || is_full st.expected_conditional_scene_cells (length (T.rules_iter st.snapshot.rules))
      then aborted 8 rx
      else elim (T.rules_push cell st.snapshot.rules) [
        | none ↦ aborted 8 rx
        | some t ↦ staged (record st { snapshot = record (st.snapshot) { rules = t } }) rx
      ]

  abbrev pub with_ext :
      Option ConnectionCondition → Option EffectsCondition → ConditionSet F → ConditionSet F
  with_ext connection effects c = record c { connection = connection; effects = effects }

  unfoldable pub on_conditional_scene_ext :
      ℕ → ℕ → Option ConnectionCondition → Option EffectsCondition → Receiver T → Receiver T
  on_conditional_scene_ext generation revision connection effects rx = with_stage rx λ st.
      if not (matches generation revision st)
      then aborted 9 rx
      else elim (T.amend_last (with_ext connection effects) st.snapshot.rules) [
        | none ↦ aborted 9 rx
        | some t ↦ staged (record st { snapshot = record (st.snapshot) { rules = t } }) rx
      ]

  -- `expected.is_none_or(|expected| len == expected)`
  abbrev pub is_complete : Option ℕ → ℕ → Bool
  is_complete none len = true
  is_complete (some expected) len = len == expected

  -- The test of a commit.
  abbrev pub commit_valid : ℕ → ℕ → ℕ → ℕ → Stage T → Bool
  commit_valid generation revision cell_count scene_count st =
      matches generation revision st
      && st.wake_layers_received
      && st.context_received
      && st.extension_received
      && st.extension_overlay_received
      && st.expected_overlay_cells == cell_count
      && st.expected_scene_cells == scene_count
      && length (T.overlay_slice st.snapshot.overlay) == st.expected_overlay_cells
      && length (T.scenes_iter st.snapshot.scenes) == st.expected_scene_cells
      && is_complete st.expected_conditional_scene_cells (length (T.rules_iter st.snapshot.rules))

  unfoldable pub on_commit : ℕ → ℕ → ℕ → ℕ → Receiver T → Receiver T × Output T
  on_commit generation revision cell_count scene_count rx = elim rx.stage [
    | none ↦ (aborted 12 rx, none)
    | some st ↦
        if commit_valid generation revision cell_count scene_count st
        then (
          record { stage = none; debug = rx.debug },
          some (st.generation, st.snapshot, st.batteries),
        )
        else (aborted 12 rx, none)
  ]

  -- `SnapshotStage::apply`
  unfoldable pub apply : Message F → Receiver T → Receiver T × Output T
  apply (Message.begin g r n s p t m o) rx = (on_begin g r n s p t m o rx, none)
  apply (Message.wake_layers g r w) rx = (on_wake_layers g r w rx, none)
  apply (Message.context g r c b) rx = (on_context g r c b rx, none)
  apply (Message.extension g r e p) rx = (on_extension g r e p rx, none)
  apply (Message.extension_overlay g r o p) rx = (on_extension_overlay g r o p rx, none)
  apply (Message.cell g r c) rx = (on_cell g r c rx, none)
  apply (Message.scene_cell g r c) rx = (on_scene_cell g r c rx, none)
  apply (Message.conditional_scene_begin g r n) rx = (on_conditional_scene_begin g r n rx, none)
  apply (Message.conditional_scene_cell g r c) rx = (on_conditional_scene_cell g r c rx, none)
  apply (Message.conditional_scene_ext g r c e) rx = (on_conditional_scene_ext g r c e rx, none)
  apply (Message.commit g r n s) rx = on_commit g r n s rx
  apply _ rx = (rx, none)

  -- `SnapshotStage::reset`
  unfoldable pub reset : Receiver T → Receiver T
  reset rx = record rx { stage = none }

  abbrev pub collect :
      Output T → List (ℕ × Snapshot T × BatteryPair) → List (ℕ × Snapshot T × BatteryPair)
  collect none outs = outs
  collect (some out) outs = out ∷ outs

  -- A sequence of messages, with the snapshots that it hands out.
  unfoldable pub receive :
      List (Message F) → Receiver T → Receiver T × List (ℕ × Snapshot T × BatteryPair)
  receive [] rx = (rx, [])
  receive (m ∷ ms) rx =
      let (rx', out) = apply m rx in let (last, outs) = receive ms rx' in (last, collect out outs)
