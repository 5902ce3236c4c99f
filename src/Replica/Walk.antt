-- ===== src/Replica/Walk.antt =====
-- `snapshot_counts`, `walk_snapshot` and `try_queue_snapshot`: the sender.
use moergo_rmk.Prelude.{
  ℕ, ◌+◌, ◌%◌, Bool, true, false, ◌||◌, List, [], ◌∷◌, ◌++◌, Option, none, some, length, keep, leb,
  ltb, if◌then◌else◌, map,
}
use moergo_rmk.Wire.Rmk.{Foreign, Sizes}
use moergo_rmk.Wire.Types.{
  OverlayCell, SceneTableCell, RuntimeConditionalSceneCell, BatteryPair, ExtensionLayerState,
}
use moergo_rmk.Wire.Message.{Message}
use moergo_rmk.Wire.Encode.Side.{is_some}
use moergo_rmk.Replica.Tables.{Tables}
use moergo_rmk.Replica.Snapshot.{Snapshot, to_replicated}

module _ {F : Foreign} (z : Sizes) (T : Tables F) where
  -- `cell.slot.index() >= LEDS_PER_HALF`, for each kind of cell.
  abbrev pub right_overlay : Snapshot T → List OverlayCell
  right_overlay s = keep (λ c. leb z.leds_per_half c.slot) (T.overlay_slice s.overlay)

  abbrev pub right_scenes : Snapshot T → List SceneTableCell
  right_scenes s = keep (λ c. leb z.leds_per_half c.slot) (T.scenes_iter s.scenes)

  abbrev pub right_rules : Snapshot T → List (RuntimeConditionalSceneCell F)
  right_rules s = keep (λ c. leb z.leds_per_half c.slot) (T.rules_iter s.rules)

pub record SnapshotCounts : Type 0 where
  pub overlay_cells : ℕ
  pub scene_cells : ℕ
  pub conditional_scene_cells : ℕ

abbrev pub snapshot_counts : {F : Foreign} (z : Sizes) (T : Tables F) → Snapshot T → SnapshotCounts
snapshot_counts z T s = record {
  overlay_cells = length (right_overlay z T s);
  scene_cells = length (right_scenes z T s);
  conditional_scene_cells = length (right_rules z T s);
}

-- `snapshot.extension_layers.and_then(|state| state.overlay)`
abbrev pub overlay_of : Option ExtensionLayerState → Option ℕ
overlay_of none = none
overlay_of (some layers) = layers.overlay

-- The packets of one conditional cell.
module _ {F : Foreign} (generation revision : ℕ) where
  abbrev pub rule_packets : RuntimeConditionalSceneCell F → List (Message F)
  rule_packets c =
      Message.conditional_scene_cell generation revision c
      ∷ (if is_some c.conditions.connection || is_some c.conditions.effects
          then Message.conditional_scene_ext generation revision c.conditions.connection
              c.conditions.effects
            ∷ []
          else [])

  abbrev pub all_rule_packets : List (RuntimeConditionalSceneCell F) → List (Message F)
  all_rule_packets [] = []
  all_rule_packets (c ∷ cs) = rule_packets c ++ all_rule_packets cs

-- The packets of one transaction in wire order. A count is sent `as u8`.
module _ {F : Foreign} (z : Sizes) (T : Tables F) where
  unfoldable pub snapshot_packets : ℕ → Snapshot T → BatteryPair → SnapshotCounts → List (Message F)
  snapshot_packets generation s batteries counts =
      Message.begin generation s.revision (counts.overlay_cells % 256) (counts.scene_cells % 256)
        (T.policy s.scenes) s.sample_time_ms s.settings s.output_mode
      ∷ Message.wake_layers generation s.revision s.wake_layers
      ∷ Message.context generation s.revision (to_replicated s.context) batteries
      ∷ Message.extension generation s.revision s.extension s.extension_params
      ∷ Message.extension_overlay generation s.revision (overlay_of s.extension_layers)
          s.extension_overlay_params
      ∷ (map (Message.cell generation s.revision) (right_overlay z T s)
          ++ (map (Message.scene_cell generation s.revision) (right_scenes z T s)
              ++ (Message.conditional_scene_begin generation s.revision
                    (counts.conditional_scene_cells % 256)
                  ∷ (all_rule_packets generation s.revision (right_rules z T s)
                      ++ (Message.commit generation s.revision (counts.overlay_cells % 256)
                            (counts.scene_cells % 256)
                          ∷ [])))))

-- The walk: each packet goes to `sink`, which answers whether it took it; the first refusal ends it.
unfoldable pub walk {ℓ} : {S : Type ℓ} {M : Type 0} → (S → M → S × Bool) → S → List M → S × Bool
walk sink s [] = (s, true)
walk sink s (m ∷ ms) =
    let (s', taken) = sink s m in let rest = walk sink s' ms in if taken then rest else (s', false)

-- `SPLIT_APP_TX`, the bounded outbound queue.
pub record Channel (D : Type 0) : Type 1 where
  pub Queue : Type 0
  pub queued : Queue → List D
  pub free_capacity : Queue → ℕ
  pub try_send : D → Queue → Option Queue

module _ {F : Foreign} (z : Sizes) (T : Tables F) {D : Type 0} (C : Channel D)
    (encode : Message F → D) where
  -- The sink of the reservation counts the packets.
  abbrev pub count_sink : ℕ → Message F → ℕ × Bool
  count_sink n m = (n + 1, true)

  -- The sink of the transmission; a refusal leaves the queue.
  abbrev pub send_sink : C.Queue → Message F → C.Queue × Bool
  send_sink q m = elim (C.try_send (encode m) q) [ none ↦ (q, false) | some q' ↦ (q', true) ]

  unfoldable pub try_queue_snapshot : ℕ → Snapshot T → BatteryPair → C.Queue → C.Queue × Bool
  try_queue_snapshot generation s batteries q =
      let counts = snapshot_counts z T s in
      let packets = snapshot_packets z T generation s batteries counts in
      if ltb z.leds_per_half counts.overlay_cells
        || ltb z.scene_capacity counts.scene_cells
        || ltb z.scene_capacity counts.conditional_scene_cells
      then (q, false)
      else if ltb (C.free_capacity q) (walk count_sink 0 packets).0
      then (q, false)
      else walk send_sink q packets
