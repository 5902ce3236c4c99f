-- ===== src/Replica/Replicates.antt =====
-- What a replica keeps of the central's state: the right half of its tables, and every setting.
use moergo_rmk.Prelude.{ℕ, ◌≡◌, Bool, List, some, length, find, keep, map}
use moergo_rmk.Wire.Rmk.{Foreign, Sizes}
use moergo_rmk.Wire.Types.{RuntimeConditionalSceneCell, SceneTableCell}
use moergo_rmk.Wire.Fits.{cell_part}
use moergo_rmk.Replica.Tables.{Tables, at_key}
use moergo_rmk.Replica.Snapshot.{Snapshot, to_replicated, apply_to}
use moergo_rmk.Replica.Walk.{right_overlay, right_scenes, right_rules, overlay_of}

-- A conditional cell after its one or two packets: the predicates `layers`, `indicators`,
-- `maintenance` and `split_transport` are lost.
abbrev pub replicated :
    {F : Foreign} → RuntimeConditionalSceneCell F → RuntimeConditionalSceneCell F
replicated c = record (cell_part c) {
  conditions = record ((cell_part c).conditions) {
    connection = c.conditions.connection;
    effects = c.conditions.effects;
  };
}

module _ {F : Foreign} (T : Tables F) where
  -- A scene table that holds the cells of a list, whatever order it iterates in.
  abbrev pub Holds : T.Scenes → List SceneTableCell → Type 0
  Holds t cells =
      ((layer slot : ℕ)
        → find (at_key layer slot) (T.scenes_iter t) ≡ find (at_key layer slot) cells)
      × ((p : SceneTableCell → Bool) → length (keep p (T.scenes_iter t)) ≡ length (keep p cells))

  -- `s'` replicates `s`.
  abbrev pub Replicates : Sizes → Snapshot T → Snapshot T → Type 0
  Replicates z s s' =
      (s'.revision ≡ s.revision)
      × (s'.settings ≡ s.settings)
      × (s'.output_mode ≡ s.output_mode)
      × (s'.wake_layers ≡ s.wake_layers)
      × (s'.sample_time_ms ≡ s.sample_time_ms)
      × (s'.context ≡ apply_to (to_replicated s.context) T.default_context)
      × (s'.extension ≡ s.extension)
      × (s'.extension_params ≡ s.extension_params)
      × (s'.extension_layers ≡ some (record { overlay = overlay_of s.extension_layers }))
      × (s'.extension_overlay_params ≡ s.extension_overlay_params)
      × (T.overlay_slice s'.overlay ≡ right_overlay z T s)
      × (T.policy s'.scenes ≡ T.policy s.scenes)
      × Holds s'.scenes (right_scenes z T s)
      × (T.rules_iter s'.rules ≡ map replicated (right_rules z T s))
