-- ===== src/Replica/Tables.antt =====
-- The containers of the `rmk` crate that a snapshot holds, and what replication relies on of them.
use moergo_rmk.Prelude.{
  ℕ, ◌<◌, ◌≡◌, Bool, ◌&&◌, List, [], ◌∷◌, ◌++◌, Option, none, some, length, find, keep, ◌==◌,
}
use moergo_rmk.Wire.Rmk.{Foreign, Sizes}
use moergo_rmk.Wire.Types.{
  OverlayCell, SceneTableCell, RuntimeConditionalSceneCell, ConditionSet, LayerPolicy,
  LightingContext,
}

-- `OverlayBatch`, `SceneTable`, `RuntimeConditionalSceneTable` and `LightingContext::default`.
-- `amend_last` is a write through `last_conditions_mut`; `none` is an empty table.
pub record Tables (F : Foreign) : Type 1 where
  pub Overlay : Type 0
  pub overlay_new : Overlay
  pub overlay_slice : Overlay → List OverlayCell
  pub overlay_push : OverlayCell → Overlay → Option Overlay
  pub Scenes : Type 0
  pub scenes_new : Scenes
  pub set_policy : LayerPolicy → Scenes → Scenes
  pub policy : Scenes → LayerPolicy
  pub scenes_iter : Scenes → List SceneTableCell
  pub scenes_set : SceneTableCell → Scenes → Option Scenes
  pub Rules : Type 0
  pub rules_new : Rules
  pub rules_clear : Rules → Rules
  pub rules_iter : Rules → List (RuntimeConditionalSceneCell F)
  pub rules_push : RuntimeConditionalSceneCell F → Rules → Option Rules
  pub amend_last : (ConditionSet F → ConditionSet F) → Rules → Option Rules
  pub default_context : LightingContext F

-- `existing.layer == layer && existing.slot == slot`
abbrev pub at_key : ℕ → ℕ → SceneTableCell → Bool
at_key layer slot c = c.layer == layer && c.slot == slot

-- The documented behaviour of the containers: a batch and a rule table keep the order of pushes up
-- to their capacity; a scene table is keyed by layer and slot, iterates over each cell once in an
-- order of its own, and takes a cell under a new key up to its capacity.
pub record TableLaws {F : Foreign} (z : Sizes) (T : Tables F) : Type 0 where
  pub overlay_slice-new : T.overlay_slice T.overlay_new ≡ []
  pub overlay_push_lem :
      (c : OverlayCell) (t : T.Overlay)
      → length (T.overlay_slice t) < z.overlay_capacity
      → (t' : T.Overlay) × (T.overlay_push c t ≡ some t')
        × (T.overlay_slice t' ≡ T.overlay_slice t ++ (c ∷ []))
  pub scenes_iter-new : T.scenes_iter T.scenes_new ≡ []
  pub scenes_iter-set_policy :
      (p : LayerPolicy) (t : T.Scenes) → T.scenes_iter (T.set_policy p t) ≡ T.scenes_iter t
  pub policy-set_policy : (p : LayerPolicy) (t : T.Scenes) → T.policy (T.set_policy p t) ≡ p
  pub scenes_set_lem :
      (c : SceneTableCell) (t : T.Scenes)
      → find (at_key c.layer c.slot) (T.scenes_iter t) ≡ none
      → length (T.scenes_iter t) < z.scene_capacity
      → (t' : T.Scenes) × (T.scenes_set c t ≡ some t')
        × (T.policy t' ≡ T.policy t)
        × ((layer slot : ℕ)
            → find (at_key layer slot) (T.scenes_iter t')
              ≡ find (at_key layer slot) (T.scenes_iter t ++ (c ∷ [])))
        × ((p : SceneTableCell → Bool)
            → length (keep p (T.scenes_iter t')) ≡ length (keep p (T.scenes_iter t ++ (c ∷ []))))
  pub rules_iter-new : T.rules_iter T.rules_new ≡ []
  pub rules_iter-clear : (t : T.Rules) → T.rules_iter (T.rules_clear t) ≡ []
  pub rules_push_lem :
      (c : RuntimeConditionalSceneCell F) (t : T.Rules)
      → length (T.rules_iter t) < z.scene_capacity
      → (t' : T.Rules) × (T.rules_push c t ≡ some t')
        × (T.rules_iter t' ≡ T.rules_iter t ++ (c ∷ []))
  pub amend_last_lem :
      (f : ConditionSet F → ConditionSet F) (t : T.Rules)
      (cells : List (RuntimeConditionalSceneCell F)) (c : RuntimeConditionalSceneCell F)
      → T.rules_iter t ≡ cells ++ (c ∷ [])
      → (t' : T.Rules) × (T.amend_last f t ≡ some t')
        × (T.rules_iter t' ≡ cells ++ (record c { conditions = f c.conditions } ∷ []))
  pub amend_last-empty :
      (f : ConditionSet F → ConditionSet F) (t : T.Rules)
      → T.rules_iter t ≡ []
      → T.amend_last f t ≡ none
