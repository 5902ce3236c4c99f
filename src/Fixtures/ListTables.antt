-- ===== src/Fixtures/ListTables.antt =====
-- The containers of a snapshot as lists, for the tests, and that they behave as documented.
use moergo_rmk.Prelude.{
  ℕ, ◌≡◌, refl, ap, ◌∙◌, false, List, [], ◌∷◌, ◌++◌, Option, none, some, length, any, ltb,
  ltb_of_lt, if◌then◌else◌, map,
}
use moergo_rmk.Prelude.Distinct.{any-none}
use moergo_rmk.Wire.Types.{
  OverlayCell, SceneTableCell, RuntimeConditionalSceneCell, ConditionSet, LayerPolicy,
}
use moergo_rmk.Replica.Tables.{Tables, TableLaws, at_key}
use moergo_rmk.Fixtures.{example_foreign, glove80}

abbrev push_below {ℓ} : {A : Type ℓ} → ℕ → A → List A → Option (List A)
push_below bound x xs = if ltb (length xs) bound then some (xs ++ (x ∷ [])) else none

abbrev set_cell :
    SceneTableCell → LayerPolicy × List SceneTableCell → Option (LayerPolicy × List SceneTableCell)
set_cell c (policy, cells) =
    if any (at_key c.layer c.slot) cells
    then some (policy, map (λ d. if at_key c.layer c.slot d then c else d) cells)
    else if ltb (length cells) glove80.scene_capacity
    then some (policy, cells ++ (c ∷ []))
    else none

abbrev Cell : Type 0
Cell = RuntimeConditionalSceneCell example_foreign

abbrev amend : (ConditionSet example_foreign → ConditionSet example_foreign) → Cell → Cell
amend f c = record c { conditions = f c.conditions }

abbrev amend_last :
    (ConditionSet example_foreign → ConditionSet example_foreign) → List Cell → Option (List Cell)
amend_last f [] = none
amend_last f (c ∷ cs) = elim (amend_last f cs) [
  | none ↦ some (amend f c ∷ [])
  | some ds ↦ some (c ∷ ds)
]

abbrev pub list_tables : Tables example_foreign
list_tables = record {
  Overlay = List OverlayCell;
  overlay_new = [];
  overlay_slice = λ t. t;
  overlay_push = push_below 64;
  Scenes = LayerPolicy × List SceneTableCell;
  scenes_new = (LayerPolicy.effective_only, []);
  set_policy = λ p t. (p, t.1);
  policy = λ t. t.0;
  scenes_iter = λ t. t.1;
  scenes_set = set_cell;
  Rules = List Cell;
  rules_new = [];
  rules_clear = λ t. [];
  rules_iter = λ t. t;
  rules_push = push_below 100;
  amend_last = amend_last;
  default_context = record {
    indicators = record {
      num_lock = false;
      caps_lock = false;
      scroll_lock = false;
      compose = false;
      kana = false;
    };
    powered = false;
    bonded_slots = 0;
    rest = tt;
  };
}

amend_last-append :
    (f : ConditionSet example_foreign → ConditionSet example_foreign) (cells : List Cell) (c : Cell)
    → amend_last f (cells ++ (c ∷ [])) ≡ some (cells ++ (amend f c ∷ []))
amend_last-append f [] c = refl
amend_last-append f (d ∷ ds) c = rw (amend_last-append f ds c)

pub list_laws : TableLaws glove80 list_tables
list_laws = record {
  overlay_slice-new = refl;
  overlay_push_lem = λ c t h. (t ++ (c ∷ []), rw (ltb_of_lt (length t) 64 h), refl);
  scenes_iter-new = refl;
  scenes_iter-set_policy = λ p t. refl;
  policy-set_policy = λ p t. refl;
  scenes_set_lem = λ c t new h. (
    (t.0, t.1 ++ (c ∷ [])),
    rw (any-none (at_key c.layer c.slot) t.1 new, ltb_of_lt (length t.1) 100 h),
    refl,
    λ layer slot. refl,
    λ p. refl,
  );
  rules_iter-new = refl;
  rules_iter-clear = λ t. refl;
  rules_push_lem = λ c t h. (t ++ (c ∷ []), rw (ltb_of_lt (length t) 100 h), refl);
  amend_last_lem = λ f t cells c h.
      (cells ++ (amend f c ∷ []), ap (amend_last f) h ∙ amend_last-append f cells c, refl);
  amend_last-empty = λ f t h. ap (amend_last f) h;
}
