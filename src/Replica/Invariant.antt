-- ===== src/Replica/Invariant.antt =====
-- What holds of a staged snapshot between any two messages.
use moergo_rmk.Prelude.{
  ℕ, ◌+◌, ◌≤◌, ◌<◌, ◌≡◌, refl, ap, sym, ◌∙◌, subst, true, false, not, ◌&&◌, ◌||◌, List, [], ◌∷◌,
  ◌++◌, Option, none, some, length, any, leb, ltb, arith, length-append, Bool-cases, Option-cases,
  some-injective, inl, inr, ◌==◌, ◌⊎◌,
}
use moergo_rmk.Prelude.Distinct.{distinct, distinct-append, find-none, keep-all}
use moergo_rmk.Wire.Rmk.{Foreign, Sizes}
use moergo_rmk.Wire.Types.{
  ConditionSet, OverlayCell, SceneTableCell, RuntimeConditionalSceneCell, ConnectionCondition,
  EffectsCondition, LayerPolicy, StandardMutableState, OutputMode,
}
use moergo_rmk.Wire.Message.{Message}
use moergo_rmk.Replica.Tables.{Tables, TableLaws, at_key}
use moergo_rmk.Replica.Stage.{
  commit_valid, Stage, Receiver, matches, is_full, with_ext, apply, on_begin, on_wake_layers,
  on_context, on_extension, on_extension_overlay, on_cell, on_scene_cell,
  on_conditional_scene_begin, on_conditional_scene_cell, on_conditional_scene_ext, on_commit,
}
use moergo_rmk.Replica.Transfer.{SizesFit, same_slot}

module _ {F : Foreign} (z : Sizes) (T : Tables F) where
  -- The conditional cells: none before they are announced, and then at most as many.
  abbrev pub RulesStaged : Option ℕ → ℕ → Type 0
  RulesStaged none n = n ≡ 0
  RulesStaged (some expected) n = (n ≤ expected) × (expected ≤ z.scene_capacity)

  abbrev pub StageValid : Stage T → Type 0
  StageValid st =
      (length (T.overlay_slice st.snapshot.overlay) ≤ st.expected_overlay_cells)
      × (st.expected_overlay_cells ≤ z.leds_per_half)
      × (distinct same_slot (T.overlay_slice st.snapshot.overlay) ≡ true)
      × (length (T.scenes_iter st.snapshot.scenes) ≤ st.expected_scene_cells)
      × (st.expected_scene_cells ≤ z.scene_capacity)
      × RulesStaged st.expected_conditional_scene_cells (length (T.rules_iter st.snapshot.rules))

  abbrev pub ReceiverValid : Receiver T → Type 0
  ReceiverValid rx = elim rx.stage [ none ↦ Unit {0} | some st ↦ StageValid st ]

module _ {F : Foreign} (z : Sizes) (T : Tables F) (laws : TableLaws z T) (fit : SizesFit z T) where
  begin-ReceiverValid :
      (g r n p : ℕ) (q : LayerPolicy) (t : ℕ) (m : StandardMutableState) (o : OutputMode)
      (rx : Receiver T)
      → ReceiverValid z T rx
      → ReceiverValid z T (on_begin z T g r n p q t m o rx)
  unfolding on_begin
  begin-ReceiverValid g r n p q t m o rx valid =
      elim (Bool-cases (leb n z.leds_per_half && leb p z.scene_capacity)) [
        | inl h ↦ rw h (
          omega (arith, ap length laws.overlay_slice-new),
          ground arith,
          ap (distinct same_slot) laws.overlay_slice-new,
          omega (
            arith,
            ap length (laws.scenes_iter-set_policy q T.scenes_new ∙ laws.scenes_iter-new),
          ),
          ground arith,
          ap length laws.rules_iter-new,
        )
        | inr h ↦ rw h valid
      ]

  cell-ReceiverValid :
      (g r : ℕ) (c : OverlayCell) (st : Stage T) (d : ℕ)
      → StageValid z T st
      → ReceiverValid z T (on_cell z T g r c (record { stage = some st; debug = d }))
  unfolding on_cell
  cell-ReceiverValid g r c st d (len, exp, dist, scenes, cap, rules) =
      let cells = T.overlay_slice st.snapshot.overlay in
      elim (Bool-cases (
        not (matches z T g r st)
        || leb st.expected_overlay_cells (length cells)
        || any (λ e. e.slot == c.slot) cells)) [
          | inl h ↦ rw h tt
          | inr h ↦
              let room : length cells < st.expected_overlay_cells = ground arith in
              let (u, push, sliced) =
                laws.overlay_push_lem c st.snapshot.overlay
                  (omega (arith, room, exp, fit.half_fits)) in
              rw (h, push)
                (
                  omega (arith, room, ap length sliced, length-append cells (c ∷ [])),
                  exp,
                  ap (distinct same_slot) sliced
                      ∙ distinct-append same_slot cells c dist (ground arith),
                  scenes,
                  cap,
                  rules,
                )
        ]

  scene_cell-ReceiverValid :
      (g r : ℕ) (c : SceneTableCell) (st : Stage T) (d : ℕ)
      → StageValid z T st
      → ReceiverValid z T (on_scene_cell z T g r c (record { stage = some st; debug = d }))
  unfolding on_scene_cell
  scene_cell-ReceiverValid g r c st d (len, exp, dist, scenes, cap, rules) =
      let cells = T.scenes_iter st.snapshot.scenes in
      elim (Bool-cases (
        not (matches z T g r st)
        || leb st.expected_scene_cells (length cells)
        || any (at_key c.layer c.slot) cells)) [
          | inl h ↦ rw h tt
          | inr h ↦
              let room : length cells < st.expected_scene_cells = ground arith in
              let (u, set, policy, finds, counts) =
                laws.scenes_set_lem c st.snapshot.scenes
                  (find-none (at_key c.layer c.slot) cells (ground arith))
                  (omega (arith, room, cap)) in
              let longer : length (T.scenes_iter u) ≡ length cells + 1 =
                sym (ap length (keep-all (T.scenes_iter u)))
                ∙ counts (λ e. true)
                ∙ ap length (keep-all (cells ++ (c ∷ [])))
                ∙ length-append cells (c ∷ []) in
              rw (h, set) (len, exp, dist, omega (arith, room, longer), cap, rules)
        ]

  rules_room :
      (o : Option ℕ) (n : ℕ)
      → RulesStaged z T o n
      → is_full z T o n ≡ false
      → (n < z.scene_capacity) × RulesStaged z T o (n + 1)
  rules_room none n valid h = ground arith
  rules_room (some expected) n valid h = ground arith

  conditional_scene_begin-ReceiverValid :
      (g r n : ℕ) (st : Stage T) (d : ℕ)
      → StageValid z T st
      → ReceiverValid z T
          (on_conditional_scene_begin z T g r n (record { stage = some st; debug = d }))
  unfolding on_conditional_scene_begin
  conditional_scene_begin-ReceiverValid g r n st d (len, exp, dist, scenes, cap, rules) =
      elim (Bool-cases (not (matches z T g r st) || ltb z.scene_capacity n)) [
        | inl h ↦ rw h tt
        | inr h ↦
            let cleared = ap length (laws.rules_iter-clear st.snapshot.rules) in
            rw h (len, exp, dist, scenes, cap, (omega (arith, cleared), ground arith))
      ]

  conditional_scene_cell-ReceiverValid :
      (g r : ℕ) (c : RuntimeConditionalSceneCell F) (st : Stage T) (d : ℕ)
      → StageValid z T st
      → ReceiverValid z T
          (on_conditional_scene_cell z T g r c (record { stage = some st; debug = d }))
  unfolding on_conditional_scene_cell
  conditional_scene_cell-ReceiverValid g r c st d (len, exp, dist, scenes, cap, rules) =
      let cells = T.rules_iter st.snapshot.rules in
      elim (Bool-cases (
        not (matches z T g r st)
        || is_full z T st.expected_conditional_scene_cells (length cells))) [
          | inl h ↦ rw h tt
          | inr h ↦
              let (room, longer) =
                rules_room st.expected_conditional_scene_cells (length cells) rules
                  (ground arith) in
              let (u, push, pushed) = laws.rules_push_lem c st.snapshot.rules room in
              let count = ap length pushed ∙ length-append cells (c ∷ []) in
              rw (h, push)
                (
                  len,
                  exp,
                  dist,
                  scenes,
                  cap,
                  subst (RulesStaged z T st.expected_conditional_scene_cells) (sym count) longer,
                )
        ]

  last-or-empty :
      (cells : List (RuntimeConditionalSceneCell F))
      → (cells ≡ [])
        ⊎ ((before : List (RuntimeConditionalSceneCell F)) × (c : RuntimeConditionalSceneCell F)
            × (cells ≡ before ++ (c ∷ [])))
  last-or-empty [] = inl refl
  last-or-empty (c ∷ cs) = elim (last-or-empty cs) [
    | inl h ↦ inr ([], c, ap (◌∷◌ c) h)
    | inr (before, e, h) ↦ inr (c ∷ before, e, ap (◌∷◌ c) h)
  ]

  length-amend_last :
      (f : ConditionSet F → ConditionSet F) (t u : T.Rules)
      → T.amend_last f t ≡ some u
      → length (T.rules_iter u) ≡ length (T.rules_iter t)
  length-amend_last f t u h = elim (last-or-empty (T.rules_iter t)) [
    | inl empty ↦ absurd (ground (arith, h, laws.amend_last-empty f t empty))
    | inr (before, c, here) ↦
        let (v, amend, amended) = laws.amend_last_lem f t before c here in
        let same : v ≡ u = some-injective v u (sym amend ∙ h) in
        omega (
          arith,
          ap (λ x. length (T.rules_iter x)) same,
          ap length amended,
          ap length here,
          length-append before (c ∷ []),
          length-append before (record c { conditions = f c.conditions } ∷ []),
        )
  ]

  conditional_scene_ext-ReceiverValid :
      (g r : ℕ) (k : Option ConnectionCondition) (e : Option EffectsCondition) (st : Stage T)
      (d : ℕ)
      → StageValid z T st
      → ReceiverValid z T
          (on_conditional_scene_ext z T g r k e (record { stage = some st; debug = d }))
  unfolding on_conditional_scene_ext
  conditional_scene_ext-ReceiverValid g r k e st d (len, exp, dist, scenes, cap, rules) =
      elim (Bool-cases (matches z T g r st)) [
        | inr h ↦ rw h tt
        | inl h ↦ elim (Option-cases (T.amend_last (with_ext z T k e) st.snapshot.rules)) [
          | inl none_left ↦ rw (h, none_left) tt
          | inr (u, amend) ↦
              rw (h, amend)
                (
                  len,
                  exp,
                  dist,
                  scenes,
                  cap,
                  subst (RulesStaged z T st.expected_conditional_scene_cells)
                      (sym (length-amend_last (with_ext z T k e) st.snapshot.rules u amend)) rules,
                )
        ]
      ]

  apply_valid :
      (m : Message F) (o : Option (Stage T)) (d : ℕ)
      → ReceiverValid z T (record { stage = o; debug = d })
      → ReceiverValid z T (apply z T m (record { stage = o; debug = d })).0
  unfolding apply on_wake_layers on_context on_extension on_extension_overlay on_cell on_scene_cell
      on_conditional_scene_begin on_conditional_scene_cell on_conditional_scene_ext on_commit
  apply_valid (Message.begin g r n p q t m mode) o d valid =
      begin-ReceiverValid g r n p q t m mode (record { stage = o; debug = d }) valid
  apply_valid (Message.cell g r c) (some st) d valid = cell-ReceiverValid g r c st d valid
  apply_valid (Message.scene_cell g r c) (some st) d valid =
      scene_cell-ReceiverValid g r c st d valid
  apply_valid (Message.conditional_scene_begin g r n) (some st) d valid =
      conditional_scene_begin-ReceiverValid g r n st d valid
  apply_valid (Message.conditional_scene_cell g r c) (some st) d valid =
      conditional_scene_cell-ReceiverValid g r c st d valid
  apply_valid (Message.conditional_scene_ext g r k e) (some st) d valid =
      conditional_scene_ext-ReceiverValid g r k e st d valid
  apply_valid (Message.wake_layers g r w) (some st) d valid =
      elim (Bool-cases (matches z T g r st)) [ inl h ↦ rw h valid | inr h ↦ rw h tt ]
  apply_valid (Message.context g r c b) (some st) d valid = elim (Bool-cases (matches z T g r st)) [
    | inl h ↦ rw h valid
    | inr h ↦ rw h tt
  ]
  apply_valid (Message.extension g r e q) (some st) d valid =
      elim (Bool-cases (matches z T g r st)) [ inl h ↦ rw h valid | inr h ↦ rw h tt ]
  apply_valid (Message.extension_overlay g r e q) (some st) d valid =
      elim (Bool-cases (matches z T g r st)) [ inl h ↦ rw h valid | inr h ↦ rw h tt ]
  apply_valid (Message.commit g r n p) (some st) d valid =
      elim (Bool-cases (commit_valid z T g r n p st)) [ inl h ↦ rw h tt | inr h ↦ rw h tt ]
  apply_valid m none d valid = valid
  apply_valid m (some st) d valid = valid

  -- Whatever message arrives, in whatever order, a staged snapshot keeps within what its `Begin`
  -- announced and the board has room for: no more overlay cells, scene cells or conditional cells
  -- than announced, no announcement above a half's LEDs or the scene capacity, and no two overlay
  -- cells on one slot.
  pub apply-ReceiverValid :
      (m : Message F) (rx : Receiver T)
      → ReceiverValid z T rx
      → ReceiverValid z T (apply z T m rx).0
  apply-ReceiverValid m rx valid = apply_valid m rx.stage rx.debug valid
