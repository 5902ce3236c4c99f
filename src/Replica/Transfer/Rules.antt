-- ===== src/Replica/Transfer/Rules.antt =====
-- The conditional cells of a transaction, each of one packet or of two.
use moergo_rmk.Prelude.{
  ℕ, ◌+◌, ◌≤◌, ◌<◌, ◌≡◌, refl, ap, subst, ◌∙◌, sym, true, false, List, [], ◌∷◌, ◌++◌, Option, none,
  some, length, map, leb, arith, length-append, append-nil, append_assoc, map-append,
}
use moergo_rmk.Wire.Rmk.{Foreign, Sizes}
use moergo_rmk.Wire.Types.{RuntimeConditionalSceneCell, ConnectionCondition, EffectsCondition}
use moergo_rmk.Wire.Message.{Message}
use moergo_rmk.Wire.Fits.{carried, cell_part}
use moergo_rmk.Replica.Tables.{Tables, TableLaws}
use moergo_rmk.Replica.Walk.{rule_packets, all_rule_packets}
use moergo_rmk.Replica.Replicates.{replicated}
use moergo_rmk.Replica.Stage.{
  Stage, matches, is_full, with_ext, apply, receive, on_conditional_scene_cell,
  on_conditional_scene_ext,
}
use moergo_rmk.Replica.Transfer.Steps.{with_rules, receive_quiet}

module _ {F : Foreign} (z : Sizes) (T : Tables F) (laws : TableLaws z T) (g r : ℕ) where
  on_rule_lem :
      (c : RuntimeConditionalSceneCell F) (t t' : T.Rules) (st : Stage T) (debug : ℕ)
      → matches z T g r st ≡ true
      → is_full z T st.expected_conditional_scene_cells (length (T.rules_iter t)) ≡ false
      → T.rules_push c t ≡ some t'
      → apply z T
          (Message.conditional_scene_cell g r c)
          (record { stage = some (with_rules T t st); debug = debug })
        ≡ (record { stage = some (with_rules T t' st); debug = debug }, none)
  unfolding apply on_conditional_scene_cell
  on_rule_lem c t t' st debug m room push = rw (m, room, push)

  on_ext_lem :
      (k : Option ConnectionCondition) (e : Option EffectsCondition) (t t' : T.Rules) (st : Stage T)
      (debug : ℕ)
      → matches z T g r st ≡ true
      → T.amend_last (with_ext z T k e) t ≡ some t'
      → apply z T
          (Message.conditional_scene_ext g r k e)
          (record { stage = some (with_rules T t st); debug = debug })
        ≡ (record { stage = some (with_rules T t' st); debug = debug }, none)
  unfolding apply on_conditional_scene_ext
  on_ext_lem k e t t' st debug m amend = rw (m, amend)

  -- The cell with other gates from the extension packet.
  abbrev set_ext :
      Option ConnectionCondition
      → Option EffectsCondition
      → RuntimeConditionalSceneCell F
      → RuntimeConditionalSceneCell F
  set_ext k e c = record c { conditions = with_ext z T k e c.conditions }

  module _ (st : Stage T) (debug : ℕ) (m : matches z T g r st ≡ true) where
    -- A sequence of messages changes the table of the stage, and nothing else.
    abbrev Amends : List (Message F) → T.Rules → T.Rules → Type 0
    Amends ms t t' =
        (rest : List (Message F))
        → receive z T (ms ++ rest) (record { stage = some (with_rules T t st); debug = debug })
          ≡ receive z T rest (record { stage = some (with_rules T t' st); debug = debug })

    Amends-trans :
        (ms ns : List (Message F)) (t u t' : T.Rules)
        → Amends ms t u
        → Amends ns u t'
        → Amends (ms ++ ns) t t'
    Amends-trans ms ns t u t' one two rest =
        ap (λ l. receive z T l (record { stage = some (with_rules T t st); debug = debug }))
          (append_assoc ms ns rest)
        ∙ one (ns ++ rest)
        ∙ two rest

    receive_two :
        (k : Option ConnectionCondition) (e : Option EffectsCondition)
        (c : RuntimeConditionalSceneCell F) (t : T.Rules)
        → is_full z T st.expected_conditional_scene_cells (length (T.rules_iter t)) ≡ false
        → length (T.rules_iter t) < z.scene_capacity
        → (t' : T.Rules) × (T.rules_iter t' ≡ T.rules_iter t ++ (replicated (set_ext k e c) ∷ []))
          × Amends
              (Message.conditional_scene_cell g r (cell_part c)
                ∷ Message.conditional_scene_ext g r k e
                ∷ [])
              t
              t'
    receive_two k e c t room free =
        let (u, push, pushed) = laws.rules_push_lem (cell_part c) t free in
        let (t', amend, amended) =
          laws.amend_last_lem (with_ext z T k e) u (T.rules_iter t) (cell_part c) pushed in
        (
          t',
          amended,
          λ rest.
              receive_quiet z T _ _ _ _ (on_rule_lem (cell_part c) t u st debug m room push)
              ∙ receive_quiet z T _ _ _ _ (on_ext_lem k e u t' st debug m amend),
        )

    receive_with_ext :
        (k : Option ConnectionCondition) (e : Option EffectsCondition)
        (c : RuntimeConditionalSceneCell F) (t : T.Rules)
        → is_full z T st.expected_conditional_scene_cells (length (T.rules_iter t)) ≡ false
        → length (T.rules_iter t) < z.scene_capacity
        → (t' : T.Rules) × (T.rules_iter t' ≡ T.rules_iter t ++ (replicated (set_ext k e c) ∷ []))
          × Amends (map carried (rule_packets g r (set_ext k e c))) t t'
    receive_with_ext none none c t room free =
        let (t', push, pushed) = laws.rules_push_lem (cell_part c) t free in
        (
          t',
          pushed,
          λ rest. receive_quiet z T _ _ _ _ (on_rule_lem (cell_part c) t t' st debug m room push),
        )
    receive_with_ext (some k) e c t room free = receive_two (some k) e c t room free
    receive_with_ext none (some e) c t room free = receive_two none (some e) c t room free

    pub receive_rules :
        (cells : List (RuntimeConditionalSceneCell F)) (t : T.Rules) (expected : ℕ)
        → st.expected_conditional_scene_cells ≡ some expected
        → length (T.rules_iter t) + length cells ≤ expected
        → expected ≤ z.scene_capacity
        → (t' : T.Rules) × (T.rules_iter t' ≡ T.rules_iter t ++ map replicated cells)
          × Amends (map carried (all_rule_packets g r cells)) t t'
    receive_rules [] t expected he fits room = (t, sym (append-nil _), λ rest. refl)
    receive_rules (c ∷ cs) t expected he fits room =
        let room_left : leb expected (length (T.rules_iter t)) ≡ false = ground arith in
        let full = ap (λ o. is_full z T o (length (T.rules_iter t))) he ∙ room_left in
        let (u, one, run) =
          receive_with_ext c.conditions.connection c.conditions.effects c t full (omega arith) in
        let (t', all, run') =
          receive_rules cs u expected he
            (omega (arith, ap length one, length-append (T.rules_iter t) (replicated c ∷ [])))
            room in
        (
          t',
          all
              ∙ ap (λ l. l ++ map replicated cs) one
              ∙ append_assoc (T.rules_iter t) (replicated c ∷ []) (map replicated cs),
          subst (λ ms. Amends ms t t')
              (sym (map-append carried (rule_packets g r c) (all_rule_packets g r cs)))
              (Amends-trans (map carried (rule_packets g r c))
                (map carried (all_rule_packets g r cs)) t u t' run run'),
        )
