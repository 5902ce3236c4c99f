-- ===== src/MagicKeys/Chords.antt =====
-- A whole hold of the clear key.
use moergo_rmk.Prelude.{
  ℕ, ◌≡◌, refl, ap, sym, ◌∙◌, Option, Bool, true, false, not, ◌&&◌, ◌||◌, List, [], ◌∷◌, ◌++◌, none,
  some, ltb, ◌==◌, Bool-cases, inl, inr, if◌then◌else◌, arith,
}
use moergo_rmk.MagicKeys.{
  Action, BleClearAction, BleClearChord, idle, clear_active_ble_profile_action, update, update_all,
  emitted,
}

-- An event of the clear key itself.
abbrev pub is_clear : Action → Bool
is_clear (Action.user a) = a == clear_active_ble_profile_action
is_clear Action.other = false

abbrev pub other_keys : List (Bool × Action) → Bool
other_keys [] = true
other_keys ((pressed, action) ∷ events) = not (is_clear action) && other_keys events

module _ (profile_count : ℕ) where
  -- The profiles whose keys are pressed, in order.
  abbrev pub pressed_profiles : List (Bool × Action) → List BleClearAction
  pressed_profiles [] = []
  pressed_profiles ((true, Action.user a) ∷ events) =
      if ltb a profile_count
      then BleClearAction.profile a ∷ pressed_profiles events
      else pressed_profiles events
  pressed_profiles ((false, Action.user a) ∷ events) = pressed_profiles events
  pressed_profiles ((pressed, Action.other) ∷ events) = pressed_profiles events

  abbrev pub is_empty : List BleClearAction → Bool
  is_empty [] = true
  is_empty (a ∷ actions) = false

  -- While the key is held.
  held_lem :
      (events : List (Bool × Action)) (used : Bool)
      → other_keys events ≡ true
      → ((update_all profile_count events (record { held = true; used = used })).0
          ≡ record { held = true; used = used || not (is_empty (pressed_profiles events)) })
        × ((update_all profile_count events (record { held = true; used = used })).1
            ≡ pressed_profiles events)
  unfolding update_all update
  held_lem [] used h = (ap (λ u. record { held = true; used = u }) (ground arith), refl)
  held_lem ((true, Action.user a) ∷ events) used h =
      let plain : (a == clear_active_ble_profile_action) ≡ false = ground arith in
      elim (Bool-cases (ltb a profile_count)) [
        | inl hit ↦
            let (state, actions) = held_lem events true (ground arith) in
            rw (plain, hit)
              (
                state ∙ ap (λ u. record { held = true; used = u }) (ground arith),
                ap (◌∷◌ (BleClearAction.profile a)) actions,
              )
        | inr miss ↦ rw (plain, miss) (held_lem events used (ground arith))
      ]
  held_lem ((false, Action.user a) ∷ events) used h =
      let plain : (a == clear_active_ble_profile_action) ≡ false = ground arith in
      rw plain (held_lem events used (ground arith))
  held_lem ((true, Action.other) ∷ events) used h = held_lem events used (ground arith)
  held_lem ((false, Action.other) ∷ events) used h = held_lem events used (ground arith)

  -- What the release of the key adds.
  abbrev pub closing : List BleClearAction → List BleClearAction
  closing [] = BleClearAction.active ∷ []
  closing (a ∷ actions) = []

  closing_lem :
      (actions : List BleClearAction)
      → emitted profile_count
          (if false || not (is_empty actions) then none else some BleClearAction.active)
          []
        ≡ closing actions
  closing_lem [] = refl
  closing_lem (a ∷ actions) = refl

  emitted-append :
      (o : Option BleClearAction) (xs ys : List BleClearAction)
      → emitted profile_count o xs ++ ys ≡ emitted profile_count o (xs ++ ys)
  emitted-append none xs ys = refl
  emitted-append (some a) xs ys = refl

  -- The release behind a hold, in a whole sequence.
  released_lem :
      (events : List (Bool × Action)) (c : BleClearChord)
      → update_all profile_count
          (events ++ ((false, Action.user clear_active_ble_profile_action) ∷ []))
          c
        ≡ (
          idle,
          (update_all profile_count events c).1
              ++ emitted profile_count
                  (if (update_all profile_count events c).0.used
                    then none
                    else some BleClearAction.active)
                  [],
        )
  unfolding update_all update
  released_lem [] c = refl
  released_lem ((pressed, action) ∷ events) c =
      let o = (update profile_count pressed action c).1 in
      ap (λ r. (r.0, emitted profile_count o r.1))
        (released_lem events (update profile_count pressed action c).0)
      ∙ ap (λ actions. (idle, actions)) (sym (emitted-append o _ _))

  -- A whole hold of the clear key, its own press and release included, with other keys pressed and
  -- released between them in whatever order: each press of a profile's key clears that profile, in
  -- order; behind them the active profile is cleared when no profile's key was pressed; nothing else
  -- is cleared, and the chord is idle again, whatever state it was in before.
  pub update_all-hold :
      (events : List (Bool × Action)) (before : BleClearChord)
      → other_keys events ≡ true
      → let clear = Action.user clear_active_ble_profile_action in
        update_all profile_count ((true, clear) ∷ (events ++ ((false, clear) ∷ []))) before
        ≡ (idle, pressed_profiles events ++ closing (pressed_profiles events))
  unfolding update_all update
  update_all-hold events before h =
      let (state, actions) = held_lem events false h in
      released_lem events (record { held = true; used = false })
      ∙ rw (state, actions)
          (ap (λ last. (idle, pressed_profiles events ++ last))
            (closing_lem (pressed_profiles events)))
