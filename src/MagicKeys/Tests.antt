-- ===== src/MagicKeys/Tests.antt =====
-- Concrete key events.
use moergo_rmk.Prelude.{◌≡◌, refl, Bool, true, false, List, [], ◌∷◌}
use moergo_rmk.MagicKeys.{Action, BleClearAction, idle, clear_active_ble_profile_action, update_all}
use moergo_rmk.MagicKeys.Chords.{update_all-hold}

-- The key of profile 2 is pressed and released during the hold.
abbrev key_two : List (Bool × Action)
key_two = (true, Action.user 2) ∷ (false, Action.user 2) ∷ []

abbrev clear_key : Action
clear_key = Action.user clear_active_ble_profile_action

update_all-hold_example :
    update_all 4
      ((true, clear_key) ∷ (true, Action.user 2) ∷ (false, Action.user 2) ∷ (false, clear_key) ∷ [])
      idle
    ≡ (idle, BleClearAction.profile 2 ∷ [])
update_all-hold_example = update_all-hold 4 key_two idle refl
