-- ===== src/MagicKeys.antt =====
-- crates/moergo-rmk/src/remote_boot.rs: `BleClearChord`, the key that clears Bluetooth profiles.
pub mod Chords
mod Tests
use moergo_rmk.Prelude.{
  ℕ, Bool, true, false, ◌&&◌, List, [], ◌∷◌, Option, none, some, ltb, ◌==◌, if◌then◌else◌,
}

-- `Action` of the rmk crate: a user action, or any other.
pub data Action : Type 0 where
  user : ℕ → Action
  other : Action

pub data BleClearAction : Type 0 where
  active : BleClearAction
  profile : ℕ → BleClearAction

pub record BleClearChord : Type 0 where
  pub held : Bool
  pub used : Bool

-- `BleClearChord::default`
abbrev pub idle : BleClearChord
idle = record { held = false; used = false }

-- `CLEAR_ACTIVE_BLE_PROFILE_ACTION`
abbrev pub clear_active_ble_profile_action : ℕ
clear_active_ble_profile_action = 10

module _ (profile_count : ℕ) where
  -- `pressed` and the action.
  unfoldable pub update : Bool → Action → BleClearChord → BleClearChord × Option BleClearAction
  update true (Action.user a) c =
      if a == clear_active_ble_profile_action
      then (record { held = true; used = false }, none)
      else if c.held && ltb a profile_count
      then (record c { used = true }, some (BleClearAction.profile a))
      else (c, none)
  update false (Action.user a) c =
      if a == clear_active_ble_profile_action
      then (idle, if c.used then none else some BleClearAction.active)
      else (c, none)
  update pressed Action.other c = (c, none)

  abbrev pub emitted : Option BleClearAction → List BleClearAction → List BleClearAction
  emitted none actions = actions
  emitted (some a) actions = a ∷ actions

  -- A sequence of key events, with what it clears.
  unfoldable pub update_all :
      List (Bool × Action) → BleClearChord → BleClearChord × List BleClearAction
  update_all [] c = (c, [])
  update_all ((pressed, action) ∷ events) c =
      let (c', out) = update pressed action c in
      let (last, actions) = update_all events c' in (last, emitted out actions)
