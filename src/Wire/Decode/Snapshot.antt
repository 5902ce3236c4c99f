-- ===== src/Wire/Decode/Snapshot.antt =====
-- The packets that open and close a snapshot transaction.
use moergo_rmk.Prelude.{
  ℕ, ◌+◌, ◌-◌, ◌%◌, Bool, true, false, List, ◌++◌, Option, none, some, Result, ok, err, ltb, ◌==◌,
  if◌then◌else◌, ◌>>=◌, replicate,
}
use moergo_rmk.Prelude.Bits.{has_bit}
use moergo_rmk.Wire.Rmk.{Foreign, Sizes}
use moergo_rmk.Wire.Types.{
  ReplicatedContext, BatteryPair, BackgroundState, BackgroundMode, ExtensionState,
  ExtensionReplicaParams,
}
use moergo_rmk.Wire.Buffer.{byte, get_u32, get_u64, slice}
use moergo_rmk.Wire.Message.{Message, DecodeError, value_error}
use moergo_rmk.Wire.Decode.Fields.{flag, get_indicators, get_battery, get_policy, get_output_mode}

-- `bytes[at..at + n]`
abbrev pub sub_slice : List ℕ → ℕ → ℕ → List ℕ
sub_slice bytes at n = slice (byte bytes) at n

abbrev pub get_background : List ℕ → BackgroundState
get_background bytes = record {
  enabled = has_bit (byte bytes 18) 0x7f;
  hue = byte bytes 19;
  saturation = byte bytes 20;
  value = byte bytes 21;
  speed = byte bytes 22;
  mode = if has_bit (byte bytes 18) 0x80 then BackgroundMode.breathe else BackgroundMode.solid;
}

unfoldable pub decode_begin : {F : Foreign} → List ℕ → Result DecodeError (Message F)
decode_begin bytes = do
  scene_policy ← get_policy (byte bytes 24)
  output_enabled ← flag (byte bytes 16)
  output_mode ← get_output_mode (byte bytes 25)
  ok (
      Message.begin (byte bytes 2) (get_u32 bytes 3) (byte bytes 7) (byte bytes 23) scene_policy
        (get_u64 bytes 8)
        (record {
          output_enabled = output_enabled;
          output_brightness = byte bytes 17;
          background = get_background bytes;
        })
        output_mode)

unfoldable pub decode_wake_layers : {F : Foreign} → List ℕ → Result DecodeError (Message F)
decode_wake_layers bytes =
    ok (Message.wake_layers (byte bytes 2) (get_u32 bytes 3) (get_u64 bytes 7))

-- The arms of `Context` and `ContextUpdate` differ in the variant that they build.
unfoldable pub decode_context :
    {F : Foreign}
    → (ℕ → ℕ → ReplicatedContext → BatteryPair → Message F)
    → List ℕ
    → Result DecodeError (Message F)
decode_context variant bytes = do
  powered ← flag (byte bytes 22)
  left ← get_battery bytes 18
  right ← get_battery bytes 20
  ok (
      variant (byte bytes 2) (get_u32 bytes 3)
        (record {
          indicators = get_indicators (byte bytes 17);
          powered = powered;
          bonded_slots = byte bytes 23;
        })
        (record { left = left; right = right }))

abbrev pub get_extension : List ℕ → Bool → Option ExtensionState
get_extension bytes true = some (record {
  effect = byte bytes 8;
  palette = byte bytes 9;
  value = byte bytes 10;
  speed = byte bytes 11;
})
get_extension bytes false = none

module _ (z : Sizes) where
  -- `values[..param_len].copy_from_slice(..)` over zeros, and `(param_len != 0).then_some(..)`,
  -- with the effect at `at` and the values behind it.
  abbrev pub get_params : List ℕ → ℕ → ℕ → Option ExtensionReplicaParams
  get_params bytes param_len at =
      if param_len == 0
      then none
      else some (record {
        effect = byte bytes at;
        len = param_len % 256;
        values = sub_slice bytes (at + 1) param_len ++ replicate (z.param_chunk - param_len) 0;
      })

  unfoldable pub decode_extension : {F : Foreign} → List ℕ → Result DecodeError (Message F)
  decode_extension bytes = if ltb z.param_chunk (byte bytes 12) then err value_error else do
    present ← flag (byte bytes 7)
    ok (
        Message.extension (byte bytes 2) (get_u32 bytes 3) (get_extension bytes present)
          (get_params bytes (byte bytes 12) 13))

  unfoldable pub decode_extension_overlay : {F : Foreign} → List ℕ → Result DecodeError (Message F)
  decode_extension_overlay bytes = if ltb z.param_chunk (byte bytes 9) then err value_error else do
    present ← flag (byte bytes 7)
    ok (
        Message.extension_overlay (byte bytes 2) (get_u32 bytes 3)
          (if present then some (byte bytes 8) else none) (get_params bytes (byte bytes 9) 10))

unfoldable pub decode_conditional_scene_begin :
    {F : Foreign} → List ℕ → Result DecodeError (Message F)
decode_conditional_scene_begin bytes =
    ok (Message.conditional_scene_begin (byte bytes 2) (get_u32 bytes 3) (byte bytes 7))

unfoldable pub decode_commit : {F : Foreign} → List ℕ → Result DecodeError (Message F)
decode_commit bytes =
    ok (Message.commit (byte bytes 2) (get_u32 bytes 3) (byte bytes 7) (byte bytes 8))
