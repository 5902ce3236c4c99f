-- ===== src/Replica/Digest/Sense.antt =====
-- The bytes of the settings in `replica_digests`.
use moergo_rmk.Prelude.{
  ℕ, ◌%◌, ◌≡◌, ◌≢◌, Bool, true, false, ap, List, [], ◌∷◌, All, length, to_u8, arith,
}
use moergo_rmk.Wire.Rmk.{Foreign, Sizes}
use moergo_rmk.Wire.Types.{
  ExtensionReplicaParams, StandardMutableState, ExtensionState, ExtensionLayerState, BackgroundMode,
  OutputMode, LayerPolicy, ReplicaDigests,
}
use moergo_rmk.Wire.Fits.{IsU32}
use moergo_rmk.Wire.Encode.Codes.{output_mode_code, policy_code}
use moergo_rmk.Wire.Encode.Side.{is_some}
use moergo_rmk.Wire.Encode.Cells.{or_zero}
use moergo_rmk.Replica.Tables.{Tables}
use moergo_rmk.Replica.Snapshot.{Snapshot}
use moergo_rmk.Replica.Digest.{
  hash_byte, hash_bytes, hash_option, domain, background_mode_code, replica_digests,
}
use moergo_rmk.Replica.Digest.Bounds.{hash_byte-IsU32, hash_bytes-IsU32, hash_option-IsU32}
use moergo_rmk.Replica.Digest.Bytes.{IsByte, OptionBytes, hash_option-state, changed_lem}

-- A setting of one byte.
pub data Setting : Type 0 where
  brightness hue saturation level speed : Setting

abbrev pub set_to : Setting → ℕ → StandardMutableState → StandardMutableState
set_to Setting.brightness v m = record m { output_brightness = v }
set_to Setting.hue v m = record m { background = record m.background { hue = v } }
set_to Setting.saturation v m = record m { background = record m.background { saturation = v } }
set_to Setting.level v m = record m { background = record m.background { value = v } }
set_to Setting.speed v m = record m { background = record m.background { speed = v } }

abbrev pub extension_list : ExtensionState → List ℕ
extension_list e = e.effect ∷ e.palette ∷ e.value ∷ e.speed ∷ []

abbrev pub layers_list : ExtensionLayerState → List ℕ
layers_list l = to_u8 (is_some l.overlay) ∷ or_zero l.overlay ∷ []

abbrev pub params_list : (ExtensionReplicaParams → List ℕ) → ExtensionReplicaParams → List ℕ
params_list values p = p.effect ∷ length (values p) % 256 ∷ values p

background_mode_code-IsByte : (m : BackgroundMode) → IsByte (background_mode_code m)
background_mode_code-IsByte BackgroundMode.solid = omega arith
background_mode_code-IsByte BackgroundMode.breathe = omega arith

output_mode_code-IsByte : (m : OutputMode) → IsByte (output_mode_code m)
output_mode_code-IsByte OutputMode.always_on = omega arith
output_mode_code-IsByte OutputMode.always_off = omega arith
output_mode_code-IsByte OutputMode.powered_only = omega arith

policy_code-IsByte : (p : LayerPolicy) → IsByte (policy_code p)
policy_code-IsByte LayerPolicy.effective_only = omega arith
policy_code-IsByte LayerPolicy.active_stack = omega arith

to_u8-IsByte : (b : Bool) → IsByte (to_u8 b)
to_u8-IsByte true = omega arith
to_u8-IsByte false = omega arith

module _ {F : Foreign} (z : Sizes) (T : Tables F) (values : ExtensionReplicaParams → List ℕ)
    (schema layer_capacity : ℕ) (s : Snapshot T) where
  -- The values of the settings are bytes, as their types say.
  pub record SettingsBytes : Type 0 where
    pub brightness_byte : IsByte s.settings.output_brightness
    pub hue_byte : IsByte s.settings.background.hue
    pub saturation_byte : IsByte s.settings.background.saturation
    pub value_byte : IsByte s.settings.background.value
    pub speed_byte : IsByte s.settings.background.speed
    pub extension_bytes : OptionBytes extension_list s.extension
    pub layers_bytes : OptionBytes layers_list s.extension_layers
    pub params_bytes : OptionBytes (params_list values) s.extension_params
    pub overlay_params_bytes : OptionBytes (params_list values) s.extension_overlay_params

  -- What is hashed behind the ten bytes.
  abbrev behind : ℕ → ℕ
  behind h = hash_option (params_list values) s.extension_overlay_params (
      hash_option (params_list values) s.extension_params
        (hash_option layers_list s.extension_layers (hash_option extension_list s.extension h)))

  behind-state : SettingsBytes → (h k : ℕ) → IsU32 h → IsU32 k → behind h ≡ behind k → h ≡ k
  behind-state b h k hh hk same =
      let extension : ℕ → ℕ = λ x. hash_option extension_list s.extension x in
      let layers : ℕ → ℕ = λ x. hash_option layers_list s.extension_layers (extension x) in
      let params : ℕ → ℕ = λ x. hash_option (params_list values) s.extension_params (layers x) in
      hash_option-state extension_list s.extension h k b.extension_bytes hh hk (
        hash_option-state layers_list s.extension_layers (extension h) (extension k) b.layers_bytes
          (hash_option-IsU32 extension_list s.extension h)
          (hash_option-IsU32 extension_list s.extension k)
          (hash_option-state (params_list values) s.extension_params (layers h) (layers k)
            b.params_bytes (hash_option-IsU32 layers_list s.extension_layers (extension h))
            (hash_option-IsU32 layers_list s.extension_layers (extension k))
            (hash_option-state (params_list values) s.extension_overlay_params (params h) (params k)
              b.overlay_params_bytes
              (hash_option-IsU32 (params_list values) s.extension_params (layers h))
              (hash_option-IsU32 (params_list values) s.extension_params (layers k)) same)))

  abbrev pub digests_with : Setting → ℕ → ReplicaDigests
  digests_with k v =
      replica_digests z T values schema layer_capacity
        (record s { settings = set_to k v s.settings })

  setting_lem :
      SettingsBytes
      → (after : List ℕ) (v w h : ℕ) → IsByte v
      → IsByte w
      → All IsByte after
      → IsU32 h
      → behind (hash_bytes (v ∷ after) h) ≡ behind (hash_bytes (w ∷ after) h)
      → v ≡ w
  setting_lem b after v w h bv bw bytes hh same = changed_lem after v w h bv bw bytes hh (
      behind-state b (hash_bytes (v ∷ after) h) (hash_bytes (w ∷ after) h)
        (hash_bytes-IsU32 (v ∷ after) h hh) (hash_bytes-IsU32 (w ∷ after) h hh) same)

  -- The bytes behind each setting.
  abbrev codes : List ℕ
  codes =
      background_mode_code s.settings.background.mode
      ∷ output_mode_code s.output_mode
      ∷ policy_code (T.policy s.scenes)
      ∷ []

  codes_bytes : All IsByte codes
  codes_bytes = (
    background_mode_code-IsByte s.settings.background.mode,
    (output_mode_code-IsByte s.output_mode, (policy_code-IsByte (T.policy s.scenes), tt)),
  )

  abbrev first_byte : ℕ
  first_byte = hash_byte (to_u8 s.settings.output_enabled) (domain schema 1)

  abbrev to_enabled : ℕ
  to_enabled =
      hash_bytes (s.settings.output_brightness ∷ to_u8 s.settings.background.enabled ∷ [])
        first_byte

  same_setting :
      SettingsBytes
      → (k : Setting) (v w : ℕ) → IsByte v
      → IsByte w
      → (digests_with k v).settings ≡ (digests_with k w).settings
      → v ≡ w
  unfolding replica_digests
  same_setting b Setting.brightness v w bv bw same =
      setting_lem b
        (to_u8 s.settings.background.enabled
          ∷ s.settings.background.hue
          ∷ s.settings.background.saturation
          ∷ s.settings.background.value
          ∷ s.settings.background.speed
          ∷ codes)
        v w first_byte bv bw
        (
          to_u8-IsByte s.settings.background.enabled,
          (b.hue_byte, (b.saturation_byte, (b.value_byte, (b.speed_byte, codes_bytes)))),
        )
        (hash_byte-IsU32 (to_u8 s.settings.output_enabled) (domain schema 1)) same
  same_setting b Setting.hue v w bv bw same =
      setting_lem b
        (s.settings.background.saturation ∷ s.settings.background.value
          ∷ s.settings.background.speed ∷ codes)
        v w to_enabled bv bw (b.saturation_byte, (b.value_byte, (b.speed_byte, codes_bytes)))
        (hash_byte-IsU32 _ _) same
  same_setting b Setting.saturation v w bv bw same =
      setting_lem b (s.settings.background.value ∷ s.settings.background.speed ∷ codes) v w
        (hash_byte s.settings.background.hue to_enabled) bv bw
        (b.value_byte, (b.speed_byte, codes_bytes)) (hash_byte-IsU32 _ _) same
  same_setting b Setting.level v w bv bw same =
      setting_lem b (s.settings.background.speed ∷ codes) v w
        (hash_bytes (s.settings.background.hue ∷ s.settings.background.saturation ∷ []) to_enabled)
        bv bw (b.speed_byte, codes_bytes) (hash_byte-IsU32 _ _) same
  same_setting b Setting.speed v w bv bw same =
      setting_lem b codes v w
        (hash_bytes
          (s.settings.background.hue ∷ s.settings.background.saturation
            ∷ s.settings.background.value ∷ [])
          to_enabled)
        bv bw codes_bytes (hash_byte-IsU32 _ _) same

  -- A snapshot whose settings are bytes has other digests with the brightness, or the hue, the
  -- saturation, the value or the speed of the background, set to another byte: a replica that differs
  -- in one of these alone never passes for the central's state.
  pub replica_digests-set_to :
      SettingsBytes
      → (k : Setting) (v w : ℕ) → IsByte v
      → IsByte w
      → v ≢ w
      → digests_with k v ≢ digests_with k w
  replica_digests-set_to b k v w bv bw other same =
      other (same_setting b k v w bv bw (ap (λ d. d.settings) same))
