-- ===== src/Replica/Digest.antt =====
-- `Fnv32` and `replica_digests`: the digests by which a central compares its replica.
pub mod Agreement
pub mod Durable
pub mod Bytes
pub mod Sense
pub mod Bounds
use moergo_rmk.Prelude.{
  ℕ, zero, suc, ◌+◌, ◌*◌, ◌/◌, ◌%◌, ◌^◌, bit_xor, Bool, true, false, List, [], ◌∷◌, Option, none,
  some, length, find, keep, to_u8, ◌==◌, leb,
}
use moergo_rmk.Wire.Rmk.{Foreign, Sizes, total_leds}
use moergo_rmk.Wire.Types.{
  StandardMutableState, BackgroundMode, OutputMode, LayerPolicy, ExtensionState,
  ExtensionReplicaParams, ExtensionLayerState, BuiltinEffect, Rgb8, OverlayCell, SceneTableCell,
  LayerCondition, BatteryCondition, ConnectionCondition, BondedSlotCondition, EffectsCondition,
  ConditionSet, RuntimeConditionalSceneCell, ReplicaDigests,
}
use moergo_rmk.Wire.Encode.Codes.{
  effect_parts, charge_code, transport_code, ble_state_code, output_mode_code, policy_code,
}
use moergo_rmk.Wire.Encode.Cells.{or_zero}
use moergo_rmk.Wire.Encode.Side.{is_some}
use moergo_rmk.Replica.Tables.{Tables, at_key}
use moergo_rmk.Replica.Snapshot.{Snapshot}

-- `Fnv32::byte`; the state is the 32-bit hash.
unfoldable pub hash_byte : ℕ → ℕ → ℕ
hash_byte value h = bit_xor h value * 0x01000193 % 2 ^ 32

abbrev pub hash_bytes : List ℕ → ℕ → ℕ
hash_bytes [] h = h
hash_bytes (v ∷ vs) h = hash_bytes vs (hash_byte v h)

-- `Fnv32::domain`; `schema` is `LIGHTING_REPLICA_DIGEST_SCHEMA_V1`.
abbrev pub domain : ℕ → ℕ → ℕ
domain schema d = hash_bytes (schema ∷ d ∷ []) 0x811c9dc5

abbrev pub hash_u16 : ℕ → ℕ → ℕ
hash_u16 v = hash_bytes (v % 256 ∷ v / 256 % 256 ∷ [])

abbrev pub hash_u32 : ℕ → ℕ → ℕ
hash_u32 v = hash_bytes (v % 256 ∷ v / 256 % 256 ∷ v / 2 ^ 16 % 256 ∷ v / 2 ^ 24 % 256 ∷ [])

-- `hash.byte(option.is_some() as u8)`, and then the bytes of its value.
abbrev pub hash_option {ℓ} : {A : Type ℓ} → (A → List ℕ) → Option A → ℕ → ℕ
hash_option f none h = hash_byte 0 h
hash_option f (some a) h = hash_bytes (f a) (hash_byte 1 h)

unfoldable pub hash_effect : BuiltinEffect → ℕ → ℕ
hash_effect effect h =
    let (kind, color, period_ms, phase_ms, auxiliary) = effect_parts effect in
    hash_u16 auxiliary (
      hash_u32 phase_ms
        (hash_u32 period_ms (hash_bytes (color.r ∷ color.g ∷ color.b ∷ []) (hash_byte kind h))))

abbrev pub hash_params : (ExtensionReplicaParams → List ℕ) → Option ExtensionReplicaParams → ℕ → ℕ
hash_params values = hash_option λ p. p.effect ∷ length (values p) % 256 ∷ values p

abbrev pub hash_layer : Option LayerCondition → ℕ → ℕ
hash_layer = hash_option λ c. c.layer ∷ to_u8 c.active ∷ []

abbrev pub hash_battery : Option BatteryCondition → ℕ → ℕ
hash_battery = hash_option λ c.
    c.node
    ∷ to_u8 (is_some c.min_level)
    ∷ or_zero c.min_level
    ∷ to_u8 (is_some c.max_level)
    ∷ or_zero c.max_level
    ∷ charge_code c.charge
    ∷ []

abbrev pub or_false : Option Bool → Bool
or_false none = false
or_false (some b) = b

-- The fields of a connection gate.
abbrev pub hash_gates : ConnectionCondition → ℕ → ℕ
hash_gates c h =
    hash_bytes (to_u8 (is_some c.usb_connected) ∷ to_u8 (or_false c.usb_connected) ∷ []) (
      hash_option (λ b. b.slot ∷ to_u8 b.bonded ∷ []) c.bonded
        (hash_option (λ s. ble_state_code s ∷ []) c.ble_state
          (hash_bytes (to_u8 (is_some c.profile) ∷ or_zero c.profile ∷ [])
            (hash_option (λ t. transport_code t ∷ []) c.transport h))))

abbrev pub hash_connection : Option ConnectionCondition → ℕ → ℕ
hash_connection none h = hash_byte 0 h
hash_connection (some c) h = hash_gates c (hash_byte 1 h)

unfoldable pub hash_conditions : {F : Foreign} → ConditionSet F → ℕ → ℕ
hash_conditions c h =
    hash_option (λ e. to_u8 e.enabled ∷ []) c.effects
      (hash_option (λ m. output_mode_code m ∷ []) c.output_mode
        (hash_connection c.connection (hash_battery c.battery (hash_layer c.layer h))))

abbrev pub background_mode_code : BackgroundMode → ℕ
background_mode_code BackgroundMode.solid = 0
background_mode_code BackgroundMode.breathe = 1

-- `lo..lo + n`
abbrev pub range : ℕ → ℕ → List ℕ
range lo zero = []
range lo (suc n) = lo ∷ range (suc lo) n

abbrev pub settings_digest :
    (ExtensionReplicaParams → List ℕ)
    → ℕ
    → StandardMutableState
    → OutputMode
    → LayerPolicy
    → Option ExtensionState
    → Option ExtensionLayerState
    → Option ExtensionReplicaParams
    → Option ExtensionReplicaParams
    → ℕ
settings_digest values schema s mode policy extension layers params overlay_params =
    let b = s.background in
    hash_params values overlay_params (
      hash_params values params (
        hash_option (λ l. to_u8 (is_some l.overlay) ∷ or_zero l.overlay ∷ []) layers
          (hash_option (λ e. e.effect ∷ e.palette ∷ e.value ∷ e.speed ∷ []) extension
            (hash_bytes
              (to_u8 s.output_enabled
                ∷ s.output_brightness
                ∷ to_u8 b.enabled
                ∷ b.hue
                ∷ b.saturation
                ∷ b.value
                ∷ b.speed
                ∷ background_mode_code b.mode
                ∷ output_mode_code mode
                ∷ policy_code policy
                ∷ [])
              (domain schema 1)))))

-- The loop over the slots of the right half.
abbrev pub hash_overlay : List OverlayCell → List ℕ → ℕ → ℕ
hash_overlay cells [] h = h
hash_overlay cells (slot ∷ slots) h =
    hash_overlay cells slots (elim (find (λ c. c.slot == slot) cells) [
      | none ↦ h
      | some c ↦ hash_effect c.effect (hash_u16 c.slot h)
    ])

-- The loop over the slots under one layer, and that over the layers.
abbrev pub hash_layer_scenes : List SceneTableCell → ℕ → List ℕ → ℕ → ℕ
hash_layer_scenes cells layer [] h = h
hash_layer_scenes cells layer (slot ∷ slots) h =
    hash_layer_scenes cells layer slots (elim (find (at_key layer slot) cells) [
      | none ↦ h
      | some c ↦ hash_effect c.effect (hash_u16 c.slot (hash_byte c.layer h))
    ])

abbrev pub hash_scenes : List SceneTableCell → List ℕ → List ℕ → ℕ → ℕ
hash_scenes cells slots [] h = h
hash_scenes cells slots (layer ∷ layers) h =
    hash_scenes cells slots layers (hash_layer_scenes cells layer slots h)

abbrev pub hash_rules : {F : Foreign} → List (RuntimeConditionalSceneCell F) → ℕ → ℕ
hash_rules [] h = h
hash_rules (c ∷ cs) h =
    hash_rules cs (hash_effect c.effect (hash_conditions c.conditions (hash_u16 c.slot h)))

module _ {F : Foreign} (z : Sizes) (T : Tables F) (values : ExtensionReplicaParams → List ℕ)
    (schema layer_capacity : ℕ) where
  -- `LEDS_PER_HALF..TOTAL_LEDS`
  abbrev pub right_slots : List ℕ
  right_slots = range z.leds_per_half z.leds_per_half

  unfoldable pub replica_digests : Snapshot T → ReplicaDigests
  replica_digests s =
      let overlay = T.overlay_slice s.overlay in
      let scenes = T.scenes_iter s.scenes in
      let rules = keep (λ c. leb z.leds_per_half c.slot) (T.rules_iter s.rules) in
      record {
        schema = schema;
        revision = s.revision;
        settings =
            settings_digest values schema s.settings s.output_mode (T.policy s.scenes) s.extension
              s.extension_layers s.extension_params s.extension_overlay_params;
        overlay =
            hash_overlay overlay right_slots (
              hash_u16 (length (keep (λ c. leb z.leds_per_half c.slot) overlay)) (domain schema 2));
        scenes =
            hash_scenes scenes right_slots (range 0 layer_capacity)
              (hash_u16 (length (keep (λ c. leb z.leds_per_half c.slot) scenes)) (domain schema 3));
        conditional_scenes = hash_rules rules (hash_u16 (length rules) (domain schema 4));
      }
