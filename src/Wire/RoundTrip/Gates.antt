-- ===== src/Wire/RoundTrip/Gates.antt =====
-- The packed gates of a conditional-scene cell read back as they were written.
use moergo_rmk.Prelude.{
  ℕ, ◌*◌, ◌/◌, ◌<◌, ◌≡◌, refl, Bool, true, false, Option, none, some, ok, ltb, ◌&&◌, ◌==◌, to_u8,
  bit_and, bit_or, arith,
}
use moergo_rmk.Prelude.Bits.{shl8, shr, has_bit, every_under, every_under_lem}
use moergo_rmk.Wire.Types.{
  LayerCondition, BatteryCondition, ChargeCondition, OutputMode, ConnectionCondition,
  EffectsCondition, ActiveTransport, BleState, BondedSlotCondition, BuiltinEffect,
}
use moergo_rmk.Wire.Fits.{OnSome, LayerFits, BatteryConditionFits, BondedFits, ConnectionFits}
use moergo_rmk.Wire.Encode.Codes.{effect_parts, charge_code, or_max}
use moergo_rmk.Wire.Encode.Conditions.{
  layer_gate, node_gate, min_gate, max_gate, mode_gate, connection_or_default, transport_gate,
  ble_gate, effects_gate, profile_gate, bonded_gate, usb_gate,
}
use moergo_rmk.Wire.Decode.Conditions.{
  get_layer_gate, get_battery_condition, get_mode_gate, get_kind, get_transport, get_ble_state,
  get_profile, get_bonded, get_usb, connection_of, get_effects_gate, unless_max, get_charge,
}

-- The second byte of the slot and kind, and the byte of the layer gate and kind.
abbrev pub slot_byte : ℕ → ℕ → ℕ
slot_byte slot kind = bit_or slot (shl8 (bit_and kind 1) 7)

abbrev pub layer_byte : Option LayerCondition → ℕ → ℕ
layer_byte layer kind = bit_or (layer_gate layer) (shl8 (bit_and kind 2) 6)

kind_lt : (e : BuiltinEffect) → (effect_parts e).0 < 3
kind_lt (BuiltinEffect.solid _) = omega arith
kind_lt (BuiltinEffect.blink _ _ _ _) = omega arith
kind_lt (BuiltinEffect.breathe _ _ _ _) = omega arith

-- A test that holds on all triples below three bounds.
table :
    (a b c : ℕ) (p : ℕ → ℕ → ℕ → Bool)
    → every_under a (λ x. every_under b (λ y. every_under c (λ z. p x y z))) ≡ true
    → (x y z : ℕ) → x < a
    → y < b
    → z < c
    → p x y z ≡ true
table a b c p h x y z hx hy hz =
    every_under_lem c (λ z. p x y z) z
      (every_under_lem b (λ y. every_under c (λ z. p x y z)) y
        (every_under_lem a (λ x. every_under b (λ y. every_under c (λ z. p x y z))) x h hx) hy)
      hz

slot_test : ℕ → ℕ → ℕ → Bool
slot_test kind slot _ =
    bit_and (slot_byte slot kind) 0x7f == slot && shr (slot_byte slot kind) 7 == bit_and kind 1

-- The slot and the low bit of the kind, from their byte.
pub slot_byte_lem :
    (e : BuiltinEffect) (slot : ℕ)
    → slot < 128
    → let kind = (effect_parts e).0 in
      (bit_and (slot_byte slot kind) 0x7f ≡ slot) × (shr (slot_byte slot kind) 7 ≡ bit_and kind 1)
unfolding slot_test every_under
slot_byte_lem e slot h =
    let kind = (effect_parts e).0 in
    let t = table 3 128 1 slot_test refl kind slot 0 (kind_lt e) h (omega arith) in ground arith

-- The byte of a layer gate under a kind, `flag` for its active bit.
abbrev layer_bits : ℕ → ℕ → ℕ → ℕ
layer_bits kind flag layer =
    bit_or (bit_or (bit_and layer 0x3f) (shl8 flag 6)) (shl8 (bit_and kind 2) 6)

layer_test : ℕ → ℕ → ℕ → Bool
layer_test kind flag layer =
    let v = layer_bits kind flag layer in
    bit_and v 0x3f == layer && bit_and v 0x40 == flag * 64 && shr v 7 == kind / 2

layer_bits_lem :
    (e : BuiltinEffect) (active : Bool) (layer : ℕ)
    → layer < 63
    → let kind = (effect_parts e).0 in
      let v = layer_bits kind (to_u8 active) layer in
      (bit_and v 0x3f ≡ layer) × (bit_and v 0x40 ≡ to_u8 active * 64) × (shr v 7 ≡ kind / 2)
unfolding layer_test every_under
layer_bits_lem e true layer h =
    let t = table 3 2 63 layer_test refl _ 1 layer (kind_lt e) (omega arith) h in ground arith
layer_bits_lem e false layer h =
    let t = table 3 2 63 layer_test refl _ 0 layer (kind_lt e) (omega arith) h in ground arith

pub get_layer_gate_lem :
    (e : BuiltinEffect) (c : Option LayerCondition)
    → LayerFits c
    → get_layer_gate (layer_byte c (effect_parts e).0) ≡ c
unfolding get_layer_gate
get_layer_gate_lem (BuiltinEffect.solid _) none h = refl
get_layer_gate_lem (BuiltinEffect.blink _ _ _ _) none h = refl
get_layer_gate_lem (BuiltinEffect.breathe _ _ _ _) none h = refl
get_layer_gate_lem e (some c) h = ground (arith, layer_bits_lem e c.active c.layer h)

layer_byte_kind :
    (e : BuiltinEffect) (c : Option LayerCondition)
    → LayerFits c
    → shr (layer_byte c (effect_parts e).0) 7 ≡ (effect_parts e).0 / 2
layer_byte_kind (BuiltinEffect.solid _) none h = refl
layer_byte_kind (BuiltinEffect.blink _ _ _ _) none h = refl
layer_byte_kind (BuiltinEffect.breathe _ _ _ _) none h = refl
layer_byte_kind e (some c) h = (layer_bits_lem e c.active c.layer h).2

kind_of_halves :
    (e : BuiltinEffect)
    → let kind = (effect_parts e).0 in bit_or (bit_and kind 1) (shl8 (kind / 2) 1) ≡ kind
kind_of_halves (BuiltinEffect.solid _) = refl
kind_of_halves (BuiltinEffect.blink _ _ _ _) = refl
kind_of_halves (BuiltinEffect.breathe _ _ _ _) = refl

pub get_kind_lem :
    (e : BuiltinEffect) (slot : ℕ) (c : Option LayerCondition)
    → slot < 128
    → LayerFits c
    → let kind = (effect_parts e).0 in get_kind (slot_byte slot kind) (layer_byte c kind) ≡ kind
unfolding get_kind
get_kind_lem e slot c hs hc =
    rw ((slot_byte_lem e slot hs).1, layer_byte_kind e c hc) (kind_of_halves e)

node_test : ℕ → ℕ → ℕ → Bool
node_test charge node _ =
    let v = bit_or (bit_and node 0x3f) (shl8 charge 6) in
    bit_and v 0x3f == node && shr v 6 == charge && ltb v 255

node_bits_lem :
    (charge : ChargeCondition) (node : ℕ)
    → node < 63
    → let v = bit_or (bit_and node 0x3f) (shl8 (charge_code charge) 6) in
      (bit_and v 0x3f ≡ node) × (shr v 6 ≡ charge_code charge) × (v < 255)
unfolding node_test every_under
node_bits_lem charge node h =
    let t =
      table 4 63 1 node_test refl (charge_code charge) node 0 (code_lt charge) h (omega arith) in
    ground arith
  where
    code_lt : (c : ChargeCondition) → charge_code c < 4
    code_lt ChargeCondition.any = omega arith
    code_lt ChargeCondition.charging = omega arith
    code_lt ChargeCondition.discharging = omega arith
    code_lt ChargeCondition.unknown = omega arith

unless_max-or_max : (o : Option ℕ) → OnSome (λ v. v < 255) o → unless_max (or_max o) ≡ o
unless_max-or_max none h = refl
unless_max-or_max (some v) h = ground arith

get_charge-charge_code : (c : ChargeCondition) → get_charge (charge_code c) ≡ ok c
get_charge-charge_code ChargeCondition.any = refl
get_charge-charge_code ChargeCondition.charging = refl
get_charge-charge_code ChargeCondition.discharging = refl
get_charge-charge_code ChargeCondition.unknown = refl

pub get_battery_condition_lem :
    (c : Option BatteryCondition)
    → BatteryConditionFits c
    → get_battery_condition (node_gate c) (min_gate c) (max_gate c) ≡ ok c
unfolding get_battery_condition
get_battery_condition_lem none h = refl
get_battery_condition_lem (some c) h = ground (
  arith,
  node_bits_lem c.charge c.node h.0,
  unless_max-or_max c.min_level h.1,
  unless_max-or_max c.max_level h.2,
  get_charge-charge_code c.charge,
)

pub get_mode_gate-mode_gate : (m : Option OutputMode) → get_mode_gate (mode_gate m) ≡ ok m
unfolding get_mode_gate
get_mode_gate-mode_gate none = refl
get_mode_gate-mode_gate (some OutputMode.always_on) = refl
get_mode_gate-mode_gate (some OutputMode.always_off) = refl
get_mode_gate-mode_gate (some OutputMode.powered_only) = refl

-- The byte that the transport, Bluetooth and effects gates share.
abbrev pub gates_byte : Option ActiveTransport → Option BleState → Option EffectsCondition → ℕ
gates_byte t s e = effects_gate e (ble_gate s (transport_gate t 0))

pub gates_byte_lem :
    (t : Option ActiveTransport) (s : Option BleState) (e : Option EffectsCondition)
    → (get_transport (gates_byte t s e) ≡ ok t)
      × (get_ble_state (gates_byte t s e) ≡ ok s)
      × (get_effects_gate (gates_byte t s e) ≡ e)
unfolding get_transport get_ble_state get_effects_gate
gates_byte_lem t s e = ground arith

profile_test : ℕ → Bool
profile_test v =
    has_bit (bit_or 0x80 (bit_and v 0x7f)) 0x80 && bit_and (bit_or 0x80 (bit_and v 0x7f)) 0x7f == v

pub get_profile-profile_gate :
    (o : Option ℕ) → OnSome (λ v. v < 128) o → get_profile (profile_gate o) ≡ o
unfolding get_profile profile_test every_under
get_profile-profile_gate none h = refl
get_profile-profile_gate (some v) h = ground (arith, every_under_lem 128 profile_test v refl h)

bonded_test : ℕ → ℕ → ℕ → Bool
bonded_test flag slot _ =
    let v = bit_or (bit_or 0x80 (shl8 flag 6)) (bit_and slot 0x3f) in
    has_bit v 0x80 && bit_and v 0x3f == slot && bit_and v 0x40 == flag * 64

bonded_bits : (flag slot : ℕ) → flag < 2 → slot < 64 → bonded_test flag slot 0 ≡ true
unfolding bonded_test every_under
bonded_bits flag slot hf hs = table 2 64 1 bonded_test refl flag slot 0 hf hs (omega arith)

pub get_bonded-bonded_gate :
    (o : Option BondedSlotCondition) → BondedFits o → get_bonded (bonded_gate o) ≡ o
unfolding get_bonded bonded_test
get_bonded-bonded_gate none h = refl
get_bonded-bonded_gate (some b) h =
    ground (arith, bonded_bits (to_u8 b.bonded) b.slot (to_u8_lt b.bonded) h)
  where
    to_u8_lt : (b : Bool) → to_u8 b < 2
    to_u8_lt true = omega arith
    to_u8_lt false = omega arith

pub get_usb-usb_gate : (o : Option Bool) → get_usb (usb_gate o) ≡ ok o
unfolding get_usb
get_usb-usb_gate none = refl
get_usb-usb_gate (some true) = refl
get_usb-usb_gate (some false) = refl

pub connection_of_lem :
    (o : Option ConnectionCondition)
    → ConnectionFits o
    → connection_of (connection_or_default o) ≡ o
unfolding connection_of
connection_of_lem none h = refl
connection_of_lem (some c) h = ground arith
