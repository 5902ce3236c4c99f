-- ===== src/Wire/Fits.antt =====
-- The messages that the byte form can carry: the ranges of the integer types, and the values that
-- an arm of `encode` does not fold into another.
use moergo_rmk.Prelude.{
  ℕ, ◌^◌, ◌-◌, ◌≤◌, ◌<◌, ◌≡◌, ◌≢◌, ◌⊎◌, List, ◌++◌, Option, none, some, length, replicate,
}
use moergo_rmk.Wire.Rmk.{Foreign, LayerOps, Sizes, total_leds}
use moergo_rmk.Wire.Types.{
  BatteryStatus, ExtensionReplicaParams, BuiltinEffect, LayerCondition, BatteryCondition,
  ConnectionCondition, BondedSlotCondition, ReplicaDigests, RuntimeConditionalSceneCell,
}
use moergo_rmk.Wire.Message.{Message}

abbrev pub IsU16 : ℕ → Type 0
IsU16 v = v < 2 ^ 16

abbrev pub IsU32 : ℕ → Type 0
IsU32 v = v < 2 ^ 32

abbrev pub IsU64 : ℕ → Type 0
IsU64 v = v < 2 ^ 64

-- A predicate on the value of an option, true of `none`.
abbrev pub OnSome : (ℕ → Type 0) → Option ℕ → Type 0
OnSome P none = Unit {0}
OnSome P (some v) = P v

-- A battery level is a percentage.
abbrev pub BatteryFits : BatteryStatus → Type 0
BatteryFits BatteryStatus.unavailable = Unit {0}
BatteryFits (BatteryStatus.available _ level) = OnSome (λ v. v ≤ 100) level

abbrev pub EffectFits : BuiltinEffect → Type 0
EffectFits (BuiltinEffect.solid c) = Unit {0}
EffectFits (BuiltinEffect.blink c period phase duty) = IsU32 period × IsU32 phase × (duty ≤ 100)
EffectFits (BuiltinEffect.breathe c period phase step) = IsU32 period × IsU32 phase × IsU16 step

-- Layer 63 would read as no gate.
abbrev pub LayerFits : Option LayerCondition → Type 0
LayerFits none = Unit {0}
LayerFits (some c) = c.layer < 63

-- Node 63 with an unknown charge would read as no gate.
abbrev pub BatteryConditionFits : Option BatteryCondition → Type 0
BatteryConditionFits none = Unit {0}
BatteryConditionFits (some c) =
    (c.node < 63) × OnSome (λ v. v < 255) c.min_level × OnSome (λ v. v < 255) c.max_level

abbrev pub BondedFits : Option BondedSlotCondition → Type 0
BondedFits none = Unit {0}
BondedFits (some b) = b.slot < 64

-- A condition without a predicate would read as no condition.
abbrev pub ConnectionFits : Option ConnectionCondition → Type 0
ConnectionFits none = Unit {0}
ConnectionFits (some c) =
    OnSome (λ v. v < 128) c.profile
    × BondedFits c.bonded
    × ((c.transport ≢ none)
        ⊎ (c.profile ≢ none)
        ⊎ (c.ble_state ≢ none)
        ⊎ (c.bonded ≢ none)
        ⊎ (c.usb_connected ≢ none))

abbrev pub DigestsFit : ReplicaDigests → Type 0
DigestsFit d =
    IsU32 d.revision
    × IsU32 d.settings
    × IsU32 d.overlay
    × IsU32 d.scenes
    × IsU32 d.conditional_scenes

-- What the packet of a conditional cell carries of it.
abbrev pub cell_part : {F : Foreign} → RuntimeConditionalSceneCell F → RuntimeConditionalSceneCell F
cell_part c = record {
  conditions = record {
    layer = c.conditions.layer;
    battery = c.conditions.battery;
    layers = none;
    indicators = none;
    maintenance = none;
    split_transport = none;
    output_mode = c.conditions.output_mode;
    connection = none;
    effects = none;
  };
  slot = c.slot;
  effect = c.effect;
}

-- What the packet of a message carries of it.
abbrev pub carried : {F : Foreign} → Message F → Message F
carried (Message.conditional_scene_cell g r c) = Message.conditional_scene_cell g r (cell_part c)
carried m = m

module _ (z : Sizes) where
  -- A slot of the right half, in a byte.
  abbrev pub SlotFits : ℕ → Type 0
  SlotFits slot = (z.leds_per_half ≤ slot) × (slot < total_leds z)

  module _ (values : ExtensionReplicaParams → List ℕ) where
    -- At least one value counts, and the others are zero.
    abbrev pub ParamsFit : Option ExtensionReplicaParams → Type 0
    ParamsFit none = Unit {0}
    ParamsFit (some p) =
        (0 < p.len)
        × (p.len < 256)
        × (p.len ≤ z.param_chunk)
        × (length (values p) ≡ p.len)
        × (p.values ≡ values p ++ replicate (z.param_chunk - p.len) 0)

-- A non-zero 32-bit number, or none.
abbrev pub TtlFits : Option ℕ → Type 0
TtlFits none = Unit {0}
TtlFits (some v) = (0 < v) × IsU32 v

module _ {F : Foreign} (z : Sizes) (ops : LayerOps F)
    (values : ExtensionReplicaParams → List ℕ) where
  -- What a packet can carry, for each variant.
  abbrev pub Fits : Message F → Type 0
  Fits (Message.begin g r cells scenes policy time m mode) = IsU32 r × IsU64 time
  Fits (Message.wake_layers g r w) = IsU32 r × IsU64 w
  Fits (Message.context g r c b) = IsU32 r × BatteryFits b.left × BatteryFits b.right
  Fits (Message.context_update g r c b) = IsU32 r × BatteryFits b.left × BatteryFits b.right
  Fits (Message.extension g r e p) = IsU32 r × ParamsFit z values p
  Fits (Message.extension_overlay g r o p) = IsU32 r × ParamsFit z values p
  Fits (Message.cell g r c) = IsU32 r × SlotFits z c.slot × EffectFits c.effect × TtlFits c.ttl_ms
  Fits (Message.scene_cell g r c) = IsU32 r × SlotFits z c.slot × EffectFits c.effect
  Fits (Message.conditional_scene_begin g r n) = IsU32 r
  Fits (Message.conditional_scene_cell g r c) =
      IsU32 r
      × SlotFits z c.slot
      × EffectFits c.effect
      × LayerFits c.conditions.layer
      × BatteryConditionFits c.conditions.battery
  Fits (Message.conditional_scene_ext g r c e) = IsU32 r × ConnectionFits c
  Fits (Message.commit g r cells scenes) = IsU32 r
  Fits (Message.ack g r) = IsU32 r
  Fits (Message.effect_hit slot) = slot < total_leds z
  Fits (Message.attestation g d) = DigestsFit d
  Fits (Message.replica_probe g) = Unit {0}
  Fits (Message.status_request id) = Unit {0}
  -- `LayerState::new` rebuilds a layer state from its parts.
  Fits (Message.status_report id applied engine layers p w o) =
      OnSome IsU32 applied
      × IsU32 engine
      × IsU64 (ops.active_bits layers)
      × (ops.new (ops.effective layers) (ops.default_layer layers) (ops.active_bits layers)
          ≡ layers)
  Fits (Message.frame_chunk_request id offset) = IsU16 offset
  Fits (Message.frame_chunk id revision total start len c0 c1 c2 c3) =
      OnSome IsU32 revision × IsU16 total × IsU16 start × (len ≤ 4)
  Fits (Message.transport_status auto wired) = Unit {0}
  Fits (Message.debug_trace s b r0 r1 c0 c1) =
      IsU32 s × IsU32 b × IsU32 r0 × IsU32 r1 × IsU32 c0 × IsU32 c1
  Fits (Message.debug_panic_loc len text) = (len ≤ 23) × (length text ≡ 23)
