-- ===== src/Wire/Types.antt =====
-- The values that the protocol carries. The field names and variants are those that
-- split_lighting.rs reads and builds.
use moergo_rmk.Prelude.{ℕ, Bool, List, Option}
use moergo_rmk.Wire.Rmk.{Foreign}

pub record IndicatorState : Type 0 where
  pub num_lock : Bool
  pub caps_lock : Bool
  pub scroll_lock : Bool
  pub compose : Bool
  pub kana : Bool

pub record ReplicatedContext : Type 0 where
  pub indicators : IndicatorState
  pub powered : Bool
  pub bonded_slots : ℕ

-- The three fields that replication uses, and the rest of the struct.
pub record LightingContext (F : Foreign) : Type 0 where
  pub indicators : IndicatorState
  pub powered : Bool
  pub bonded_slots : ℕ
  pub rest : F.ContextRest

pub data ChargeState : Type 0 where
  charging discharging unknown : ChargeState

pub data BatteryStatus : Type 0 where
  unavailable : BatteryStatus
  available : ChargeState → Option ℕ → BatteryStatus

pub record BatteryPair : Type 0 where
  pub left : BatteryStatus
  pub right : BatteryStatus

pub data BackgroundMode : Type 0 where
  solid breathe : BackgroundMode

pub record BackgroundState : Type 0 where
  pub enabled : Bool
  pub hue : ℕ
  pub saturation : ℕ
  pub value : ℕ
  pub speed : ℕ
  pub mode : BackgroundMode

pub record StandardMutableState : Type 0 where
  pub output_enabled : Bool
  pub output_brightness : ℕ
  pub background : BackgroundState

pub data OutputMode : Type 0 where
  always_on always_off powered_only : OutputMode

pub data LayerPolicy : Type 0 where
  effective_only active_stack : LayerPolicy

pub record ExtensionState : Type 0 where
  pub effect : ℕ
  pub palette : ℕ
  pub value : ℕ
  pub speed : ℕ

-- `len` says how many of the fixed-size `values` count.
pub record ExtensionReplicaParams : Type 0 where
  pub effect : ℕ
  pub len : ℕ
  pub values : List ℕ

pub record ExtensionLayerState : Type 0 where
  pub overlay : Option ℕ

pub record Rgb8 : Type 0 where
  pub r : ℕ
  pub g : ℕ
  pub b : ℕ

pub data BuiltinEffect : Type 0 where
  solid : Rgb8 → BuiltinEffect
  -- colour, period, phase, duty
  blink : Rgb8 → ℕ → ℕ → ℕ → BuiltinEffect
  -- colour, period, phase, step
  breathe : Rgb8 → ℕ → ℕ → ℕ → BuiltinEffect

-- A `LedSlot` is its index; `ttl_ms` is an `Option<NonZeroU32>`.
pub record OverlayCell : Type 0 where
  pub slot : ℕ
  pub effect : BuiltinEffect
  pub ttl_ms : Option ℕ

pub record SceneTableCell : Type 0 where
  pub layer : ℕ
  pub slot : ℕ
  pub effect : BuiltinEffect

pub record LayerCondition : Type 0 where
  pub layer : ℕ
  pub active : Bool

pub data ChargeCondition : Type 0 where
  any charging discharging unknown : ChargeCondition

pub record BatteryCondition : Type 0 where
  pub node : ℕ
  pub min_level : Option ℕ
  pub max_level : Option ℕ
  pub charge : ChargeCondition

pub data ActiveTransport : Type 0 where
  usb ble none_active : ActiveTransport

pub data BleState : Type 0 where
  advertising connected inactive : BleState

pub record BondedSlotCondition : Type 0 where
  pub slot : ℕ
  pub bonded : Bool

pub record ConnectionCondition : Type 0 where
  pub transport : Option ActiveTransport
  pub profile : Option ℕ
  pub ble_state : Option BleState
  pub bonded : Option BondedSlotCondition
  pub usb_connected : Option Bool

pub record EffectsCondition : Type 0 where
  pub enabled : Bool

pub record ConditionSet (F : Foreign) : Type 0 where
  pub layer : Option LayerCondition
  pub battery : Option BatteryCondition
  pub layers : Option F.LayersCondition
  pub indicators : Option F.IndicatorsCondition
  pub maintenance : Option F.MaintenanceCondition
  pub split_transport : Option F.SplitTransportCondition
  pub output_mode : Option OutputMode
  pub connection : Option ConnectionCondition
  pub effects : Option EffectsCondition

pub record RuntimeConditionalSceneCell (F : Foreign) : Type 0 where
  pub conditions : ConditionSet F
  pub slot : ℕ
  pub effect : BuiltinEffect

pub record ReplicaDigests : Type 0 where
  pub schema : ℕ
  pub revision : ℕ
  pub settings : ℕ
  pub overlay : ℕ
  pub scenes : ℕ
  pub conditional_scenes : ℕ
