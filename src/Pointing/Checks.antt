-- ===== src/Pointing/Checks.antt =====
-- What the checks of a configuration mean.
use moergo_rmk.Prelude.{
  ℕ, zero, suc, ◌<◌, ◌≤◌, ◌≡◌, refl, ap, subst, Bool, true, false, List, [], ◌∷◌, ◌++◌, append-nil,
  append_assoc, length-append, All, take, any, length, ok, ◌==◌, if◌then◌else◌, arith,
}
use moergo_rmk.Prelude.Distinct.{distinct, distinct-append}
use moergo_rmk.Pointing.Modes.{ℤ, pos, negsuc, PointingModeConfig, validate, validate_thresholds}
use moergo_rmk.Pointing.Wire.{
  PointingDeviceConfig, PointingLayerOverride, PointingConfig, Capacities,
}
use moergo_rmk.Pointing.Slots.{unique_from}

abbrev pub IsPositive : ℤ → Type 0
IsPositive (pos n) = 0 < n
IsPositive (negsuc n) = ⊥

-- The thresholds of a keypad mode are above zero.
abbrev pub ThresholdsPositive : PointingModeConfig → Type 0
ThresholdsPositive (PointingModeConfig.keypad axes x y keys tap) = IsPositive x × IsPositive y
ThresholdsPositive _ = Unit {0}

positive_lem : (x y : ℤ) → validate_thresholds x y ≡ ok tt → IsPositive x × IsPositive y
positive_lem (pos zero) y h = absurd (ground (arith, h))
positive_lem (negsuc n) y h = absurd (ground (arith, h))
positive_lem (pos (suc n)) (pos zero) h = absurd (ground (arith, h))
positive_lem (pos (suc n)) (pos (suc m)) h = (omega arith, omega arith)
positive_lem (pos (suc n)) (negsuc m) h = absurd (ground (arith, h))

pub validate-ThresholdsPositive :
    (m : PointingModeConfig) → validate m ≡ ok tt → ThresholdsPositive m
unfolding validate
validate-ThresholdsPositive (PointingModeConfig.cursor c b) h = tt
validate-ThresholdsPositive (PointingModeConfig.scroll mx dx my dy ix iy) h = tt
validate-ThresholdsPositive (PointingModeConfig.sniper m d ix iy) h = tt
validate-ThresholdsPositive (PointingModeConfig.caret axes t keys) h = tt
validate-ThresholdsPositive (PointingModeConfig.keypad axes x y keys tap) h = positive_lem x y h
validate-ThresholdsPositive (PointingModeConfig.drag c t l) h = tt
validate-ThresholdsPositive (PointingModeConfig.press c holds) h = tt

pub devices-ThresholdsPositive :
    (ds : List PointingDeviceConfig)
    → All (λ d. validate d.mode ≡ ok tt) ds
    → All (λ d. ThresholdsPositive d.mode) ds
devices-ThresholdsPositive [] all = tt
devices-ThresholdsPositive (d ∷ ds) (h, all) =
    (validate-ThresholdsPositive d.mode h, devices-ThresholdsPositive ds all)

pub overrides-ThresholdsPositive :
    (layer_count : ℕ) (os : List PointingLayerOverride)
    → All (λ o. (validate o.mode ≡ ok tt) × (o.layer < layer_count)) os
    → All (λ o. ThresholdsPositive o.mode × (o.layer < layer_count)) os
overrides-ThresholdsPositive layer_count [] all = tt
overrides-ThresholdsPositive layer_count (o ∷ os) ((h, layer), all) =
    ((validate-ThresholdsPositive o.mode h, layer), overrides-ThresholdsPositive layer_count os all)

abbrev pub same_device : PointingDeviceConfig → PointingDeviceConfig → Bool
same_device a b = a.device_id == b.device_id

take_length_lem : {A : Type 0} (xs ys : List A) → take (length xs) (xs ++ ys) ≡ xs
take_length_lem [] ys = refl
take_length_lem (x ∷ xs) ys = ap (◌∷◌ x) (take_length_lem xs ys)

passed_lem : (b rest : Bool) → (if b then false else rest) ≡ true → (b ≡ false) × (rest ≡ true)
passed_lem true rest h = absurd (ground (arith, h))
passed_lem false rest h = (refl, h)

-- The loop finds every pair, since it compares each device with all before it.
unique_lem :
    (before rest : List PointingDeviceConfig)
    → distinct same_device before ≡ true
    → unique_from (before ++ rest) (length before) rest ≡ true
    → distinct same_device (before ++ rest) ≡ true
unique_lem before [] apart h = rw (append-nil before) apart
unique_lem before (d ∷ rest) apart h =
    let (compared, others) =
      passed_lem (any (λ o. same_device o d) (take (length before) (before ++ (d ∷ rest)))) _ h in
    let fresh : any (λ o. same_device o d) before ≡ false =
      subst (λ l. any (λ o. same_device o d) l ≡ false) (take_length_lem before (d ∷ rest))
        compared in
    let joined : (before ++ (d ∷ [])) ++ rest ≡ before ++ (d ∷ rest) =
      append_assoc before (d ∷ []) rest in
    let longer : length (before ++ (d ∷ [])) ≡ suc (length before) =
      omega (arith, length-append before (d ∷ [])) in
    subst (λ l. distinct same_device l ≡ true) joined
      (unique_lem (before ++ (d ∷ [])) rest (distinct-append same_device before d apart fresh)
        (rw (joined, longer) others))

pub unique_from-distinct :
    (ds : List PointingDeviceConfig) → unique_from ds 0 ds ≡ true → distinct same_device ds ≡ true
unique_from-distinct ds h = unique_lem [] ds refl h

-- The checks that a configuration has passed.
pub record Checked (caps : Capacities) (layer_count : ℕ) (config : PointingConfig) : Type 0 where
  pub devices_fit : length config.devices ≤ caps.device_capacity
  pub overrides_fit : length config.overrides ≤ caps.override_capacity
  pub devices_distinct : distinct same_device config.devices ≡ true
  pub device_modes : All (λ d. ThresholdsPositive d.mode) config.devices
  pub override_modes :
      All (λ o. ThresholdsPositive o.mode × (o.layer < layer_count)) config.overrides
