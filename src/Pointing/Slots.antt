-- ===== src/Pointing/Slots.antt =====
-- What the loops over the devices and the overrides check and fill.
use moergo_rmk.Prelude.{
  ℕ, suc, ◌<◌, ◌≡◌, refl, sym, ap, ap₂, ◌∙◌, Bool, true, false, List, [], ◌∷◌, All, map, take, any,
  length, Result, ok, err, ◌>>=◌, ◌==◌, ltb, ==_refl, if◌then◌else◌, arith,
}
use moergo_rmk.Pointing.Modes.{PointingError, KeyCodes, validate}
use moergo_rmk.Pointing.Wire.{
  PointingDeviceConfig, PointingLayerOverride, WireDevice, WireOverride, set_slot, listed,
  device_to_wire, override_to_wire, put_devices, put_overrides,
}

-- A round of a loop that succeeds: the mode is valid, the test passes, and the rest succeeds.
pub round_ok :
    {A : Type 0} (r : Result PointingError (Unit {0})) (b : Bool) (e : PointingError)
    (x : Result PointingError A) (y : A)
    → (r >>= (λ checked. if b then err e else x)) ≡ ok y
    → (r ≡ ok tt) × (b ≡ false) × (x ≡ ok y)
round_ok (ok tt) true e x y h = absurd (ground (arith, h))
round_ok (ok tt) false e x y h = (refl, refl, h)
round_ok (err z) b e x y h = absurd (ground (arith, h))

pub round_ok_else :
    {A : Type 0} (r : Result PointingError (Unit {0})) (b : Bool) (e : PointingError)
    (x : Result PointingError A) (y : A)
    → (r >>= (λ checked. if b then x else err e)) ≡ ok y
    → (r ≡ ok tt) × (b ≡ true) × (x ≡ ok y)
round_ok_else (ok tt) true e x y h = (refl, refl, h)
round_ok_else (ok tt) false e x y h = absurd (ground (arith, h))
round_ok_else (err z) b e x y h = absurd (ground (arith, h))

abbrev pub value_or : {A : Type 0} → A → Result PointingError A → A
value_or d (ok a) = a
value_or d (err e) = d

set_slot_same : {A : Type 0} (i : ℕ) (a : A) (slots : ℕ → A) → set_slot i a slots i ≡ a
set_slot_same i a slots = rw (==_refl i)

set_slot_other :
    {A : Type 0} (i j : ℕ) (a : A) (slots : ℕ → A) → j < i → set_slot i a slots j ≡ slots j
set_slot_other i j a slots below = ground arith

-- No device of the list has the identifier of one before it; `all` is the whole list.
abbrev pub unique_from : List PointingDeviceConfig → ℕ → List PointingDeviceConfig → Bool
unique_from all slot [] = true
unique_from all slot (d ∷ rest) =
    if any (λ old. old.device_id == d.device_id) (take slot all)
    then false
    else unique_from all (suc slot) rest

module _ (K : KeyCodes) where
  -- The slots that the loop over the devices fills, and what it has checked.
  pub put_devices_ok :
      (all : List PointingDeviceConfig) (slot : ℕ) (rest : List PointingDeviceConfig)
      (slots slots' : ℕ → WireDevice K)
      → put_devices K all slot rest slots ≡ ok slots'
      → (listed slot (length rest) slots' ≡ map (device_to_wire K) rest)
        × ((i : ℕ) → i < slot → slots' i ≡ slots i)
        × (unique_from all slot rest ≡ true)
        × All (λ d. validate d.mode ≡ ok tt) rest
  unfolding put_devices
  put_devices_ok all slot [] slots slots' h =
      (refl, λ i below. sym (ap (λ r. value_or slots r i) h), refl, tt)
  put_devices_ok all slot (d ∷ rest) slots slots' h =
      let (valid, fresh, others) =
        round_ok (validate d.mode) (any (λ old. old.device_id == d.device_id) (take slot all))
          PointingError.duplicate_device _ slots' h in
      let (same, kept, unique, modes) =
        put_devices_ok all (suc slot) rest (set_slot slot (device_to_wire K d) slots) slots'
          others in
      (
        ap₂ (λ x xs. x ∷ xs)
            (kept slot (omega arith) ∙ set_slot_same slot (device_to_wire K d) slots) same,
        λ i below.
            kept i (omega (arith, below)) ∙ set_slot_other slot i (device_to_wire K d) slots below,
        rw fresh unique,
        (valid, modes),
      )

  pub put_overrides_ok :
      (layer_count slot : ℕ) (rest : List PointingLayerOverride) (slots slots' : ℕ → WireOverride K)
      → put_overrides K layer_count slot rest slots ≡ ok slots'
      → (listed slot (length rest) slots' ≡ map (override_to_wire K) rest)
        × ((i : ℕ) → i < slot → slots' i ≡ slots i)
        × All (λ o. (validate o.mode ≡ ok tt) × (o.layer < layer_count)) rest
  unfolding put_overrides
  put_overrides_ok layer_count slot [] slots slots' h =
      (refl, λ i below. sym (ap (λ r. value_or slots r i) h), tt)
  put_overrides_ok layer_count slot (o ∷ rest) slots slots' h =
      let (valid, layer, others) =
        round_ok_else (validate o.mode) (ltb o.layer layer_count) PointingError.missing_layer _
          slots' h in
      let (same, kept, modes) =
        put_overrides_ok layer_count (suc slot) rest (set_slot slot (override_to_wire K o) slots)
          slots' others in
      (
        ap₂ (λ x xs. x ∷ xs)
            (kept slot (omega arith) ∙ set_slot_same slot (override_to_wire K o) slots) same,
        λ i below.
            kept i (omega (arith, below))
            ∙ set_slot_other slot i (override_to_wire K o) slots below,
        ((valid, ground (arith, layer)), modes),
      )
