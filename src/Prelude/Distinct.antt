-- ===== src/Prelude/Distinct.antt =====
-- Lists without two elements that a test identifies, and how they grow.
use Prim.Native.Nat.{◌+◌}
use mathlib.Core.Path.{◌≡◌, refl, ap}
use mathlib.Core.Bool.{Bool, true, false, not, ◌&&◌, ◌||◌}
use mathlib.Core.List.{List, [], ◌∷◌, ◌++◌}
use mathlib.Core.Option.{Option, none, some}
use native.Mathlib.Omega.{arith}
use moergo_rmk.Prelude.Lists.{any, find, keep, length}

module _ {ℓ} {A : Type ℓ} (p : A → Bool) where
  pub any-append : (xs ys : List A) → any p (xs ++ ys) ≡ (any p xs || any p ys)
  any-append [] ys = refl
  any-append (x ∷ xs) ys = ground (arith, any-append xs ys)

  -- The first match of `ys`, unless `xs` has one.
  abbrev pub find_from : Option A → List A → Option A
  find_from none ys = find p ys
  find_from (some x) ys = some x

  pub find-append : (xs ys : List A) → find p (xs ++ ys) ≡ find_from (find p xs) ys
  find-append [] ys = refl
  find-append (x ∷ xs) ys = ground (arith, find-append xs ys)

  pub find-none : (xs : List A) → any p xs ≡ false → find p xs ≡ none
  find-none [] h = refl
  find-none (x ∷ xs) h = ground (arith, find-none xs)

  pub any-none : (xs : List A) → find p xs ≡ none → any p xs ≡ false
  any-none [] h = refl
  any-none (x ∷ xs) h = ground (arith, any-none xs)

  pub length-keep-append :
      (xs ys : List A) → length (keep p (xs ++ ys)) ≡ length (keep p xs) + length (keep p ys)
  length-keep-append [] ys = omega arith
  length-keep-append (x ∷ xs) ys = ground (arith, length-keep-append xs ys)

module _ {ℓ} {A : Type ℓ} where
  pub keep-all : (xs : List A) → keep (λ x. true) xs ≡ xs
  keep-all [] = refl
  keep-all (x ∷ xs) = ap (◌∷◌ x) (keep-all xs)

module _ {ℓ} {A : Type ℓ} (same : A → A → Bool) where
  abbrev pub distinct : List A → Bool
  distinct [] = true
  distinct (x ∷ xs) = not (any (same x) xs) && distinct xs

  -- No element of the second list is the same as one of the first.
  abbrev pub fresh : List A → List A → Bool
  fresh old [] = true
  fresh old (x ∷ xs) = not (any (λ y. same y x) old) && fresh old xs

  pub fresh_nil : (xs : List A) → fresh [] xs ≡ true
  fresh_nil [] = refl
  fresh_nil (x ∷ xs) = fresh_nil xs

  pub fresh-append :
      (old : List A) (x : A) (xs : List A)
      → fresh old xs ≡ true
      → any (same x) xs ≡ false
      → fresh (old ++ (x ∷ [])) xs ≡ true
  fresh-append old x [] h k = refl
  fresh-append old x (y ∷ ys) h k =
      ground (arith, any-append (λ e. same e y) old (x ∷ []), fresh-append old x ys)

  pub distinct-append :
      (xs : List A) (x : A)
      → distinct xs ≡ true
      → any (λ y. same y x) xs ≡ false
      → distinct (xs ++ (x ∷ [])) ≡ true
  distinct-append [] x h k = refl
  distinct-append (y ∷ ys) x h k =
      ground (arith, any-append (same y) ys (x ∷ []), distinct-append ys x)
