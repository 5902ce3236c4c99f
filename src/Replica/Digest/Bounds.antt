-- ===== src/Replica/Digest/Bounds.antt =====
-- The width of the digests of `replica_digests`.
use moergo_rmk.Prelude.{
  ℕ, ◌/◌, ◌%◌, List, [], ◌∷◌, Option, none, some, inl, inr, arith, find, ◌==◌, Option-cases,
}
use moergo_rmk.Wire.Rmk.{Foreign, Sizes}
use moergo_rmk.Wire.Types.{
  BuiltinEffect, OverlayCell, SceneTableCell, RuntimeConditionalSceneCell, ExtensionReplicaParams,
}
use moergo_rmk.Wire.Fits.{IsU32, DigestsFit}
use moergo_rmk.Replica.Tables.{Tables, at_key}
use moergo_rmk.Replica.Snapshot.{Snapshot}
use moergo_rmk.Replica.Digest.{
  hash_byte, hash_bytes, hash_u16, hash_option, hash_effect, hash_overlay, hash_layer_scenes,
  hash_scenes, hash_rules, replica_digests,
}

pub hash_byte-IsU32 : (v h : ℕ) → IsU32 (hash_byte v h)
unfolding hash_byte
hash_byte-IsU32 v h = omega arith

pub hash_bytes-IsU32 : (vs : List ℕ) (h : ℕ) → IsU32 h → IsU32 (hash_bytes vs h)
hash_bytes-IsU32 [] h small = small
hash_bytes-IsU32 (v ∷ vs) h small = hash_bytes-IsU32 vs (hash_byte v h) (hash_byte-IsU32 v h)

hash_u16-IsU32 : (v h : ℕ) → IsU32 (hash_u16 v h)
hash_u16-IsU32 v h = hash_byte-IsU32 (v / 256 % 256) (hash_byte (v % 256) h)

pub hash_option-IsU32 {ℓ} :
    {A : Type ℓ} (f : A → List ℕ) (o : Option A) (h : ℕ) → IsU32 (hash_option f o h)
hash_option-IsU32 f none h = hash_byte-IsU32 0 h
hash_option-IsU32 f (some a) h = hash_bytes-IsU32 (f a) (hash_byte 1 h) (hash_byte-IsU32 1 h)

hash_effect-IsU32 : (e : BuiltinEffect) (h : ℕ) → IsU32 (hash_effect e h)
unfolding hash_effect
hash_effect-IsU32 e h = hash_u16-IsU32 _ _

hash_overlay-IsU32 :
    (cells : List OverlayCell) (slots : List ℕ) (h : ℕ)
    → IsU32 h
    → IsU32 (hash_overlay cells slots h)
hash_overlay-IsU32 cells [] h small = small
hash_overlay-IsU32 cells (slot ∷ slots) h small =
    elim (Option-cases (find (λ c. c.slot == slot) cells)) [
      | inl missing ↦ rw missing (hash_overlay-IsU32 cells slots h small)
      | inr (c, found) ↦ rw found (hash_overlay-IsU32 cells slots _ (hash_effect-IsU32 c.effect _))
    ]

hash_layer_scenes-IsU32 :
    (cells : List SceneTableCell) (layer : ℕ) (slots : List ℕ) (h : ℕ)
    → IsU32 h
    → IsU32 (hash_layer_scenes cells layer slots h)
hash_layer_scenes-IsU32 cells layer [] h small = small
hash_layer_scenes-IsU32 cells layer (slot ∷ slots) h small =
    elim (Option-cases (find (at_key layer slot) cells)) [
      | inl missing ↦ rw missing (hash_layer_scenes-IsU32 cells layer slots h small)
      | inr (c, found) ↦
          rw found (hash_layer_scenes-IsU32 cells layer slots _ (hash_effect-IsU32 c.effect _))
    ]

hash_scenes-IsU32 :
    (cells : List SceneTableCell) (slots layers : List ℕ) (h : ℕ)
    → IsU32 h
    → IsU32 (hash_scenes cells slots layers h)
hash_scenes-IsU32 cells slots [] h small = small
hash_scenes-IsU32 cells slots (layer ∷ layers) h small =
    hash_scenes-IsU32 cells slots layers _ (hash_layer_scenes-IsU32 cells layer slots h small)

hash_rules-IsU32 :
    {F : Foreign} (cs : List (RuntimeConditionalSceneCell F)) (h : ℕ)
    → IsU32 h
    → IsU32 (hash_rules cs h)
hash_rules-IsU32 [] h small = small
hash_rules-IsU32 (c ∷ cs) h small = hash_rules-IsU32 cs _ (hash_effect-IsU32 c.effect _)

module _ {F : Foreign} (z : Sizes) (T : Tables F) (values : ExtensionReplicaParams → List ℕ)
    (schema layer_capacity : ℕ) where
  -- Whatever the state holds, every digest of it is below 2^32: the attestation of a snapshot with a
  -- 32-bit revision fits its packet.
  pub replica_digests-DigestsFit :
      (s : Snapshot T)
      → IsU32 s.revision
      → DigestsFit (replica_digests z T values schema layer_capacity s)
  unfolding replica_digests
  replica_digests-DigestsFit s small = (
    small,
    search hash_option-IsU32,
    search (hash_overlay-IsU32, hash_u16-IsU32),
    search (hash_scenes-IsU32, hash_u16-IsU32),
    search (hash_rules-IsU32, hash_u16-IsU32),
  )
