-- ===== src/Replica/Digest/Agreement.antt =====
-- A replica has the digests of its sender.
use moergo_rmk.Prelude.{
  ℕ, zero, suc, ◌≤◌, ◌≡◌, refl, ap, ◌∙◌, Bool, true, List, [], ◌∷◌, some, length, find, keep, map,
  leb, All, ◌==◌, arith, length-map,
}
use moergo_rmk.Wire.Rmk.{Foreign, Sizes}
use moergo_rmk.Wire.Types.{
  ReplicaDigests, ExtensionReplicaParams, ExtensionLayerState, OverlayCell, SceneTableCell,
  RuntimeConditionalSceneCell,
}
use moergo_rmk.Replica.Tables.{Tables, at_key}
use moergo_rmk.Replica.Snapshot.{Snapshot}
use moergo_rmk.Replica.Walk.{right_rules}
use moergo_rmk.Replica.Replicates.{Replicates, replicated}
use moergo_rmk.Replica.Digest.{
  range, hash_overlay, hash_layer_scenes, hash_scenes, hash_rules, hash_conditions, hash_u16,
  right_slots, replica_digests, settings_digest, domain,
}

module _ {ℓ} {A : Type ℓ} (p : A → Bool) where
  keep-keep : (xs : List A) → keep p (keep p xs) ≡ keep p xs
  keep-keep [] = refl
  keep-keep (x ∷ xs) = ground (arith, keep-keep xs)

  -- A search among the kept elements finds what it finds among all, when it looks for a kept one.
  find-keep :
      (q : A → Bool)
      → ((x : A) → q x ≡ true → p x ≡ true)
      → (xs : List A) → find q (keep p xs) ≡ find q xs
  find-keep q only [] = refl
  find-keep q only (x ∷ xs) = ground (arith, find-keep q only xs, only x)

pub All-range : (lo bound n : ℕ) → bound ≤ lo → All (λ slot. bound ≤ slot) (range lo n)
All-range lo bound zero h = tt
All-range lo bound (suc n) h = (h, All-range (suc lo) bound n (omega (arith, h)))

module _ (bound : ℕ) where
  hash_overlay_lem :
      (all : List OverlayCell) (slots : List ℕ) (h : ℕ)
      → All (λ slot. bound ≤ slot) slots
      → hash_overlay (keep (λ c. leb bound c.slot) all) slots h ≡ hash_overlay all slots h
  hash_overlay_lem all [] h above = refl
  hash_overlay_lem all (slot ∷ slots) h (at, above) =
      rw
        (find-keep (λ c. leb bound c.slot) (λ c. c.slot == slot) (λ c found. ground (arith, at))
          all)
        (hash_overlay_lem all slots _ above)

  -- The same finds give the same hash.
  hash_layer_scenes_lem :
      (cells all : List SceneTableCell) (layer : ℕ) (slots : List ℕ) (h : ℕ)
      → ((layer slot : ℕ)
          → find (at_key layer slot) cells
            ≡ find (at_key layer slot) (keep (λ c. leb bound c.slot) all))
      → All (λ slot. bound ≤ slot) slots
      → hash_layer_scenes cells layer slots h ≡ hash_layer_scenes all layer slots h
  hash_layer_scenes_lem cells all layer [] h finds above = refl
  hash_layer_scenes_lem cells all layer (slot ∷ slots) h finds (at, above) =
      rw
        (finds layer slot
          ∙ find-keep (λ c. leb bound c.slot) (at_key layer slot) (λ c found. ground (arith, at))
              all)
        (hash_layer_scenes_lem cells all layer slots _ finds above)

  hash_scenes_lem :
      (cells all : List SceneTableCell) (slots layers : List ℕ) (h : ℕ)
      → ((layer slot : ℕ)
          → find (at_key layer slot) cells
            ≡ find (at_key layer slot) (keep (λ c. leb bound c.slot) all))
      → All (λ slot. bound ≤ slot) slots
      → hash_scenes cells slots layers h ≡ hash_scenes all slots layers h
  hash_scenes_lem cells all slots [] h finds above = refl
  hash_scenes_lem cells all slots (layer ∷ layers) h finds above =
      rw (hash_layer_scenes_lem cells all layer slots h finds above)
        (hash_scenes_lem cells all slots layers _ finds above)

module _ {F : Foreign} (bound : ℕ) where
  -- Cells keep their slots on the way.
  keep-replicated :
      (cells : List (RuntimeConditionalSceneCell F))
      → keep (λ c. leb bound c.slot) (map replicated (keep (λ c. leb bound c.slot) cells))
        ≡ map replicated (keep (λ c. leb bound c.slot) cells)
  keep-replicated [] = refl
  keep-replicated (c ∷ cs) = ground (arith, keep-replicated cs)

  pub hash_rules-replicated :
      (cells : List (RuntimeConditionalSceneCell F)) (h : ℕ)
      → hash_rules (map replicated cells) h ≡ hash_rules cells h
  unfolding hash_conditions
  hash_rules-replicated [] h = refl
  hash_rules-replicated (c ∷ cs) h = hash_rules-replicated cs _

module _ {F : Foreign} (z : Sizes) (T : Tables F) (values : ExtensionReplicaParams → List ℕ)
    (schema layer_capacity : ℕ) where
  abbrev pub digests_of : ℕ → ℕ → ℕ → ℕ → ℕ → ReplicaDigests
  digests_of revision settings overlay scenes rules = record {
    schema = schema;
    revision = revision;
    settings = settings;
    overlay = overlay;
    scenes = scenes;
    conditional_scenes = rules;
  }

  pub same_digests :
      {a a' b b' c c' d d' e e' : ℕ}
      → a ≡ a'
      → b ≡ b'
      → c ≡ c'
      → d ≡ d'
      → e ≡ e'
      → digests_of a b c d e ≡ digests_of a' b' c' d' e'
  same_digests p q r t u i = digests_of (p i) (q i) (r i) (t i) (u i)

  module _ (s s' : Snapshot T) (replica : Replicates T z s s') where
    settings_agree :
        (layers : ExtensionLayerState)
        → s.extension_layers ≡ some layers
        → settings_digest values schema s'.settings s'.output_mode
            (T.policy s'.scenes)
            s'.extension
            s'.extension_layers
            s'.extension_params
            s'.extension_overlay_params
          ≡ settings_digest values schema s.settings s.output_mode
              (T.policy s.scenes)
              s.extension
              s.extension_layers
              s.extension_params
              s.extension_overlay_params
    settings_agree layers known =
        rw (replica.1, replica.2, replica.6, replica.7, replica.8, replica.9, replica.11, known)

    overlay_agrees :
        hash_overlay (T.overlay_slice s'.overlay) (right_slots z T values schema layer_capacity) (
          hash_u16
            (length (keep (λ c. leb z.leds_per_half c.slot) (T.overlay_slice s'.overlay)))
            (domain schema 2))
        ≡ hash_overlay (T.overlay_slice s.overlay) (right_slots z T values schema layer_capacity) (
            hash_u16
              (length (keep (λ c. leb z.leds_per_half c.slot) (T.overlay_slice s.overlay)))
              (domain schema 2))
    overlay_agrees =
        rw (replica.10, keep-keep (λ c. leb z.leds_per_half c.slot) (T.overlay_slice s.overlay))
          (hash_overlay_lem z.leds_per_half (T.overlay_slice s.overlay) _ _
            (All-range z.leds_per_half z.leds_per_half z.leds_per_half (omega arith)))

    scenes_agree :
        hash_scenes
          (T.scenes_iter s'.scenes)
          (right_slots z T values schema layer_capacity)
          (range 0 layer_capacity)
          (hash_u16
            (length (keep (λ c. leb z.leds_per_half c.slot) (T.scenes_iter s'.scenes)))
            (domain schema 3))
        ≡ hash_scenes
            (T.scenes_iter s.scenes)
            (right_slots z T values schema layer_capacity)
            (range 0 layer_capacity)
            (hash_u16
              (length (keep (λ c. leb z.leds_per_half c.slot) (T.scenes_iter s.scenes)))
              (domain schema 3))
    scenes_agree =
        rw
          (replica.12.1 (λ c. leb z.leds_per_half c.slot)
            ∙ ap length (keep-keep (λ c. leb z.leds_per_half c.slot) (T.scenes_iter s.scenes)))
          (hash_scenes_lem z.leds_per_half (T.scenes_iter s'.scenes) (T.scenes_iter s.scenes)
            (right_slots z T values schema layer_capacity) (range 0 layer_capacity)
            (hash_u16 (length (keep (λ c. leb z.leds_per_half c.slot) (T.scenes_iter s.scenes)))
              (domain schema 3))
            (replica.12.0)
            (All-range z.leds_per_half z.leds_per_half z.leds_per_half (omega arith)))

    abbrev hash_right : List (RuntimeConditionalSceneCell F) → ℕ
    hash_right rules = hash_rules rules (hash_u16 (length rules) (domain schema 4))

    rules_agree :
        hash_right (keep (λ c. leb z.leds_per_half c.slot) (T.rules_iter s'.rules))
        ≡ hash_right (keep (λ c. leb z.leds_per_half c.slot) (T.rules_iter s.rules))
    rules_agree =
        rw
          (
            replica.13,
            keep-replicated z.leds_per_half (T.rules_iter s.rules),
            length-map (replicated {F = F}) (right_rules z T s),
          )
          (hash_rules-replicated z.leds_per_half (right_rules z T s) _)

    -- A replica of a state that has its extension layers has the digests of that state.
    pub replica_digests-Replicates :
        (layers : ExtensionLayerState)
        → s.extension_layers ≡ some layers
        → replica_digests z T values schema layer_capacity s'
          ≡ replica_digests z T values schema layer_capacity s
    unfolding replica_digests
    replica_digests-Replicates layers known =
        same_digests (replica.0) (settings_agree layers known) overlay_agrees scenes_agree
          rules_agree
