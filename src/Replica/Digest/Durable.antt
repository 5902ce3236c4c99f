-- ===== src/Replica/Digest/Durable.antt =====
-- What `replica_digests` looks at.
use moergo_rmk.Prelude.{
  ℕ, ◌≤◌, ◌≡◌, refl, sym, ap, ◌∙◌, List, [], ◌∷◌, Option, none, some, length, find, keep, map, leb,
  All, ◌==◌, arith, length-map,
}
use moergo_rmk.Wire.Rmk.{Foreign, Sizes}
use moergo_rmk.Wire.Types.{
  BuiltinEffect, OverlayCell, ExtensionReplicaParams, ExtensionLayerState,
  RuntimeConditionalSceneCell, SceneTableCell,
}
use moergo_rmk.Replica.Tables.{Tables, at_key}
use moergo_rmk.Replica.Snapshot.{Snapshot}
use moergo_rmk.Replica.Replicates.{Replicates, replicated}
use moergo_rmk.Replica.Digest.{
  range, hash_effect, hash_overlay, hash_layer_scenes, hash_scenes, hash_rules, hash_u16,
  replica_digests, domain,
}
use moergo_rmk.Replica.Digest.Agreement.{
  All-range, hash_rules-replicated, same_digests, replica_digests-Replicates,
}

-- What of an overlay cell is durable: its slot and its effect, without the time to live.
abbrev pub lasting : Option OverlayCell → Option (ℕ × BuiltinEffect)
lasting none = none
lasting (some c) = some (c.slot, c.effect)

module _ {F : Foreign} (z : Sizes) (T : Tables F) where
  -- Snapshots that agree on what is durable, in the right half. Their times, contexts and wake layers,
  -- the times to live of their cells, the order of their overlay and scene cells, and what they hold
  -- for the left half are their own, as are the four predicates of a conditional cell that the link
  -- does not carry.
  pub record Agree (s t : Snapshot T) : Type 0 where
    pub same_revision : t.revision ≡ s.revision
    pub same_settings : t.settings ≡ s.settings
    pub same_output_mode : t.output_mode ≡ s.output_mode
    pub same_policy : T.policy t.scenes ≡ T.policy s.scenes
    pub same_extension : t.extension ≡ s.extension
    pub same_extension_layers : t.extension_layers ≡ s.extension_layers
    pub same_extension_params : t.extension_params ≡ s.extension_params
    pub same_overlay_params : t.extension_overlay_params ≡ s.extension_overlay_params
    pub same_overlay_count :
        length (keep (λ c. leb z.leds_per_half c.slot) (T.overlay_slice t.overlay))
        ≡ length (keep (λ c. leb z.leds_per_half c.slot) (T.overlay_slice s.overlay))
    pub same_overlay :
        (slot : ℕ)
        → z.leds_per_half ≤ slot
        → lasting (find (λ c. c.slot == slot) (T.overlay_slice t.overlay))
          ≡ lasting (find (λ c. c.slot == slot) (T.overlay_slice s.overlay))
    pub same_scenes_count :
        length (keep (λ c. leb z.leds_per_half c.slot) (T.scenes_iter t.scenes))
        ≡ length (keep (λ c. leb z.leds_per_half c.slot) (T.scenes_iter s.scenes))
    pub same_scenes :
        (layer slot : ℕ)
        → z.leds_per_half ≤ slot
        → find (at_key layer slot) (T.scenes_iter t.scenes)
          ≡ find (at_key layer slot) (T.scenes_iter s.scenes)
    pub same_rules :
        map replicated (keep (λ c. leb z.leds_per_half c.slot) (T.rules_iter t.rules))
        ≡ map replicated (keep (λ c. leb z.leds_per_half c.slot) (T.rules_iter s.rules))

-- A round of the loop over the slots, by what is durable of the cell.
abbrev hash_lasting : Option (ℕ × BuiltinEffect) → ℕ → ℕ
hash_lasting none h = h
hash_lasting (some (slot, effect)) h = hash_effect effect (hash_u16 slot h)

round_lem :
    (found : Option OverlayCell) (h : ℕ)
    → elim found [ none ↦ h | some c ↦ hash_effect c.effect (hash_u16 c.slot h) ]
      ≡ hash_lasting (lasting found) h
round_lem none h = refl
round_lem (some c) h = refl

module _ (bound : ℕ) where
  hash_overlay-lasting :
      (cells all : List OverlayCell) (slots : List ℕ) (h : ℕ)
      → ((slot : ℕ)
          → bound ≤ slot
          → lasting (find (λ c. c.slot == slot) cells) ≡ lasting (find (λ c. c.slot == slot) all))
      → All (λ slot. bound ≤ slot) slots
      → hash_overlay cells slots h ≡ hash_overlay all slots h
  hash_overlay-lasting cells all [] h same above = refl
  hash_overlay-lasting cells all (slot ∷ slots) h same (at, above) =
      ap (hash_overlay cells slots) (
        round_lem (find (λ c. c.slot == slot) cells) h
        ∙ ap (λ found. hash_lasting found h) (same slot at)
        ∙ sym (round_lem (find (λ c. c.slot == slot) all) h))
      ∙ hash_overlay-lasting cells all slots _ same above

  hash_layer_scenes-find :
      (cells all : List SceneTableCell) (layer : ℕ) (slots : List ℕ) (h : ℕ)
      → ((layer slot : ℕ)
          → bound ≤ slot
          → find (at_key layer slot) cells ≡ find (at_key layer slot) all)
      → All (λ slot. bound ≤ slot) slots
      → hash_layer_scenes cells layer slots h ≡ hash_layer_scenes all layer slots h
  hash_layer_scenes-find cells all layer [] h same above = refl
  hash_layer_scenes-find cells all layer (slot ∷ slots) h same (at, above) =
      rw (same layer slot at) (hash_layer_scenes-find cells all layer slots _ same above)

  hash_scenes-find :
      (cells all : List SceneTableCell) (slots layers : List ℕ) (h : ℕ)
      → ((layer slot : ℕ)
          → bound ≤ slot
          → find (at_key layer slot) cells ≡ find (at_key layer slot) all)
      → All (λ slot. bound ≤ slot) slots
      → hash_scenes cells slots layers h ≡ hash_scenes all slots layers h
  hash_scenes-find cells all slots [] h same above = refl
  hash_scenes-find cells all slots (layer ∷ layers) h same above =
      rw (hash_layer_scenes-find cells all layer slots h same above)
        (hash_scenes-find cells all slots layers _ same above)

module _ {F : Foreign} (z : Sizes) (T : Tables F) (values : ExtensionReplicaParams → List ℕ)
    (schema layer_capacity : ℕ) where
  right_above : All (λ slot. z.leds_per_half ≤ slot) (range z.leds_per_half z.leds_per_half)
  right_above = All-range z.leds_per_half z.leds_per_half z.leds_per_half (omega arith)

  -- The count of the rules, and the rules.
  hash_rules-map :
      (xs ys : List (RuntimeConditionalSceneCell F)) (h : ℕ)
      → map replicated xs ≡ map replicated ys
      → hash_rules xs (hash_u16 (length xs) h) ≡ hash_rules ys (hash_u16 (length ys) h)
  hash_rules-map xs ys h same =
      let count : length xs ≡ length ys =
        sym (length-map (replicated {F = F}) xs)
        ∙ ap length same
        ∙ length-map (replicated {F = F}) ys in
      rw count (
        sym (hash_rules-replicated z.leds_per_half xs _)
        ∙ ap (λ l. hash_rules l (hash_u16 (length ys) h)) same
        ∙ hash_rules-replicated z.leds_per_half ys _)

  replica_digests-Agree :
      (s t : Snapshot T)
      → Agree z T s t
      → replica_digests z T values schema layer_capacity t
        ≡ replica_digests z T values schema layer_capacity s
  unfolding replica_digests
  replica_digests-Agree s t h =
      same_digests z T values schema layer_capacity h.same_revision
        (rw (
          h.same_settings, h.same_output_mode, h.same_policy, h.same_extension,
          h.same_extension_layers, h.same_extension_params, h.same_overlay_params,
        ))
        (rw h.same_overlay_count (
          hash_overlay-lasting z.leds_per_half (T.overlay_slice t.overlay)
            (T.overlay_slice s.overlay) _ _ h.same_overlay right_above))
        (rw h.same_scenes_count (
          hash_scenes-find z.leds_per_half (T.scenes_iter t.scenes) (T.scenes_iter s.scenes) _
            (range 0 layer_capacity)
            (hash_u16 (length (keep (λ c. leb z.leds_per_half c.slot) (T.scenes_iter s.scenes)))
              (domain schema 3))
            h.same_scenes right_above))
        (hash_rules-map _ _ (domain schema 4) h.same_rules)

  -- The digests of a replica are those of the state that it replicates, when the state has its
  -- extension layers, and they stay the same while the replica changes in what is not durable: for
  -- every snapshot that agrees with the replica on the revision, the settings and, in the right half,
  -- the overlay cells without their times to live, the scene cells, and the conditional cells without
  -- the four predicates that the link does not carry. Its time, its context, its wake layers and its
  -- left half may be others.
  pub replica_digests-lasting :
      (s s' t : Snapshot T) (layers : ExtensionLayerState)
      → Replicates T z s s'
      → s.extension_layers ≡ some layers
      → Agree z T s' t
      → replica_digests z T values schema layer_capacity t
        ≡ replica_digests z T values schema layer_capacity s
  replica_digests-lasting s s' t layers replica known agree =
      replica_digests-Agree s' t agree
      ∙ replica_digests-Replicates z T values schema layer_capacity s s' replica layers known
