-- ===== src/Peripheral/Snapshots.antt =====
-- A snapshot on the wire, from the central's encoder to what the peripheral publishes.
use moergo_rmk.Prelude.{
  ◌%◌, ℕ, ok, ◌≤◌, ◌≡◌, refl, ap, ◌∙◌, Bool, true, false, List, [], ◌∷◌, ◌++◌, Option, none, map,
  All, All-append, if◌then◌else◌, length, ◌||◌,
}
use moergo_rmk.Wire.Rmk.{Foreign, LayerOps, Sizes}
use moergo_rmk.Wire.Types.{ExtensionReplicaParams, BatteryPair, RuntimeConditionalSceneCell}
use moergo_rmk.Wire.Message.{Message}
use moergo_rmk.Wire.Encode.{packet}
use moergo_rmk.Wire.Encode.Side.{is_some}
use moergo_rmk.Wire.Decode.{decode}
use moergo_rmk.Wire.Fits.{Fits, carried}
use moergo_rmk.Wire.RoundTrip.{decode-packet}
use moergo_rmk.Replica.Tables.{Tables, TableLaws}
use moergo_rmk.Replica.Snapshot.{Snapshot}
use moergo_rmk.Replica.Walk.{
  right_overlay, right_scenes, right_rules, snapshot_counts, snapshot_packets, rule_packets,
  all_rule_packets,
}
use moergo_rmk.Replica.Stage.{Receiver}
use moergo_rmk.Replica.Replicates.{Replicates}
use moergo_rmk.Replica.Transfer.{SizesFit, Sendable, receive-snapshot_packets}
use moergo_rmk.Peripheral.{Effect, process_all}
use moergo_rmk.Peripheral.Delivery.{is_staged, process_all-receive, publish_all}

module _ {ℓ} {A : Type ℓ} (P : A → Type 0) where
  All-map : {B : Type ℓ} (f : B → A) → ((b : B) → P (f b)) → (bs : List B) → All P (map f bs)
  All-map f h [] = tt
  All-map f h (b ∷ bs) = (h b, All-map f h bs)

  All-if : (test : Bool) (x : A) → P x → All P (if test then x ∷ [] else [])
  All-if true x p = (p, tt)
  All-if false x p = tt

  All-× : (Q : A → Type 0) (xs : List A) → All P xs → All Q xs → All (λ x. P x × Q x) xs
  All-× Q [] px qx = tt
  All-× Q (x ∷ xs) (p, px) (q, qx) = ((p, q), All-× Q xs px qx)

module _ {F : Foreign} (z : Sizes) (T : Tables F) where
  -- Every packet of a transaction goes to the stage.
  abbrev Staged : Message F → Type 0
  Staged m = is_staged z T (carried m) ≡ true

  rules-Staged :
      (g r : ℕ) (cells : List (RuntimeConditionalSceneCell F))
      → All Staged (all_rule_packets g r cells)
  rules-Staged g r [] = tt
  rules-Staged g r (c ∷ cs) =
      All-append Staged (rule_packets g r c) (all_rule_packets g r cs)
        (
          refl,
          All-if Staged (is_some c.conditions.connection || is_some c.conditions.effects) _ refl,
        )
        (rules-Staged g r cs)

  snapshot_packets-Staged :
      (g : ℕ) (s : Snapshot T) (b : BatteryPair)
      → All Staged (snapshot_packets z T g s b (snapshot_counts z T s))
  unfolding snapshot_packets
  snapshot_packets-Staged g s b =
      let n = length (right_overlay z T s) % 256 in
      let p = length (right_scenes z T s) % 256 in
      let q = length (right_rules z T s) % 256 in
      let cells = map (Message.cell g s.revision) (right_overlay z T s) in
      let scenes = map (Message.scene_cell g s.revision) (right_scenes z T s) in
      let rules = all_rule_packets g s.revision (right_rules z T s) in
      let end = Message.commit g s.revision n p ∷ [] in
      let rest = Message.conditional_scene_begin g s.revision q ∷ (rules ++ end) in
      let from_rest : All Staged rest = (
        refl,
        All-append Staged rules end (rules-Staged g s.revision (right_rules z T s)) (refl, tt),
      ) in
      let from_scenes =
        All-append Staged scenes rest
          (All-map Staged (Message.scene_cell g s.revision) (λ c. refl) (right_scenes z T s))
          from_rest in
      let from_cells =
        All-append Staged cells (scenes ++ rest)
          (All-map Staged (Message.cell g s.revision) (λ c. refl) (right_overlay z T s))
          from_scenes in
      (refl, (refl, (refl, (refl, (refl, from_cells)))))

module _ {F : Foreign} (z : Sizes) (T : Tables F) (laws : TableLaws z T) (fit : SizesFit z T)
    (ops : LayerOps F) (values : ExtensionReplicaParams → List ℕ)
    (small : z.leds_per_half ≤ 64) where
  All-Delivers :
      (tag : ℕ) (applied : Option ℕ) (ms : List (Message F))
      → All (Fits z ops values) ms
      → All (λ m. decode z ops (packet z ops values m) ≡ ok (carried m)) ms
  All-Delivers tag applied [] all = tt
  All-Delivers tag applied (m ∷ ms) (f, all) =
      (decode-packet z ops values small m f, All-Delivers tag applied ms all)

  pub process_all-snapshot_packets :
      (tag : ℕ) (applied : Option ℕ) (g : ℕ) (s : Snapshot T) (b : BatteryPair) (rx : Receiver T)
      → Sendable z T s
      → All (Fits z ops values) (snapshot_packets z T g s b (snapshot_counts z T s))
      → (s' : Snapshot T) × ((process_all z T ops tag applied
            (map (packet z ops values) (snapshot_packets z T g s b (snapshot_counts z T s)))
            rx).0.stage
          ≡ none)
        × ((process_all z T ops tag applied
              (map (packet z ops values) (snapshot_packets z T g s b (snapshot_counts z T s)))
              rx).1
            ≡ Effect.publish g s' b ∷ [])
        × Replicates T z s s'
  process_all-snapshot_packets tag applied g s b rx send fits =
      let ms = snapshot_packets z T g s b (snapshot_counts z T s) in
      let (s', run, replica) = receive-snapshot_packets z T laws fit g s b rx send in
      let (stages, effects) =
        process_all-receive z T ops tag applied (packet z ops values) carried ms rx rx refl
          (All-× _ _ ms (All-Delivers tag applied ms fits) (snapshot_packets-Staged z T g s b)) in
      (s', stages ∙ ap (λ r. r.0.stage) run, effects ∙ ap (λ r. publish_all z T r.1) run, replica)
