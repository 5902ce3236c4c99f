-- ===== src/Replica/Transfer.antt =====
-- A whole transaction of `walk_snapshot`, read by `SnapshotStage`.
mod Steps
mod Cells
mod Scenes
mod Rules
mod Frame
use moergo_rmk.Prelude.{
  ℕ, ◌+◌, ◌*◌, ◌%◌, ◌≤◌, ◌<◌, ◌≡◌, refl, sym, ap, subst, ◌∙◌, Bool, true, List, [], ◌∷◌, ◌++◌, none,
  some, length, find, keep, map, ◌==◌, ==_refl, arith, map-append, length-map, ◌&&◌,
}
use moergo_rmk.Prelude.Distinct.{distinct, fresh, fresh_nil}
use moergo_rmk.Wire.Rmk.{Foreign, Sizes}
use moergo_rmk.Wire.Types.{BatteryPair, LayerPolicy}
use moergo_rmk.Wire.Message.{Message}
use moergo_rmk.Wire.Fits.{carried}
use moergo_rmk.Replica.Tables.{Tables, TableLaws, at_key}
use moergo_rmk.Replica.Snapshot.{Snapshot, to_replicated}
use moergo_rmk.Replica.Walk.{
  right_overlay, right_scenes, right_rules, snapshot_counts, overlay_of, all_rule_packets,
  snapshot_packets,
}
use moergo_rmk.Replica.Stage.{Stage, Receiver, stage_note, receive, matches, commit_valid}
use moergo_rmk.Replica.Replicates.{Replicates, replicated, Holds}
use Steps.{with_overlay, with_scenes, with_rules, receive_quiet}
pub use Cells.{same_slot}
use Cells.{receive_cells}
use Scenes.{same_key, receive_scene_cells, length-Holds}
use Rules.{receive_rules}
use Frame.{
  map-carried_cells, opened, receive_head, awaiting, conditional_scene_begin_lem, commit_lem,
}

module _ {F : Foreign} (z : Sizes) (T : Tables F) where
  -- What `try_queue_snapshot` tests, and what the containers guarantee: the cells of the right half
  -- fit their counts, and no two stand under one key.
  pub record Sendable (s : Snapshot T) : Type 0 where
    pub overlay_fits : length (right_overlay z T s) ≤ z.leds_per_half
    pub scenes_fit : length (right_scenes z T s) ≤ z.scene_capacity
    pub rules_fit : length (right_rules z T s) ≤ z.scene_capacity
    pub overlay_distinct : distinct same_slot (right_overlay z T s) ≡ true
    pub scenes_distinct : distinct same_key (right_scenes z T s) ≡ true

  -- The sizes of a board: counts go into a byte, and an overlay batch holds a half.
  pub record SizesFit : Type 0 where
    pub half_fits : z.leds_per_half ≤ z.overlay_capacity
    pub half_byte : z.leds_per_half < 256
    pub scenes_byte : z.scene_capacity < 256

Holds-new :
    {F : Foreign} (z : Sizes) (T : Tables F) (laws : TableLaws z T) (policy : LayerPolicy)
    → Holds T (T.set_policy policy T.scenes_new) []
Holds-new z T laws policy =
    let empty = laws.scenes_iter-set_policy policy T.scenes_new ∙ laws.scenes_iter-new in
    (λ layer slot. ap (find (at_key layer slot)) empty, λ p. ap (λ l. length (keep p l)) empty)

module _ {F : Foreign} (z : Sizes) (T : Tables F) (g : ℕ) (s : Snapshot T) (b : BatteryPair)
    (n p q : ℕ) where
  -- The packets of the right half, after the head.
  abbrev tail_packets : List (Message F)
  tail_packets =
      map (Message.cell g s.revision) (right_overlay z T s)
      ++ (map (Message.scene_cell g s.revision) (right_scenes z T s)
          ++ (Message.conditional_scene_begin g s.revision q
              ∷ (map carried (all_rule_packets g s.revision (right_rules z T s))
                  ++ (Message.commit g s.revision n p ∷ []))))

  carried-tail :
      map carried (
        map (Message.cell g s.revision) (right_overlay z T s)
        ++ (map (Message.scene_cell g s.revision) (right_scenes z T s)
            ++ (Message.conditional_scene_begin g s.revision q
                ∷ (all_rule_packets g s.revision (right_rules z T s)
                    ++ (Message.commit g s.revision n p ∷ [])))))
      ≡ tail_packets
  carried-tail =
      map-carried_cells (Message.cell g s.revision) (λ c. refl) (right_overlay z T s) _
      ∙ ap (λ l. map (Message.cell g s.revision) (right_overlay z T s) ++ l)
          (map-carried_cells (Message.scene_cell g s.revision) (λ c. refl) (right_scenes z T s) _
            ∙ ap
                (λ l.
                  map (Message.scene_cell g s.revision) (right_scenes z T s)
                  ++ (Message.conditional_scene_begin g s.revision q ∷ l))
                (map-append carried (all_rule_packets g s.revision (right_rules z T s)) _))

  -- The stage behind the last packet but one, with its three tables.
  abbrev filled : T.Overlay → T.Scenes → T.Rules → Stage T
  filled t t2 t3 =
      with_rules T t3
        (awaiting z T g s.revision q (with_scenes T t2 (with_overlay T t (opened z T g s b n p))))

  matches_lem : (g == g && s.revision == s.revision) ≡ true
  matches_lem = rw (==_refl g, ==_refl s.revision)

  module _ (t : T.Overlay) (t2 : T.Scenes) (t3 : T.Rules)
      (sliced : T.overlay_slice t ≡ right_overlay z T s) (policy : T.policy t2 ≡ T.policy s.scenes)
      (holds : Holds T t2 (right_scenes z T s))
      (ruled : T.rules_iter t3 ≡ map replicated (right_rules z T s)) where
    filled-Replicates : Replicates T z s (filled t t2 t3).snapshot
    filled-Replicates =
        (refl, refl, refl, refl, refl, refl, refl, refl, refl, refl, sliced, policy, holds, ruled)

    commit_valid-filled :
        n ≡ length (right_overlay z T s)
        → p ≡ length (right_scenes z T s)
        → q ≡ length (right_rules z T s)
        → commit_valid z T g s.revision n p (filled t t2 t3) ≡ true
    commit_valid-filled hn hp hq = rw (
      ap length sliced ∙ sym hn,
      length-Holds T t2 (right_scenes z T s) holds ∙ sym hp,
      ap length ruled ∙ length-map replicated (right_rules z T s) ∙ sym hq,
      ==_refl g,
      ==_refl s.revision,
      ==_refl n,
      ==_refl p,
      ==_refl q,
    )

  receive_tail :
      TableLaws z T
      → SizesFit z T
      → Sendable z T s
      → n ≡ length (right_overlay z T s)
      → p ≡ length (right_scenes z T s)
      → q ≡ length (right_rules z T s)
      → (debug : ℕ)
      → (s' : Snapshot T) × (receive z T tail_packets
            (record { stage = some (opened z T g s b n p); debug = debug })
          ≡ (record { stage = none; debug = debug }, (g, s', b) ∷ []))
        × Replicates T z s s'
  receive_tail laws fit ok hn hp hq debug =
      let m = matches_lem in
      let st = opened z T g s b n p in
      let (t, slices, run) =
        receive_cells z T laws g s.revision (right_overlay z T s) T.overlay_new st debug _ m
          (omega (arith, hn, ap length laws.overlay_slice-new))
          (omega (arith, hn, ok.overlay_fits, fit.half_fits))
          (ap (λ l. fresh same_slot l (right_overlay z T s)) laws.overlay_slice-new
            ∙ fresh_nil same_slot (right_overlay z T s))
          ok.overlay_distinct in
      let (t2, holds, kept, run2) =
        receive_scene_cells z T laws g s.revision (right_scenes z T s) []
          (T.set_policy (T.policy s.scenes) T.scenes_new) (with_overlay T t st) debug _ m
          (Holds-new z T laws (T.policy s.scenes)) (omega (arith, hp))
          (omega (arith, hp, ok.scenes_fit)) (fresh_nil same_key (right_scenes z T s))
          ok.scenes_distinct in
      let st2 = with_scenes T t2 (with_overlay T t st) in
      let cleared = ap length (laws.rules_iter-clear T.rules_new) in
      let (t3, rules, run3) =
        receive_rules z T laws g s.revision (awaiting z T g s.revision q st2) debug m
          (right_rules z T s) (T.rules_clear T.rules_new) q refl (omega (arith, cleared, hq))
          (omega (arith, hq, ok.rules_fit)) in
      let sliced = slices ∙ ap (λ l. l ++ right_overlay z T s) laws.overlay_slice-new in
      let policy = kept ∙ laws.policy-set_policy (T.policy s.scenes) T.scenes_new in
      let ruled =
        rules
        ∙ ap (λ l. l ++ map replicated (right_rules z T s)) (laws.rules_iter-clear T.rules_new) in
      (
        (filled t t2 t3).snapshot,
        run
            ∙ run2
            ∙ receive_quiet z T _ _ _ _ (
                conditional_scene_begin_lem z T g s.revision q st2 debug m
                  (omega (arith, hq, ok.rules_fit)))
            ∙ run3 (Message.commit g s.revision n p ∷ [])
            ∙ commit_lem z T g s.revision n p _ debug
                (commit_valid-filled t t2 t3 sliced policy holds ruled hn hp hq),
        filled-Replicates t t2 t3 sliced policy holds ruled,
      )

module _ {F : Foreign} (z : Sizes) (T : Tables F) (laws : TableLaws z T) (fit : SizesFit z T) where
  -- A transaction that `walk_snapshot` sends for a sendable state, on a receiver in whatever state,
  -- hands out one snapshot, at its end: it carries the generation and the batteries, and replicates
  -- the sender's state. The stage is empty again, and no abort is counted.
  pub receive-snapshot_packets :
      (g : ℕ) (s : Snapshot T) (b : BatteryPair) (rx : Receiver T)
      → Sendable z T s
      → (s' : Snapshot T) × (receive z T
            (map carried (snapshot_packets z T g s b (snapshot_counts z T s)))
            rx
          ≡ (record { stage = none; debug = stage_note 0 rx.debug }, (g, s', b) ∷ []))
        × Replicates T z s s'
  unfolding snapshot_packets
  receive-snapshot_packets g s b rx ok =
      let n = length (right_overlay z T s) in
      let p = length (right_scenes z T s) in
      let q = length (right_rules z T s) in
      let hn : n % 256 ≡ n = omega (arith, ok.overlay_fits, fit.half_byte) in
      let hp : p % 256 ≡ p = omega (arith, ok.scenes_fit, fit.scenes_byte) in
      let hq : q % 256 ≡ q = omega (arith, ok.rules_fit, fit.scenes_byte) in
      let (s', run, replica) =
        receive_tail z T g s b (n % 256) (p % 256) (q % 256) laws fit ok hn hp hq
          (stage_note 0 rx.debug) in
      (
        s',
        receive_head z T g s b (n % 256) (p % 256) _ rx (omega (arith, hn, ok.overlay_fits))
              (omega (arith, hp, ok.scenes_fit))
            ∙ ap
                (λ ms. receive z T ms (record {
                  stage = some (opened z T g s b (n % 256) (p % 256));
                  debug = stage_note 0 rx.debug;
                }))
                (carried-tail z T g s b (n % 256) (p % 256) (q % 256))
            ∙ run,
        replica,
      )
