-- ===== src/Replica/Transfer/Frame.antt =====
-- The packets of a transaction around its loops: the five at its head, the count of the
-- conditional cells, and the commit.
use moergo_rmk.Prelude.{
  ℕ, ◌≤◌, ◌≡◌, refl, ◌∙◌, true, false, List, [], ◌∷◌, ◌++◌, Option, none, some, ◌&&◌, map, ltb,
  ◌==◌, ==_refl, arith, leb_of_le,
}
use moergo_rmk.Wire.Rmk.{Foreign, Sizes}
use moergo_rmk.Wire.Types.{BatteryPair, ReplicatedContext, ExtensionState, ExtensionReplicaParams}
use moergo_rmk.Wire.Message.{Message}
use moergo_rmk.Wire.Fits.{carried}
use moergo_rmk.Replica.Tables.{Tables}
use moergo_rmk.Replica.Snapshot.{Snapshot, to_replicated, apply_to}
use moergo_rmk.Replica.Walk.{overlay_of}
use moergo_rmk.Replica.Stage.{
  Stage, Receiver, no_batteries, matches, commit_valid, stage_note, apply, receive, on_begin,
  on_wake_layers, on_context, on_extension, on_extension_overlay, on_conditional_scene_begin,
  on_commit,
}
use moergo_rmk.Replica.Transfer.Steps.{with_rules, receive_quiet}

pub map-carried_cells {ℓ} :
    {A : Type ℓ} {F : Foreign} (f : A → Message F)
    → ((a : A) → carried (f a) ≡ f a)
    → (xs : List A) (rest : List (Message F))
    → map carried (map f xs ++ rest) ≡ map f xs ++ map carried rest
map-carried_cells f h [] rest = refl
map-carried_cells f h (x ∷ xs) rest = rw (h x, map-carried_cells f h xs rest)

module _ {F : Foreign} (z : Sizes) (T : Tables F) (g r : ℕ) where
  wake_layers_lem :
      (w : ℕ) (st : Stage T) (debug : ℕ)
      → matches z T g r st ≡ true
      → apply z T (Message.wake_layers g r w) (record { stage = some st; debug = debug }) ≡ (
        record {
          stage = some (record st {
            snapshot = record (st.snapshot) { wake_layers = w };
            wake_layers_received = true;
          });
          debug = debug;
        },
        none,
      )
  unfolding apply on_wake_layers
  wake_layers_lem w st debug m = rw m

  context_lem :
      (c : ReplicatedContext) (b : BatteryPair) (st : Stage T) (debug : ℕ)
      → matches z T g r st ≡ true
      → apply z T (Message.context g r c b) (record { stage = some st; debug = debug }) ≡ (
        record {
          stage = some (record st {
            snapshot = record (st.snapshot) { context = apply_to c st.snapshot.context };
            batteries = b;
            context_received = true;
          });
          debug = debug;
        },
        none,
      )
  unfolding apply on_context
  context_lem c b st debug m = rw m

  extension_lem :
      (e : Option ExtensionState) (q : Option ExtensionReplicaParams) (st : Stage T) (debug : ℕ)
      → matches z T g r st ≡ true
      → apply z T (Message.extension g r e q) (record { stage = some st; debug = debug }) ≡ (
        record {
          stage = some (record st {
            snapshot = record (st.snapshot) { extension = e; extension_params = q };
            extension_received = true;
          });
          debug = debug;
        },
        none,
      )
  unfolding apply on_extension
  extension_lem e q st debug m = rw m

  extension_overlay_lem :
      (o : Option ℕ) (q : Option ExtensionReplicaParams) (st : Stage T) (debug : ℕ)
      → matches z T g r st ≡ true
      → apply z T (Message.extension_overlay g r o q) (record { stage = some st; debug = debug })
        ≡ (
          record {
            stage = some (record st {
              snapshot = record (st.snapshot) {
                extension_layers = some (record { overlay = o });
                extension_overlay_params = q;
              };
              extension_overlay_received = true;
            });
            debug = debug;
          },
          none,
        )
  unfolding apply on_extension_overlay
  extension_overlay_lem o q st debug m = rw m

module _ {F : Foreign} (z : Sizes) (T : Tables F) (g : ℕ) (s : Snapshot T) (b : BatteryPair)
    (n p : ℕ) where
  -- The stage after the head of a transaction.
  abbrev pub opened : Stage T
  opened = record {
    generation = g;
    snapshot = record {
      revision = s.revision;
      settings = s.settings;
      output_mode = s.output_mode;
      wake_layers = s.wake_layers;
      overlay = T.overlay_new;
      scenes = T.set_policy (T.policy s.scenes) T.scenes_new;
      rules = T.rules_new;
      context = apply_to (to_replicated s.context) T.default_context;
      sample_time_ms = s.sample_time_ms;
      extension = s.extension;
      extension_layers = some (record { overlay = overlay_of s.extension_layers });
      extension_params = s.extension_params;
      extension_overlay_params = s.extension_overlay_params;
    };
    expected_overlay_cells = n;
    expected_scene_cells = p;
    expected_conditional_scene_cells = none;
    wake_layers_received = true;
    context_received = true;
    extension_received = true;
    extension_overlay_received = true;
    batteries = b;
  }

  -- The stage that `Begin` makes.
  abbrev begun : Stage T
  begun = record opened {
    snapshot = record (opened.snapshot) {
      wake_layers = 0;
      context = T.default_context;
      extension = none;
      extension_layers = none;
      extension_params = none;
      extension_overlay_params = none;
    };
    wake_layers_received = false;
    context_received = false;
    extension_received = false;
    extension_overlay_received = false;
    batteries = no_batteries;
  }

  begin_lem :
      (rx : Receiver T)
      → n ≤ z.leds_per_half
      → p ≤ z.scene_capacity
      → apply z T
          (Message.begin g s.revision n p
            (T.policy s.scenes)
            s.sample_time_ms
            s.settings
            s.output_mode)
          rx
        ≡ (record { stage = some begun; debug = stage_note 0 rx.debug }, none)
  unfolding apply on_begin
  begin_lem rx hn hp = rw (leb_of_le n z.leds_per_half hn, leb_of_le p z.scene_capacity hp)

  pub receive_head :
      (rest : List (Message F)) (rx : Receiver T)
      → n ≤ z.leds_per_half
      → p ≤ z.scene_capacity
      → receive z T
          (Message.begin g s.revision n p
              (T.policy s.scenes)
              s.sample_time_ms
              s.settings
              s.output_mode
            ∷ Message.wake_layers g s.revision s.wake_layers
            ∷ Message.context g s.revision (to_replicated s.context) b
            ∷ Message.extension g s.revision s.extension s.extension_params
            ∷ Message.extension_overlay g s.revision
                (overlay_of s.extension_layers)
                s.extension_overlay_params
            ∷ rest)
          rx
        ≡ receive z T rest (record { stage = some opened; debug = stage_note 0 rx.debug })
  receive_head rest rx hn hp =
      let m : (g == g && s.revision == s.revision) ≡ true = rw (==_refl g, ==_refl s.revision) in
      receive_quiet z T _ _ rx _ (begin_lem rx hn hp)
      ∙ receive_quiet z T _ _ _ _ (wake_layers_lem z T g s.revision s.wake_layers _ _ m)
      ∙ receive_quiet z T _ _ _ _ (context_lem z T g s.revision (to_replicated s.context) b _ _ m)
      ∙ receive_quiet z T _ _ _ _
          (extension_lem z T g s.revision s.extension s.extension_params _ _ m)
      ∙ receive_quiet z T _ _ _ _ (
          extension_overlay_lem z T g s.revision (overlay_of s.extension_layers)
            s.extension_overlay_params _ _ m)

module _ {F : Foreign} (z : Sizes) (T : Tables F) (g r : ℕ) where
  -- The stage after the count of the conditional cells.
  abbrev pub awaiting : ℕ → Stage T → Stage T
  awaiting q st = record (with_rules T (T.rules_clear st.snapshot.rules) st) {
    expected_conditional_scene_cells = some q;
  }

  pub conditional_scene_begin_lem :
      (q : ℕ) (st : Stage T) (debug : ℕ)
      → matches z T g r st ≡ true
      → q ≤ z.scene_capacity
      → apply z T
          (Message.conditional_scene_begin g r q)
          (record { stage = some st; debug = debug })
        ≡ (record { stage = some (awaiting q st); debug = debug }, none)
  unfolding apply on_conditional_scene_begin
  conditional_scene_begin_lem q st debug m h = rw (m, small)
    where
      small : ltb z.scene_capacity q ≡ false
      small = ground arith

  pub commit_lem :
      (n p : ℕ) (st : Stage T) (debug : ℕ)
      → commit_valid z T g r n p st ≡ true
      → receive z T (Message.commit g r n p ∷ []) (record { stage = some st; debug = debug })
        ≡ (record { stage = none; debug = debug }, (st.generation, st.snapshot, st.batteries) ∷ [])
  unfolding receive apply on_commit
  commit_lem n p st debug h = rw h
