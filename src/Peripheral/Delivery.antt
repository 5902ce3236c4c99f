-- ===== src/Peripheral/Delivery.antt =====
-- A transaction on the wire, from the encoder to the peripheral's state.
use moergo_rmk.Prelude.{
  ℕ, ◌≡◌, refl, ap, ap₂, subst, ◌∙◌, Bool, true, false, List, [], ◌∷◌, ◌++◌, Option, none, some, ok,
  map, All, arith,
}
use moergo_rmk.Wire.Rmk.{Foreign, LayerOps, Sizes}
use moergo_rmk.Wire.Types.{BatteryPair}
use moergo_rmk.Wire.Message.{Message}
use moergo_rmk.Wire.Decode.{decode}
use moergo_rmk.Replica.Tables.{Tables}
use moergo_rmk.Replica.Snapshot.{Snapshot}
use moergo_rmk.Replica.Stage.{
  Stage, Receiver, collect, apply, receive, on_begin, on_wake_layers, on_context, on_extension,
  on_extension_overlay, on_cell, on_scene_cell, on_conditional_scene_begin,
  on_conditional_scene_cell, on_conditional_scene_ext, on_commit,
}
use moergo_rmk.Peripheral.{noted, Effect, is_bootloader, handle, process, process_all, published}

module _ {F : Foreign} (z : Sizes) (T : Tables F) where
  -- The stage and the output of a step do not depend on the counters.
  abbrev Agree :
      Receiver T × Option (ℕ × Snapshot T × BatteryPair)
      → Receiver T × Option (ℕ × Snapshot T × BatteryPair)
      → Type 0
  Agree a b = (a.0.stage ≡ b.0.stage) × (a.1 ≡ b.1)

  apply_agrees :
      (m : Message F) (o : Option (Stage T)) (d d' : ℕ)
      → Agree
          (apply z T m (record { stage = o; debug = d }))
          (apply z T m (record { stage = o; debug = d' }))
  unfolding apply on_begin on_wake_layers on_context on_extension on_extension_overlay on_cell
      on_scene_cell on_conditional_scene_begin on_conditional_scene_cell on_conditional_scene_ext
      on_commit
  apply_agrees (Message.begin g r n p q t m o) none d d' = ground arith
  apply_agrees (Message.begin g r n p q t m o) (some st) d d' = ground arith
  apply_agrees m none d d' = ground arith
  apply_agrees m (some st) d d' = ground arith

  apply-Agree :
      (m : Message F) (rx ry : Receiver T)
      → rx.stage ≡ ry.stage
      → Agree (apply z T m rx) (apply z T m ry)
  apply-Agree m rx ry h =
      subst (λ o. Agree (apply z T m rx) (apply z T m (record { stage = o; debug = ry.debug }))) h
        (apply_agrees m rx.stage rx.debug ry.debug)

  abbrev pub publish_all : List (ℕ × Snapshot T × BatteryPair) → List (Effect T)
  publish_all [] = []
  publish_all ((g, s, b) ∷ outs) = Effect.publish g s b ∷ publish_all outs

  published-collect :
      (out : Option (ℕ × Snapshot T × BatteryPair)) (outs : List (ℕ × Snapshot T × BatteryPair))
      → published z T out ++ publish_all outs ≡ publish_all (collect z T out outs)
  published-collect none outs = refl
  published-collect (some out) outs = refl

  -- The messages that reach the stage.
  abbrev pub is_staged : Message F → Bool
  is_staged (Message.effect_hit slot) = false
  is_staged (Message.replica_probe g) = false
  is_staged (Message.status_request id) = false
  is_staged (Message.frame_chunk_request id offset) = false
  is_staged (Message.context_update g r c b) = false
  is_staged _ = true

  handle_lem :
      (applied : Option ℕ) (m : Message F) (rx : Receiver T)
      → is_staged m ≡ true
      → handle z T applied m rx ≡ ((apply z T m rx).0, published z T (apply z T m rx).1)
  unfolding handle
  handle_lem applied (Message.effect_hit slot) rx h = ground arith
  handle_lem applied (Message.replica_probe g) rx h = ground arith
  handle_lem applied (Message.status_request id) rx h = ground arith
  handle_lem applied (Message.frame_chunk_request id offset) rx h = ground arith
  handle_lem applied (Message.context_update g r c b) rx h = ground arith
  handle_lem applied m rx h = refl

  module _ (ops : LayerOps F) (tag : ℕ) (applied : Option ℕ) where
    -- No packet of one byte is a message.
    is_bootloader_lem :
        (bytes : List ℕ) (m : Message F)
        → decode z ops bytes ≡ ok m
        → is_bootloader tag bytes ≡ false
    unfolding decode
    is_bootloader_lem [] m h = refl
    is_bootloader_lem (x ∷ []) m h = ground arith
    is_bootloader_lem (x ∷ (y ∷ rest)) m h = refl

    process_lem :
        (bytes : List ℕ) (m : Message F) (rx : Receiver T)
        → decode z ops bytes ≡ ok m
        → is_staged m ≡ true
        → process z T ops tag applied bytes rx
          ≡ ((apply z T m (noted z T 24 rx)).0, published z T (apply z T m (noted z T 24 rx)).1)
    unfolding process
    process_lem bytes m rx dec st =
        rw (is_bootloader_lem bytes m dec, dec) (handle_lem applied m (noted z T 24 rx) st)

    module _ (enc : Message F → List ℕ) (read : Message F → Message F) where
      -- What is asked of each message that is sent.
      abbrev pub Delivers : Message F → Type 0
      Delivers m = (decode z ops (enc m) ≡ ok (read m)) × (is_staged (read m) ≡ true)

      pub process_all-receive :
          (ms : List (Message F)) (rx ry : Receiver T)
          → rx.stage ≡ ry.stage
          → All Delivers ms
          → ((process_all z T ops tag applied (map enc ms) rx).0.stage
              ≡ (receive z T (map read ms) ry).0.stage)
            × ((process_all z T ops tag applied (map enc ms) rx).1
                ≡ publish_all (receive z T (map read ms) ry).1)
      unfolding process_all receive
      process_all-receive [] rx ry h all = (h, refl)
      process_all-receive (m ∷ ms) rx ry h ((dec, st), all) =
          let (stages, outs) = apply-Agree (read m) (noted z T 24 rx) ry h in
          let (stages', outs') =
            process_all-receive ms (apply z T (read m) (noted z T 24 rx)).0
              (apply z T (read m) ry).0 stages all in
          (
            rw (process_all, process_lem (enc m) (read m) rx dec st) stages',
            rw (process_all, process_lem (enc m) (read m) rx dec st)
                (ap₂ ◌++◌ (ap (published z T) outs) outs'
                  ∙ published-collect (apply z T (read m) ry).1 _),
          )
