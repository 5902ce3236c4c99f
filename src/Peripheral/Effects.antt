-- ===== src/Peripheral/Effects.antt =====
-- A packet has at most one effect.
use moergo_rmk.Prelude.{
  ℕ, Option, none, some, List, [], ◌∷◌, err, ok, ltb, Bool-cases, inl, inr, Bool, true, false,
  if◌then◌else◌,
}
use moergo_rmk.Wire.Rmk.{Foreign, LayerOps, Sizes}
use moergo_rmk.Wire.Types.{BatteryPair}
use moergo_rmk.Wire.Message.{Message}
use moergo_rmk.Wire.Decode.{decode}
use moergo_rmk.Replica.Tables.{Tables}
use moergo_rmk.Replica.Snapshot.{Snapshot}
use moergo_rmk.Replica.Stage.{Receiver, apply}
use moergo_rmk.Peripheral.{Effect, handle, process, published, noted, is_bootloader, is_applied}

module _ {F : Foreign} (z : Sizes) (T : Tables F) where
  abbrev pub AtMostOne : List (Effect T) → Type 0
  AtMostOne [] = Unit {0}
  AtMostOne (e ∷ []) = Unit {0}
  AtMostOne (e ∷ (e' ∷ es)) = ⊥

  published-AtMostOne :
      (out : Option (ℕ × Snapshot T × BatteryPair)) → AtMostOne (published z T out)
  published-AtMostOne none = tt
  published-AtMostOne (some (g, s, b)) = tt

  one_if-AtMostOne : (b : Bool) (e : Effect T) → AtMostOne (if b then e ∷ [] else [])
  one_if-AtMostOne true e = tt
  one_if-AtMostOne false e = tt

  handle-AtMostOne :
      (applied : Option ℕ) (m : Message F) (rx : Receiver T) → AtMostOne (handle z T applied m rx).1
  unfolding handle
  handle-AtMostOne applied (Message.effect_hit slot) rx =
      one_if-AtMostOne (ltb slot z.leds_per_half) _
  handle-AtMostOne applied (Message.replica_probe g) rx = tt
  handle-AtMostOne applied (Message.status_request id) rx = tt
  handle-AtMostOne applied (Message.frame_chunk_request id o) rx = tt
  handle-AtMostOne applied (Message.context_update g r c b) rx =
      one_if-AtMostOne (is_applied applied r) _
  handle-AtMostOne applied (Message.begin a0 a1 a2 a3 a4 a5 a6 a7) rx =
      published-AtMostOne (apply z T (Message.begin a0 a1 a2 a3 a4 a5 a6 a7) rx).1
  handle-AtMostOne applied (Message.wake_layers a0 a1 a2) rx =
      published-AtMostOne (apply z T (Message.wake_layers a0 a1 a2) rx).1
  handle-AtMostOne applied (Message.context a0 a1 a2 a3) rx =
      published-AtMostOne (apply z T (Message.context a0 a1 a2 a3) rx).1
  handle-AtMostOne applied (Message.extension a0 a1 a2 a3) rx =
      published-AtMostOne (apply z T (Message.extension a0 a1 a2 a3) rx).1
  handle-AtMostOne applied (Message.extension_overlay a0 a1 a2 a3) rx =
      published-AtMostOne (apply z T (Message.extension_overlay a0 a1 a2 a3) rx).1
  handle-AtMostOne applied (Message.cell a0 a1 a2) rx =
      published-AtMostOne (apply z T (Message.cell a0 a1 a2) rx).1
  handle-AtMostOne applied (Message.scene_cell a0 a1 a2) rx =
      published-AtMostOne (apply z T (Message.scene_cell a0 a1 a2) rx).1
  handle-AtMostOne applied (Message.conditional_scene_begin a0 a1 a2) rx =
      published-AtMostOne (apply z T (Message.conditional_scene_begin a0 a1 a2) rx).1
  handle-AtMostOne applied (Message.conditional_scene_cell a0 a1 a2) rx =
      published-AtMostOne (apply z T (Message.conditional_scene_cell a0 a1 a2) rx).1
  handle-AtMostOne applied (Message.conditional_scene_ext a0 a1 a2 a3) rx =
      published-AtMostOne (apply z T (Message.conditional_scene_ext a0 a1 a2 a3) rx).1
  handle-AtMostOne applied (Message.commit a0 a1 a2 a3) rx =
      published-AtMostOne (apply z T (Message.commit a0 a1 a2 a3) rx).1
  handle-AtMostOne applied (Message.ack a0 a1) rx =
      published-AtMostOne (apply z T (Message.ack a0 a1) rx).1
  handle-AtMostOne applied (Message.attestation a0 a1) rx =
      published-AtMostOne (apply z T (Message.attestation a0 a1) rx).1
  handle-AtMostOne applied (Message.status_report a0 a1 a2 a3 a4 a5 a6) rx =
      published-AtMostOne (apply z T (Message.status_report a0 a1 a2 a3 a4 a5 a6) rx).1
  handle-AtMostOne applied (Message.frame_chunk a0 a1 a2 a3 a4 a5 a6 a7 a8) rx =
      published-AtMostOne (apply z T (Message.frame_chunk a0 a1 a2 a3 a4 a5 a6 a7 a8) rx).1
  handle-AtMostOne applied (Message.transport_status a0 a1) rx =
      published-AtMostOne (apply z T (Message.transport_status a0 a1) rx).1
  handle-AtMostOne applied (Message.debug_trace a0 a1 a2 a3 a4 a5) rx =
      published-AtMostOne (apply z T (Message.debug_trace a0 a1 a2 a3 a4 a5) rx).1
  handle-AtMostOne applied (Message.debug_panic_loc a0 a1) rx =
      published-AtMostOne (apply z T (Message.debug_panic_loc a0 a1) rx).1

  pub process-AtMostOne :
      (ops : LayerOps F) (tag : ℕ) (applied : Option ℕ) (bytes : List ℕ) (rx : Receiver T)
      → AtMostOne (process z T ops tag applied bytes rx).1
  unfolding process
  process-AtMostOne ops tag applied bytes rx = elim (Bool-cases (is_bootloader tag bytes)) [
    | inl h ↦ rw h tt
    | inr h ↦
        rw h
          (elim (decode z ops bytes)
            as (λ o.
              AtMostOne
                (elim o as (λ x. Receiver T × List (Effect T)) [
                  | err e ↦ (noted z T 16 (noted z T 24 rx), [])
                  | ok m ↦ handle z T applied m (noted z T 24 rx)
                ]).1) [ err e ↦ tt | ok m ↦ handle-AtMostOne applied m (noted z T 24 rx) ])
  ]
