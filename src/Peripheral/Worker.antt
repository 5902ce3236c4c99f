-- ===== src/Peripheral/Worker.antt =====
-- `PeripheralLightingWorker`: what the peripheral answers when its engine has taken a replica, and to
-- the requests for its status and its frame.
use moergo_rmk.Prelude.{
  ℕ, Bool, true, false, List, [], ◌∷◌, Option, none, some, min, length, zero, suc,
}
use moergo_rmk.Wire.Rmk.{Foreign}
use moergo_rmk.Wire.Types.{ReplicaDigests, Rgb8}
use moergo_rmk.Wire.Message.{Message}
use moergo_rmk.Replica.Walk.{Channel}
use moergo_rmk.Peripheral.Loop.{send, try_send_diagnostic}

pub record ApplyRequest : Type 0 where
  pub generation : ℕ
  pub revision : ℕ
  pub digests : ReplicaDigests

pub data DiagnosticRequest : Type 0 where
  status : ℕ → DiagnosticRequest
  -- request_id, offset
  frame_chunk : ℕ → ℕ → DiagnosticRequest

-- What rmk's engine answers to `ReadState`; `presented` is the layers of the presented context.
pub record EngineState (F : Foreign) : Type 0 where
  pub revision : ℕ
  pub presented : Option F.LayerState
  pub powered : Bool
  pub wake_active : Bool
  pub output_enabled : Bool

-- What it answers to `ReadFrame`.
pub record EnginePage : Type 0 where
  pub revision : Option ℕ
  pub total : ℕ
  pub start : ℕ
  pub cells : List Rgb8

-- `LAST_APPLIED_REVISION`, `LAST_DIGESTS` and `SPLIT_APP_PERIPH_TX`.
pub record Worker {D : Type 0} (C : Channel D) : Type 0 where
  pub last_applied : Option ℕ
  pub last_digests : Option ReplicaDigests
  pub outbound : C.Queue

abbrev pub cell_at : ℕ → List Rgb8 → Rgb8
cell_at n [] = record { r = 0; g = 0; b = 0 }
cell_at zero (c ∷ cells) = c
cell_at (suc n) (c ∷ cells) = cell_at n cells

-- `layers` is the snapshot of `PeripheralState`, for a frame that was not presented yet.
abbrev pub layers_of : {A : Type 0} → A → Option A → A
layers_of layers none = layers
layers_of layers (some presented) = presented

module _ {F : Foreign} where
  abbrev pub status_report : ℕ → Option ℕ → F.LayerState → EngineState F → Message F
  status_report id applied layers state =
      Message.status_report id applied state.revision layers state.powered state.wake_active
        state.output_enabled

  abbrev pub chunk_of : ℕ → EnginePage → Message F
  chunk_of id page =
      Message.frame_chunk id page.revision page.total page.start (min (length page.cells) 4)
        (cell_at 0 page.cells) (cell_at 1 page.cells) (cell_at 2 page.cells) (cell_at 3 page.cells)

  abbrev pub status_answer :
      ℕ → F.LayerState → Option ℕ → Option (EngineState F) → Option (Message F)
  status_answer id layers applied none = none
  status_answer id layers applied (some s) =
      some (status_report id applied (layers_of layers s.presented) s)

  abbrev pub chunk_answer : ℕ → Option EnginePage → Option (Message F)
  chunk_answer id none = none
  chunk_answer id (some page) = some (chunk_of id page)

  -- The answer; `state` and `page` are those of the engine, if it gives them.
  unfoldable pub answer :
      F.LayerState
      → Option (EngineState F)
      → (ℕ → Option EnginePage)
      → Option ℕ
      → DiagnosticRequest
      → Option (Message F)
  answer layers state page applied (DiagnosticRequest.status id) =
      status_answer id layers applied state
  answer layers state page applied (DiagnosticRequest.frame_chunk id offset) =
      chunk_answer id (page offset)

module _ {F : Foreign} {D : Type 0} (C : Channel D) (encode : Message F → D) (capacity : ℕ) where
  -- The attestation follows an acknowledgement that the queue took.
  abbrev pub attest_after : ApplyRequest → C.Queue × Bool → C.Queue
  attest_after request (q, false) = q
  attest_after request (q, true) =
      (send C encode capacity (Message.attestation request.generation request.digests) q).0

  -- `accepted` tells whether the engine took the replica.
  unfoldable pub apply_request : Bool → ApplyRequest → Worker C → Worker C
  apply_request false request w = w
  apply_request true request w = record {
    last_applied = some request.revision;
    last_digests = some request.digests;
    outbound =
        attest_after request
          (send C encode capacity (Message.ack request.generation request.revision) w.outbound);
  }

  abbrev pub report : Option (Message F) → C.Queue → C.Queue
  report none q = q
  report (some m) q = (try_send_diagnostic C encode capacity m q).0

  unfoldable pub diagnostic :
      F.LayerState
      → Option (EngineState F)
      → (ℕ → Option EnginePage)
      → DiagnosticRequest
      → Worker C
      → Worker C
  diagnostic layers state page request w = record w {
    outbound = report (answer layers state page w.last_applied request) w.outbound;
  }
