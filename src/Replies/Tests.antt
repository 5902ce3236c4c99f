-- ===== src/Replies/Tests.antt =====
-- Concrete replies.
use moergo_rmk.Prelude.{ℕ, ◌+◌, ◌≡◌, refl, true, false, some, arith}
use moergo_rmk.Wire.Types.{ReplicaDigests, Rgb8}
use moergo_rmk.Fixtures.{glove80}
use moergo_rmk.Replies.Attestation.{
  AttestationDecision, AttestationRecovery, observe, snapshot_acked, second_mismatch-halts,
}
use moergo_rmk.Replies.Attestation as Recovery
use moergo_rmk.Replies.FramePage.{FramePageAssembly, Chunk, accept_chunk, HoldsFrame}
use moergo_rmk.Replies.FramePage as FramePage
use moergo_rmk.Replies.Pages.{accept_chunk-HoldsFrame, refused-keeps}

abbrev digests : ℕ → ReplicaDigests
digests settings = record {
  schema = 1;
  revision = 7;
  settings = settings;
  overlay = 2;
  scenes = 3;
  conditional_scenes = 4;
}

abbrev pending_7 : AttestationRecovery
pending_7 = record { target_revision = some 7; mismatch_count = 1; awaiting_post_resync = false }

second_mismatch-halts_example :
    (observe (some (digests 1)) (digests 5) Recovery.new ≡ (pending_7, AttestationDecision.recover))
    × (observe (some (digests 1)) (digests 5) pending_7 ≡ (pending_7, AttestationDecision.recover))
    × ((observe (some (digests 1)) (digests 5) (snapshot_acked 7 pending_7)).1
        ≡ AttestationDecision.halt)
second_mismatch-halts_example =
    second_mismatch-halts (digests 1) (digests 5) refl refl Recovery.new refl

abbrev frame : ℕ → Rgb8
frame i = record { r = i; g = 0; b = 0 }

abbrev chunk : Chunk
chunk = record { revision = some 7; total = 40; start = 4; len = 4; cells = λ i. frame (4 + i) }

abbrev page : FramePageAssembly
page = FramePage.new 4

accept_chunk-HoldsFrame_example :
    HoldsFrame glove80 frame (accept_chunk glove80 chunk page).0
    × ((accept_chunk glove80 chunk page).0.len ≡ 0 + 4)
    × ((accept_chunk glove80 chunk page).0.start ≡ 4)
    × ((accept_chunk glove80 chunk page).0.revision ≡ some 7)
    × ((accept_chunk glove80 chunk page).0.total ≡ 40)
    × (page.initialized ≡ true → (page.total ≡ chunk.total) × (page.revision ≡ chunk.revision))
unfolding accept_chunk
accept_chunk-HoldsFrame_example =
    accept_chunk-HoldsFrame glove80 frame chunk page
      (omega arith, omega arith, λ i below. absurd (omega arith)) (omega arith, λ i below. refl)
      refl

refused-keeps_example :
    ((accept_chunk glove80 (record chunk { start = 5 }) page).0.len ≡ 0)
    × ((i : ℕ)
        → (accept_chunk glove80 (record chunk { start = 5 }) page).0.cells i ≡ FramePage.black)
unfolding accept_chunk
refused-keeps_example = refused-keeps glove80 (record chunk { start = 5 }) page refl
