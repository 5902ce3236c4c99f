-- ===== src/Replies/Pages.antt =====
-- What a page of a frame holds after a chunk.
use moergo_rmk.Prelude.{
  ℕ, ◌+◌, ◌-◌, ◌≤◌, ◌<◌, ◌≡◌, refl, ap, Bool-cases, ◌∙◌, Bool, true, false, Option, none, some,
  ==_iff, leb, arith, inl, inr,
}
use moergo_rmk.Wire.Rmk.{Sizes}
use moergo_rmk.Wire.Types.{Rgb8}
use moergo_rmk.Replies.FramePage.{
  FrameChunkDecision, FramePageAssembly, Chunk, same_revision, copy_cells, accept_chunk, HoldsFrame,
  ChunkOf, wanted, saturating_add,
}

-- The decision took the cells in.
abbrev pub took : FrameChunkDecision → Bool
took FrameChunkDecision.accepted = true
took FrameChunkDecision.complete = true
took _ = false

pub same_revision_lem : (a b : Option ℕ) → same_revision a b ≡ true → a ≡ b
same_revision_lem none none h = refl
same_revision_lem none (some b) h = ground arith
same_revision_lem (some a) none h = ground arith
same_revision_lem (some a) (some b) h = ap some ((==_iff a b).0 h)

module _ (src dst : ℕ → Rgb8) (at n i : ℕ) where
  copied_above : at ≤ i → i < at + n → copy_cells at n src dst i ≡ src (i - at)
  copied_above above below = ground arith

  copied_below : i < at → copy_cells at n src dst i ≡ dst i
  copied_below below = ground arith

-- Both runs of a page after a copy, the old one and the new one.
copy_cells_lem :
    (src dst frame : ℕ → Rgb8) (at n start : ℕ)
    → ((j : ℕ) → j < n → src j ≡ frame (start + at + j))
    → ((j : ℕ) → j < at → dst j ≡ frame (start + j))
    → (i : ℕ) → i < at + n
    → copy_cells at n src dst i ≡ frame (start + i)
copy_cells_lem src dst frame at n start new old i h = elim (Bool-cases (leb at i)) [
  | inl above ↦
      copied_above src dst at n i (ground arith) h
      ∙ new (i - at) (ground arith)
      ∙ ap frame (ground arith)
  | inr below ↦ copied_below src dst at n i (ground arith) ∙ old i (ground arith)
]

module _ (z : Sizes) (c : Chunk) (page : FramePageAssembly)
    (ok : took (accept_chunk z c page).1 ≡ true) where
  -- What a chunk that is taken in has shown.
  pub took_lem :
      (c.start ≡ saturating_add page.start page.len)
      × (c.len ≡ wanted z c page)
      × ((accept_chunk z c page).0.len ≡ page.len + c.len)
      × ((accept_chunk z c page).0.start ≡ page.start)
      × ((accept_chunk z c page).0.total ≡ c.total)
      × (page.initialized ≡ true → page.total ≡ c.total)
      × (page.initialized ≡ true → same_revision page.revision c.revision ≡ true)
  unfolding accept_chunk
  took_lem = ground arith

  took_cells_lem :
      (i : ℕ)
      → (accept_chunk z c page).0.cells i
        ≡ copy_cells page.len (wanted z c page) c.cells page.cells i
  unfolding accept_chunk
  took_cells_lem i = ground arith

  pub took_revision_lem : (accept_chunk z c page).0.revision ≡ c.revision
  unfolding accept_chunk
  took_revision_lem = ground arith

module _ (z : Sizes) (frame : ℕ → Rgb8) (c : Chunk) (page : FramePageAssembly)
    (holds : HoldsFrame z frame page) (part : ChunkOf z frame c) where
  -- A chunk of a frame that is taken in (`Accepted` or `Complete`) extends the page by exactly its
  -- cells: a page that held the colours of the frame from its start on still does, over the longer
  -- run, and never more than a page; the page takes the chunk's revision and total, and when it
  -- already had some they were the same, so that no page mixes two revisions.
  pub accept_chunk-HoldsFrame :
      took (accept_chunk z c page).1 ≡ true
      → HoldsFrame z frame (accept_chunk z c page).0
        × ((accept_chunk z c page).0.len ≡ page.len + c.len)
        × ((accept_chunk z c page).0.start ≡ page.start)
        × ((accept_chunk z c page).0.revision ≡ c.revision)
        × ((accept_chunk z c page).0.total ≡ c.total)
        × (page.initialized ≡ true → (page.total ≡ c.total) × (page.revision ≡ c.revision))
  accept_chunk-HoldsFrame ok =
      let (at, want, len, start, total, same_total, same_rev) = took_lem z c page ok in
      (
        (
          omega (arith, holds.0, want, len),
          omega (arith, holds.1, part.0, at, want, len, start),
          λ i below.
              took_cells_lem z c page ok i
              ∙ copy_cells_lem c.cells page.cells frame page.len (wanted z c page) page.start
                  (λ j k. part.1 j (omega (arith, want)) ∙ ap frame (omega (arith, at, holds.1)))
                  holds.2 i (omega (arith, len, want))
              ∙ ap frame (omega (arith, start)),
        ),
        len,
        start,
        took_revision_lem z c page ok,
        total,
        λ init. (same_total init, same_revision_lem page.revision c.revision (same_rev init)),
      )

-- A chunk that is not taken in leaves the cells and the length of the page as they were.
pub refused-keeps :
    (z : Sizes) (c : Chunk) (page : FramePageAssembly)
    → took (accept_chunk z c page).1 ≡ false
    → ((accept_chunk z c page).0.len ≡ page.len)
      × ((i : ℕ) → (accept_chunk z c page).0.cells i ≡ page.cells i)
unfolding accept_chunk
refused-keeps z c page h = (ground arith, λ i. ground arith)
