-- ===== src/Central/Fetch/Ends.antt =====
-- The end of the inner loop of `read_page`.
use moergo_rmk.Prelude.{
  ℕ, zero, suc, ◌+◌, ◌%◌, ◌^◌, ◌≤◌, ◌<◌, ◌≡◌, ◌⊎◌, refl, Bool, true, false, Option, none, some,
  arith, Option-cases, inl, inr,
}
use moergo_rmk.Wire.Rmk.{Foreign, Sizes}
use moergo_rmk.Wire.Message.{Message}
use moergo_rmk.Replies.FramePage.{
  FramePageAssembly, FrameChunkDecision, Chunk, accept_chunk, saturating_add,
}
use moergo_rmk.Central.Frames.{Call, chunk, PageEnd, end_of, page_step, assemble}
use moergo_rmk.Central.Honest.{chunk_of, Answers, chunk-P, accept-none, accept-some}

-- The total of a chunk that the message carries is a 16-bit number, as its type says.
abbrev pub ShortTotal : {F : Foreign} → Message F → Type 0
ShortTotal m = (c : Chunk) → chunk_of m ≡ some c → c.total < 2 ^ 16

abbrev pub is_unfinished : PageEnd → Bool
is_unfinished PageEnd.page_unfinished = true
is_unfinished _ = false

module _ (z : Sizes) where
  -- An accepted chunk makes the page longer, and no longer than a page.
  accepted_lem :
      (c : Chunk) (page : FramePageAssembly)
      → c.total < 2 ^ 16
      → page.len ≤ z.frame_chunk_size
      → (accept_chunk z c page).1 ≡ FrameChunkDecision.accepted
      → (page.len < (accept_chunk z c page).0.len)
        × ((accept_chunk z c page).0.len ≤ z.frame_chunk_size)
  unfolding accept_chunk
  accepted_lem c page short fits ok = (ground arith, ground arith)

  decided_lem :
      (c : Chunk) (page : FramePageAssembly)
      → c.total < 2 ^ 16
      → page.len ≤ z.frame_chunk_size
      → (d : FrameChunkDecision) → (accept_chunk z c page).1 ≡ d
      → ((e : PageEnd) × (end_of (accept_chunk z c page).0 d ≡ some e) × (is_unfinished e ≡ false))
        ⊎ ((end_of (accept_chunk z c page).0 d ≡ none)
            × (page.len < (accept_chunk z c page).0.len)
            × ((accept_chunk z c page).0.len ≤ z.frame_chunk_size))
  decided_lem c page short fits FrameChunkDecision.accepted at =
      let (longer, within) = accepted_lem c page short fits at in inr (refl, longer, within)
  decided_lem c page short fits FrameChunkDecision.complete at = inl (_, refl, refl)
  decided_lem c page short fits FrameChunkDecision.restart at = inl (_, refl, refl)
  decided_lem c page short fits FrameChunkDecision.invalid at = inl (_, refl, refl)

  step_lem :
      {F : Foreign} (found : Option (Message F)) (page : FramePageAssembly)
      → page.len ≤ z.frame_chunk_size
      → ((m : Message F) → found ≡ some m → ShortTotal m)
      → ((e : PageEnd) × ((page_step z found page).1 ≡ some e) × (is_unfinished e ≡ false))
        ⊎ (((page_step z found page).1 ≡ none)
            × (page.len < (page_step z found page).0.len)
            × ((page_step z found page).0.len ≤ z.frame_chunk_size))
  unfolding page_step
  step_lem none page fits short = inl (PageEnd.page_failed, refl, refl)
  step_lem (some m) page fits short = elim (Option-cases (chunk_of m)) [
    | inl other ↦ inl (PageEnd.page_failed, rw (accept-none z m page other) refl, refl)
    | inr (c, carries) ↦
        rw (accept-some z m page c carries)
          (decided_lem c page (short m refl c carries) fits (accept_chunk z c page).1 refl)
  ]

module _ {F : Foreign} (z : Sizes) (deadline : ℕ) (link : ℕ → ℕ → Call F)
    (short : (n offset : ℕ) → Answers ShortTotal (link n offset)) where
  -- What the next call of `chunk` finds.
  abbrev found_at : ℕ → ℕ → FramePageAssembly → ℕ × Option (Message F)
  found_at n id page = chunk deadline (link n (saturating_add page.start (page.len % 2 ^ 16))) id

  -- From any page that is no longer than a page may be, and whatever messages the peripheral answers
  -- with, in time or not, the inner loop ends: with more fuel than the page has room left it is never
  -- out of fuel, and it makes at most one call for each unit of fuel. Only the totals of the chunks
  -- are assumed to be the 16-bit numbers that their type makes them.
  pub assemble-finishes :
      (fuel n id : ℕ) (page : FramePageAssembly)
      → page.len ≤ z.frame_chunk_size
      → z.frame_chunk_size < fuel + page.len
      → (is_unfinished (assemble z deadline link fuel n id page).last ≡ false)
        × ((assemble z deadline link fuel n id page).calls ≤ n + fuel)
  unfolding assemble
  assemble-finishes zero n id page fits room = absurd (omega (arith, room, fits))
  assemble-finishes (suc fuel) n id page fits room =
      elim (step_lem z (found_at n id page).1 page fits
        (λ m at. chunk-P ShortTotal deadline _ id m (short n _) at)) [
          | inl (e, ends, over) ↦ rw (assemble, ends) (over, omega arith)
          | inr (on, longer, within) ↦
              let (over, calls) =
                assemble-finishes fuel (n + 1) (found_at n id page).0
                  (page_step z (found_at n id page).1 page).0 within
                  (omega (arith, room, longer)) in
              rw (assemble, on) (over, omega (arith, calls))
        ]
