-- ===== src/Central/Fetch.antt =====
-- A page that is fetched ends after a bounded number of chunks, and is a part of one frame.
pub mod Ends
mod Tests
use moergo_rmk.Prelude.{
  ℕ, zero, suc, ◌+◌, ◌-◌, ◌%◌, ◌^◌, ◌≤◌, ◌<◌, ◌≡◌, ◌⊎◌, refl, sym, ap, subst, ◌∙◌, Bool, true,
  false, List, [], ◌∷◌, Option, none, some, All, some-injective, ◌==◌, leb, if◌then◌else◌, arith,
  Bool-cases, Option-cases, inl, inr,
}
use moergo_rmk.Wire.Rmk.{Foreign, Sizes}
use moergo_rmk.Wire.Types.{Rgb8}
use moergo_rmk.Wire.Message.{Message}
use moergo_rmk.Replies.FramePage.{
  FramePageAssembly, FrameChunkDecision, Chunk, four_cells, accept, accept_chunk, saturating_add,
  HoldsFrame, ChunkOf, wanted, same_revision,
}
use moergo_rmk.Replies.FramePage as FramePage
use moergo_rmk.Replies.Pages.{
  took, took_lem, took_revision_lem, same_revision_lem, accept_chunk-HoldsFrame,
}
use moergo_rmk.Central.Frames.{
  Attempt, Call, answers, await_answer, attempt, chunk, PageEnd, PageRun, RemotePage, page_of,
  end_of, page_step, assemble, page_fuel, after_round, rounds, read_page,
}
use moergo_rmk.Central.Honest.{
  chunk_of, Honest, HonestCall, chunk-P, accept-none, accept-some, PageValid, new-PageValid,
  accept_chunk-PageValid, accepted-longer,
}

module _ (z : Sizes) (frames : Option ℕ → ℕ → Rgb8) where
  -- How the inner loop may end: it is never out of fuel, and a page that is complete is valid.
  abbrev pub EndsWell : ℕ → PageEnd → Type 0
  EndsWell start (PageEnd.page_complete page) = PageValid z frames page × (page.start ≡ start)
  EndsWell start PageEnd.page_restart = true ≡ true
  EndsWell start PageEnd.page_failed = true ≡ true
  EndsWell start PageEnd.page_unfinished = true ≡ false

  -- After one chunk the loop ends well, or goes on with a valid page that is longer.
  record GoesOn (page page' : FramePageAssembly) : Type 0 where
    valid : PageValid z frames page'
    same_start : page'.start ≡ page.start
    longer : page.len < page'.len

  decided :
      (c : Chunk) (page : FramePageAssembly)
      → PageValid z frames page
      → ChunkOf z (frames c.revision) c
      → (d : FrameChunkDecision) → (accept_chunk z c page).1 ≡ d
      → ((e : PageEnd) × (end_of (accept_chunk z c page).0 d ≡ some e) × EndsWell page.start e)
        ⊎ ((end_of (accept_chunk z c page).0 d ≡ none) × GoesOn page (accept_chunk z c page).0)
  decided c page h part FrameChunkDecision.accepted at =
      let (valid, same) = accept_chunk-PageValid z frames c page h part (rw at refl) in
      inr (
        refl,
        record {
          valid = valid;
          same_start = same;
          longer = accepted-longer z frames c page at h.holds.1 h.holds.0;
        },
      )
  decided c page h part FrameChunkDecision.complete at =
      inl (_, refl, accept_chunk-PageValid z frames c page h part (rw at refl))
  decided c page h part FrameChunkDecision.restart at = inl (_, refl, refl)
  decided c page h part FrameChunkDecision.invalid at = inl (_, refl, refl)

  page_step_lem :
      {F : Foreign} (found : Option (Message F)) (page : FramePageAssembly)
      → PageValid z frames page
      → ((m : Message F) → found ≡ some m → Honest z frames m)
      → ((e : PageEnd) × ((page_step z found page).1 ≡ some e) × EndsWell page.start e)
        ⊎ (((page_step z found page).1 ≡ none) × GoesOn page (page_step z found page).0)
  unfolding page_step
  page_step_lem none page h honest = inl (PageEnd.page_failed, refl, refl)
  page_step_lem (some m) page h honest = elim (Option-cases (chunk_of m)) [
    | inl other ↦ inl (PageEnd.page_failed, rw (accept-none z m page other) refl, refl)
    | inr (c, carries) ↦
        rw (accept-some z m page c carries)
          (decided c page h (honest m refl c carries) (accept_chunk z c page).1 refl)
  ]

module _ {F : Foreign} (z : Sizes) (frames : Option ℕ → ℕ → Rgb8) (deadline : ℕ)
    (link : ℕ → ℕ → Call F) (honest : (n offset : ℕ) → HonestCall z frames (link n offset)) where
  -- What the next call of `chunk` finds.
  abbrev found_at : ℕ → ℕ → FramePageAssembly → ℕ × Option (Message F)
  found_at n id page = chunk deadline (link n (saturating_add page.start (page.len % 2 ^ 16))) id

  assemble_ends :
      (fuel n id : ℕ) (page : FramePageAssembly) (e : PageEnd)
      → (page_step z (found_at n id page).1 page).1 ≡ some e
      → assemble z deadline link (suc fuel) n id page
        ≡ record { id = (found_at n id page).0; calls = n + 1; last = e }
  unfolding assemble
  assemble_ends fuel n id page e h = rw (assemble, h)

  assemble_goes_on :
      (fuel n id : ℕ) (page : FramePageAssembly)
      → (page_step z (found_at n id page).1 page).1 ≡ none
      → assemble z deadline link (suc fuel) n id page
        ≡ assemble z deadline link fuel
            (n + 1)
            (found_at n id page).0
            (page_step z (found_at n id page).1 page).0
  unfolding assemble
  assemble_goes_on fuel n id page h = rw (assemble, h)

  -- With more fuel than the room that a valid page has left, and answers that carry chunks of the
  -- peripheral's frames, the inner loop is not out of fuel, and a page that is complete holds only
  -- cells of the one frame that it names, from the start that was asked for on.
  pub assemble-EndsWell :
      (fuel n id : ℕ) (page : FramePageAssembly)
      → PageValid z frames page
      → z.frame_chunk_size < fuel + page.len
      → EndsWell z frames page.start (assemble z deadline link fuel n id page).last
        × ((assemble z deadline link fuel n id page).calls ≤ n + fuel)
  unfolding assemble
  assemble-EndsWell zero n id page h room = absurd (omega (arith, room, h.holds.0))
  assemble-EndsWell (suc fuel) n id page h room =
      elim (page_step_lem z frames (found_at n id page).1 page h
        (λ m at. chunk-P (Honest z frames) deadline _ id m (honest n _) at)) [
          | inl (e, ends, well) ↦ rw (assemble_ends fuel n id page e ends) (well, omega arith)
          | inr (on, next) ↦
              let page' = (page_step z (found_at n id page).1 page).0 in
              let (well, calls) =
                assemble-EndsWell fuel (n + 1) (found_at n id page).0 page' next.valid
                  (omega (arith, room, next.longer)) in
              rw (assemble_goes_on fuel n id page on) (
                subst
                    (λ start.
                      EndsWell z frames start
                        (assemble z deadline link fuel (n + 1) (found_at n id page).0 page').last)
                    next.same_start well,
                omega (arith, calls),
              )
        ]

  -- A page of the one frame that it names, from the offset on.
  pub record RemotePageValid (offset : ℕ) (page : RemotePage) : Type 0 where
    pub at_offset : page.start ≡ offset
    pub bounded : page.len ≤ z.frame_chunk_size
    pub of_frame : (i : ℕ) → i < page.len → page.cells i ≡ frames page.revision (offset + i)

  page_of-RemotePageValid :
      (offset : ℕ) (page : FramePageAssembly)
      → z.frame_chunk_size < 256
      → EndsWell z frames offset (PageEnd.page_complete page)
      → RemotePageValid offset (page_of page)
  page_of-RemotePageValid offset page byte (valid, at) = record {
    at_offset = at;
    bounded = omega (arith, valid.holds.0);
    of_frame = λ i below.
        valid.holds.2 i (omega (arith, below, byte, valid.holds.0))
        ∙ ap (frames page.revision) (omega (arith, at));
  }

  module _ (offset : ℕ) (small : offset < 2 ^ 16) (byte : z.frame_chunk_size < 256)
      (clock : ℕ → ℕ) where
    abbrev run_of : ℕ → ℕ → PageRun
    run_of n id = assemble z deadline link (page_fuel z deadline link) n id (FramePage.new offset)

    run_of-EndsWell : (n id : ℕ) → EndsWell z frames offset (run_of n id).last
    run_of-EndsWell n id =
        (assemble-EndsWell (page_fuel z deadline link) n id (FramePage.new offset)
          (new-PageValid z frames offset small) (omega arith)).0

    after_round-RemotePageValid :
        (e : PageEnd) (id now : ℕ) (rest : ℕ × Option RemotePage) (page : RemotePage)
        → EndsWell z frames offset e
        → (rest.1 ≡ some page → RemotePageValid offset page)
        → (after_round z deadline link e id now rest).1 ≡ some page
        → RemotePageValid offset page
    after_round-RemotePageValid (PageEnd.page_complete p) id now rest page well next found =
        subst (RemotePageValid offset) (some-injective (page_of p) page found)
          (page_of-RemotePageValid offset p byte well)
    after_round-RemotePageValid PageEnd.page_restart id now rest page well next found =
        next (ground (arith, found))
    after_round-RemotePageValid PageEnd.page_failed id now rest page well next found =
        absurd (ground (arith, found))
    after_round-RemotePageValid PageEnd.page_unfinished id now rest page well next found =
        absurd (ground (arith, well))

    rounds-RemotePageValid :
        (left n id : ℕ) (page : RemotePage)
        → (rounds z deadline link offset clock left n id).1 ≡ some page
        → RemotePageValid offset page
    unfolding rounds
    rounds-RemotePageValid zero n id page found = absurd (ground (arith, found))
    rounds-RemotePageValid (suc left) n id page found =
        let r = run_of n id in
        after_round-RemotePageValid r.last r.id (clock r.calls)
          (rounds z deadline link offset clock left r.calls r.id) page (run_of-EndsWell n id)
          (rounds-RemotePageValid left r.calls r.id page) found

    -- A page that is fetched from a peripheral that answers with chunks of its frames starts at the
    -- offset, is no longer than a page, and all its cells are those of the one frame that it names,
    -- though the frame may change between two chunks, answers may be late, lost or of other requests,
    -- and rounds may be restarted.
    pub read_page-RemotePageValid :
        (id : ℕ) (page : RemotePage)
        → (read_page z deadline link offset clock id).1 ≡ some page
        → RemotePageValid offset page
    unfolding read_page
    read_page-RemotePageValid id page found = rounds-RemotePageValid 2 0 id page found
