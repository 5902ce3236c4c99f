-- ===== src/Central/Honest.antt =====
-- What the chunks of a peripheral carry, and what a page holds of them.
use moergo_rmk.Prelude.{
  ℕ, ◌+◌, ◌%◌, ◌^◌, ◌≤◌, ◌<◌, ◌≡◌, refl, sym, subst, true, false, List, [], ◌∷◌, Option, none, some,
  All, if◌then◌else◌, arith, Bool-cases, Option-cases, inl, inr,
}
use moergo_rmk.Wire.Rmk.{Foreign, Sizes}
use moergo_rmk.Wire.Types.{Rgb8}
use moergo_rmk.Wire.Message.{Message}
use moergo_rmk.Replies.FramePage.{
  FramePageAssembly, FrameChunkDecision, Chunk, four_cells, accept, accept_chunk, saturating_add,
  HoldsFrame, ChunkOf, wanted, same_revision,
}
use moergo_rmk.Replies.FramePage as FramePage
use moergo_rmk.Replies.Pages.{
  took, took_lem, took_revision_lem, same_revision_lem, accept_chunk-HoldsFrame,
}
use moergo_rmk.Central.Frames.{Attempt, Call, answers, await_answer, attempt, chunk}

-- The chunk that a message carries.
abbrev pub chunk_of : {F : Foreign} → Message F → Option Chunk
chunk_of (Message.frame_chunk id revision total start len c0 c1 c2 c3) = some (record {
  revision = revision;
  total = total;
  start = start;
  len = len;
  cells = four_cells c0 c1 c2 c3;
})
chunk_of _ = none

-- A call whose responses all satisfy a predicate answers with a message that does.
module _ {F : Foreign} (P : Message F → Type 0) where
  abbrev pub Answers : Call F → Type 0
  Answers call = All P call.first.responses × All P call.second.responses

  the_first :
      (id : ℕ) (rest : Option (Message F)) (n m : Message F)
      → answers id n ≡ true
      → (if answers id n then some n else rest) ≡ some m
      → n ≡ m
  the_first id rest n m mine found = ground arith

  await_answer-P :
      (id : ℕ) (ms : List (Message F)) (m : Message F)
      → All P ms
      → await_answer id ms ≡ some m
      → P m
  await_answer-P id [] m all found = ground (arith, found)
  await_answer-P id (n ∷ ms) m (honest, rest) found = elim (Bool-cases (answers id n)) [
    | inl mine ↦ subst P (the_first id (await_answer id ms) n m mine found) honest
    | inr other ↦ await_answer-P id ms m rest (ground (arith, other, found))
  ]

  attempt-P :
      (deadline : ℕ) (a : Attempt F) (id : ℕ) (m : Message F)
      → All P a.responses
      → (attempt deadline a id).2 ≡ some m
      → P m
  unfolding attempt
  attempt-P deadline a id m all found =
      await_answer-P ((id + 1) % 256) a.responses m all (ground arith)

  pub chunk-P :
      (deadline : ℕ) (call : Call F) (id : ℕ) (m : Message F)
      → Answers call
      → (chunk deadline call id).1 ≡ some m
      → P m
  unfolding chunk
  chunk-P deadline call id m (first, second) found =
      elim (Option-cases (attempt deadline call.first id).2) [
        | inr (n, early) ↦ attempt-P deadline call.first id m first (ground (arith, early))
        | inl late ↦
            attempt-P deadline call.second (attempt deadline call.first id).0 m second
              (ground (arith, late))
      ]

module _ {F : Foreign} (z : Sizes) where
  pub accept-none :
      (m : Message F) (page : FramePageAssembly)
      → chunk_of m ≡ none
      → (accept z m page).1 ≡ FrameChunkDecision.invalid
  unfolding accept
  accept-none m page h = ground arith

  pub accept-some :
      (m : Message F) (page : FramePageAssembly) (c : Chunk)
      → chunk_of m ≡ some c
      → accept z m page ≡ accept_chunk z c page
  unfolding accept
  accept-some m page c h = ground arith

module _ {F : Foreign} (z : Sizes) (frames : Option ℕ → ℕ → Rgb8) where
  -- A message that carries a chunk carries one of the frame of its revision.
  abbrev pub Honest : Message F → Type 0
  Honest m = (c : Chunk) → chunk_of m ≡ some c → ChunkOf z (frames c.revision) c

  abbrev pub HonestCall : Call F → Type 0
  HonestCall = Answers Honest

-- A page as the loop has it: cells of the one frame that it names.
module _ (z : Sizes) (frames : Option ℕ → ℕ → Rgb8) where
  pub record PageValid (page : FramePageAssembly) : Type 0 where
    pub fresh_empty : page.initialized ≡ false → page.len ≡ 0
    pub holds : HoldsFrame z (frames page.revision) page

  pub new-PageValid : (offset : ℕ) → offset < 2 ^ 16 → PageValid (FramePage.new offset)
  new-PageValid offset small = record {
    fresh_empty = λ h. refl;
    holds = (omega arith, omega arith, λ i below. absurd (omega (arith, below)));
  }

  -- The frame of a chunk that is taken in is that of the page.
  holds_same :
      (c : Chunk) (page : FramePageAssembly)
      → PageValid page
      → took (accept_chunk z c page).1 ≡ true
      → HoldsFrame z (frames c.revision) page
  holds_same c page h ok =
      let facts = took_lem z c page ok in
      elim (Bool-cases page.initialized) [
        | inl old ↦
            subst (λ v. HoldsFrame z (frames v) page)
              (same_revision_lem page.revision c.revision (facts.6 old)) h.holds
        | inr new ↦
            (h.holds.0, h.holds.1, λ i below. absurd (omega (arith, below, h.fresh_empty new)))
      ]

  took-initialized :
      (c : Chunk) (page : FramePageAssembly)
      → took (accept_chunk z c page).1 ≡ true
      → (accept_chunk z c page).0.initialized ≡ true
  unfolding accept_chunk
  took-initialized c page ok = ground arith

  pub accept_chunk-PageValid :
      (c : Chunk) (page : FramePageAssembly)
      → PageValid page
      → ChunkOf z (frames c.revision) c
      → took (accept_chunk z c page).1 ≡ true
      → PageValid (accept_chunk z c page).0 × ((accept_chunk z c page).0.start ≡ page.start)
  accept_chunk-PageValid c page h part ok =
      let facts =
        accept_chunk-HoldsFrame z (frames c.revision) c page (holds_same c page h ok) part ok in
      (
        record {
          fresh_empty = λ new. absurd (ground (arith, new, took-initialized c page ok));
          holds =
              subst (λ v. HoldsFrame z (frames v) (accept_chunk z c page).0)
                (sym (took_revision_lem z c page ok)) facts.0;
        },
        facts.2,
      )

  -- An accepted chunk makes the page longer.
  pub accepted-longer :
      (c : Chunk) (page : FramePageAssembly)
      → (accept_chunk z c page).1 ≡ FrameChunkDecision.accepted
      → page.start + page.len < 2 ^ 16
      → page.len ≤ z.frame_chunk_size
      → page.len < (accept_chunk z c page).0.len
  unfolding accept_chunk
  accepted-longer c page h small fits = ground arith
