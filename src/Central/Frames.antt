-- ===== src/Central/Frames.antt =====
-- `RemoteFrameBridge`: a page of the right half's frame, fetched chunk by chunk.
use moergo_rmk.Prelude.{
  ℕ, zero, suc, ◌+◌, ◌%◌, ◌^◌, ◌&&◌, Bool, true, false, List, [], ◌∷◌, Option, none, some, ◌==◌,
  leb, if◌then◌else◌,
}
use moergo_rmk.Wire.Rmk.{Foreign, Sizes}
use moergo_rmk.Wire.Types.{Rgb8}
use moergo_rmk.Wire.Message.{Message}
use moergo_rmk.Replies.FramePage.{FramePageAssembly, FrameChunkDecision, accept, saturating_add}
use moergo_rmk.Replies.FramePage as FramePage
use moergo_rmk.Central.State.{u8_mod}

-- What one attempt meets: the clock, whether the queue takes the request, and the responses that
-- arrive before the deadline of the attempt, in order.
pub record Attempt (F : Foreign) : Type 0 where
  pub now : ℕ
  pub sent : Bool
  pub responses : List (Message F)

-- The two attempts of a call of `chunk`.
pub record Call (F : Foreign) : Type 0 where
  pub first : Attempt F
  pub second : Attempt F

module _ {F : Foreign} where
  abbrev pub answers : ℕ → Message F → Bool
  answers id (Message.frame_chunk response_id _ _ _ _ _ _ _ _) = response_id == id
  answers id _ = false

  -- The inner loop of `chunk`: other messages are passed over.
  abbrev pub await_answer : ℕ → List (Message F) → Option (Message F)
  await_answer id [] = none
  await_answer id (m ∷ ms) = let rest = await_answer id ms in if answers id m then some m else rest

  -- One attempt; the flag tells whether the deadline of the page has passed, which ends the call.
  unfoldable pub attempt : ℕ → Attempt F → ℕ → ℕ × Bool × Option (Message F)
  attempt deadline a id =
      if leb deadline a.now
      then (id, true, none)
      else (let id' = (id + 1) % u8_mod in
          if a.sent then (id', false, await_answer id' a.responses) else (id', false, none))

  -- `chunk`; the state is `next_request_id`.
  unfoldable pub chunk : ℕ → Call F → ℕ → ℕ × Option (Message F)
  chunk deadline call id =
      let (id', over, found) = attempt deadline call.first id in
      elim found [
        | some m ↦ (id', some m)
        | none ↦
            (if over
              then (id', none)
              else (let (id2, over2, found2) = attempt deadline call.second id' in (id2, found2)))
      ]

-- How the inner loop of `read_page` ends. It is given fuel.
pub data PageEnd : Type 0 where
  page_complete : FramePageAssembly → PageEnd
  page_restart page_failed page_unfinished : PageEnd

-- What the inner loop leaves: `next_request_id`, the number of calls so far, and its end.
pub record PageRun : Type 0 where
  pub id : ℕ
  pub calls : ℕ
  pub last : PageEnd

-- `rmk::lighting::FramePage`
pub record RemotePage : Type 0 where
  pub revision : Option ℕ
  pub total : ℕ
  pub start : ℕ
  pub len : ℕ
  pub cells : ℕ → Rgb8

abbrev pub page_of : FramePageAssembly → RemotePage
page_of p = record {
  revision = p.revision;
  total = p.total;
  start = p.start;
  len = p.len % 256;
  cells = p.cells;
}

-- The match on the decision of `accept`: nothing goes on with the loop.
abbrev pub end_of : FramePageAssembly → FrameChunkDecision → Option PageEnd
end_of page FrameChunkDecision.accepted = none
end_of page FrameChunkDecision.complete = some (PageEnd.page_complete page)
end_of page FrameChunkDecision.restart = some PageEnd.page_restart
end_of page FrameChunkDecision.invalid = some PageEnd.page_failed

module _ {F : Foreign} (z : Sizes) where
  unfoldable pub page_step :
      Option (Message F) → FramePageAssembly → FramePageAssembly × Option PageEnd
  page_step none page = (page, some PageEnd.page_failed)
  page_step (some m) page = let (page', d) = accept z m page in (page', end_of page' d)

  module _ (deadline : ℕ) (link : ℕ → ℕ → Call F) where
    -- The inner loop; `link` tells what the n-th call of `chunk`, at the offset it asks for, meets.
    unfoldable pub assemble : ℕ → ℕ → ℕ → FramePageAssembly → PageRun
    assemble zero n id page = record { id = id; calls = n; last = PageEnd.page_unfinished }
    assemble (suc fuel) n id page =
        let (id', found) =
          chunk deadline (link n (saturating_add page.start (page.len % 2 ^ 16))) id in
        let (page', ends) = page_step found page in
        let rest = assemble fuel (n + 1) id' page' in
        elim ends [ some e ↦ record { id = id'; calls = n + 1; last = e } | none ↦ rest ]

    -- A chunk that is accepted carries a cell, and a page holds `FRAME_CHUNK_SIZE` of them.
    abbrev pub page_fuel : ℕ
    page_fuel = z.frame_chunk_size + 1

    -- The match on the end of a round, at `now`; `rest` is what the next rounds answer.
    abbrev pub after_round : PageEnd → ℕ → ℕ → ℕ × Option RemotePage → ℕ × Option RemotePage
    after_round (PageEnd.page_complete page) id now rest = (id, some (page_of page))
    after_round PageEnd.page_restart id now rest = if leb deadline now then (id, none) else rest
    after_round PageEnd.page_failed id now rest = (id, none)
    after_round PageEnd.page_unfinished id now rest = (id, none)

    module _ (offset : ℕ) (clock : ℕ → ℕ) where
      -- `read_page`, with the rounds that are left; `clock` is read behind a restart, and tells the
      -- time after so many calls.
      unfoldable pub rounds : ℕ → ℕ → ℕ → ℕ × Option RemotePage
      rounds zero n id = (id, none)
      rounds (suc left) n id =
          let r = assemble page_fuel n id (FramePage.new offset) in
          let rest = rounds left r.calls r.id in after_round r.last r.id (clock r.calls) rest

      unfoldable pub read_page : ℕ → ℕ × Option RemotePage
      read_page id = rounds 2 0 id

  -- The body of `run`: a request for another node, or with the link down, is answered with nothing.
  unfoldable pub serve : Bool → (ℕ → ℕ → Call F) → (ℕ → ℕ) → ℕ → ℕ → ℕ → ℕ → ℕ × Option RemotePage
  serve link_up link clock started node offset id =
      if node == 1 && link_up then read_page (started + 900) link offset clock id else (id, none)
