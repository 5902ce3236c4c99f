-- ===== src/Replies/FramePage.antt =====
-- `FramePageAssembly`: a page of a frame, put together from the chunks that a peripheral sends.
use moergo_rmk.Prelude.{
  ℕ, zero, suc, ◌+◌, ◌-◌, ◌^◌, ◌≤◌, ◌<◌, ◌≡◌, Bool, true, false, not, ◌&&◌, ◌||◌, Option, none,
  some, ◌==◌, leb, ltb, if◌then◌else◌, min,
}
use moergo_rmk.Wire.Rmk.{Foreign, Sizes}
use moergo_rmk.Wire.Types.{Rgb8}
use moergo_rmk.Wire.Message.{Message, frame_chunk_cells}

pub data FrameChunkDecision : Type 0 where
  accepted complete restart invalid : FrameChunkDecision

-- `cells` gives the colour at each index of the array.
pub record FramePageAssembly : Type 0 where
  pub start : ℕ
  pub revision : Option ℕ
  pub total : ℕ
  pub initialized : Bool
  pub len : ℕ
  pub cells : ℕ → Rgb8

abbrev pub black : Rgb8
black = record { r = 0; g = 0; b = 0 }

abbrev pub new : ℕ → FramePageAssembly
new start = record {
  start = start;
  revision = none;
  total = 0;
  initialized = false;
  len = 0;
  cells = λ i. black;
}

-- `u16::saturating_add`
abbrev pub saturating_add : ℕ → ℕ → ℕ
saturating_add a b = min (a + b) (2 ^ 16 - 1)

-- `!=` of `Option<u32>`, negated.
abbrev pub same_revision : Option ℕ → Option ℕ → Bool
same_revision none none = true
same_revision none (some b) = false
same_revision (some a) none = false
same_revision (some a) (some b) = a == b

-- `self.cells[at..at + n].copy_from_slice(&src[..n])`
abbrev pub copy_cells : ℕ → ℕ → (ℕ → Rgb8) → (ℕ → Rgb8) → ℕ → Rgb8
copy_cells at n src dst i = if leb at i && ltb i (at + n) then src (i - at) else dst i

-- The fields of a chunk that a page reads.
pub record Chunk : Type 0 where
  pub revision : Option ℕ
  pub total : ℕ
  pub start : ℕ
  pub len : ℕ
  pub cells : ℕ → Rgb8

abbrev pub four_cells : Rgb8 → Rgb8 → Rgb8 → Rgb8 → ℕ → Rgb8
four_cells c0 c1 c2 c3 zero = c0
four_cells c0 c1 c2 c3 (suc zero) = c1
four_cells c0 c1 c2 c3 (suc (suc zero)) = c2
four_cells c0 c1 c2 c3 (suc (suc (suc i))) = c3

module _ (z : Sizes) where
  -- `remaining.min(cells.len()).min(FRAME_CHUNK_SIZE - self.len)`
  abbrev pub wanted : Chunk → FramePageAssembly → ℕ
  wanted c page = min (min (c.total - c.start) frame_chunk_cells) (z.frame_chunk_size - page.len)

  -- The three assignments behind the first two tests.
  abbrev pub note_frame : Chunk → FramePageAssembly → FramePageAssembly
  note_frame c page = record page { initialized = true; total = c.total; revision = c.revision }

  -- The copy, and the answer.
  abbrev pub take_cells : Chunk → ℕ → FramePageAssembly → FramePageAssembly × FrameChunkDecision
  take_cells c n page = (
    record page { cells = copy_cells page.len n c.cells page.cells; len = page.len + n },
    if page.len + n == z.frame_chunk_size || leb c.total (saturating_add c.start n)
        then FrameChunkDecision.complete
        else FrameChunkDecision.accepted,
  )

  unfoldable pub accept_chunk : Chunk → FramePageAssembly → FramePageAssembly × FrameChunkDecision
  accept_chunk c page =
      if not (c.start == saturating_add page.start page.len) || ltb frame_chunk_cells c.len
      then (page, FrameChunkDecision.invalid)
      else if page.initialized
          && (not (page.total == c.total) || not (same_revision page.revision c.revision))
      then (page, FrameChunkDecision.restart)
      else if not (c.len == wanted c page)
      then (note_frame c page, FrameChunkDecision.invalid)
      else take_cells c (wanted c page) (note_frame c page)

  unfoldable pub accept :
      {F : Foreign} → Message F → FramePageAssembly → FramePageAssembly × FrameChunkDecision
  accept (Message.frame_chunk id revision total start len c0 c1 c2 c3) page =
      accept_chunk
        (record {
          revision = revision;
          total = total;
          start = start;
          len = len;
          cells = four_cells c0 c1 c2 c3;
        })
        page
  accept _ page = (page, FrameChunkDecision.invalid)

  -- A page holds the colours of a frame from its start on.
  abbrev pub HoldsFrame : (ℕ → Rgb8) → FramePageAssembly → Type 0
  HoldsFrame frame page =
      (page.len ≤ z.frame_chunk_size)
      × (page.start + page.len < 2 ^ 16)
      × ((i : ℕ) → i < page.len → page.cells i ≡ frame (page.start + i))

  -- A chunk of a frame: the colours from its start on.
  abbrev pub ChunkOf : (ℕ → Rgb8) → Chunk → Type 0
  ChunkOf frame c = (c.total < 2 ^ 16) × ((i : ℕ) → i < c.len → c.cells i ≡ frame (c.start + i))
