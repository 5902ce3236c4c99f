-- ===== src/Central/Fetch/Tests.antt =====
-- A page that is fetched from a peripheral that answers at once.
use moergo_rmk.Prelude.{
  ℕ, zero, suc, ◌+◌, ◌<◌, ◌≤◌, ◌≡◌, refl, ap, subst, some-injective, true, false, [], ◌∷◌, Option,
  none, some, arith,
}
use moergo_rmk.Wire.Types.{Rgb8}
use moergo_rmk.Wire.Message.{Message}
use moergo_rmk.Fixtures.{example_foreign, glove80}
use moergo_rmk.Replies.FramePage.{
  Chunk, ChunkOf, four_cells, FramePageAssembly, accept, accept_chunk,
}
use moergo_rmk.Replies.FramePage as FramePage
use moergo_rmk.Central.Frames.{
  Call, RemotePage, chunk, attempt, assemble, page_step, rounds, read_page,
}
use moergo_rmk.Central.Honest.{Answers, Honest, HonestCall}
use moergo_rmk.Central.Fetch.{RemotePageValid, read_page-RemotePageValid}
use moergo_rmk.Central.Fetch.Ends.{ShortTotal, is_unfinished, assemble-finishes}

abbrev grey : ℕ → Rgb8
grey i = record { r = i; g = i; b = i }

abbrev frames : Option ℕ → ℕ → Rgb8
frames v i = grey i

abbrev reply : ℕ → ℕ → Message example_foreign
reply n offset =
    Message.frame_chunk (n + 1) (some 7) 40 offset 4 (grey offset) (grey (offset + 1))
      (grey (offset + 2)) (grey (offset + 3))

abbrev link : ℕ → ℕ → Call example_foreign
link n offset = record {
  first = record { now = 10; sent = true; responses = reply n offset ∷ [] };
  second = record { now = 70; sent = true; responses = [] };
}

four_cells_lem :
    (offset i : ℕ)
    → i < 4
    → four_cells (grey offset) (grey (offset + 1)) (grey (offset + 2)) (grey (offset + 3)) i
      ≡ grey (offset + i)
four_cells_lem offset zero h = ap grey (omega arith)
four_cells_lem offset (suc zero) h = refl
four_cells_lem offset (suc (suc zero)) h = refl
four_cells_lem offset (suc (suc (suc zero))) h = refl
four_cells_lem offset (suc (suc (suc (suc i)))) h = absurd (omega (arith, h))

reply-Honest : (n offset : ℕ) → Honest glove80 frames (reply n offset)
reply-Honest n offset c carries =
    subst (λ k. ChunkOf glove80 (frames k.revision) k) (some-injective _ c carries)
      (omega arith, λ i below. four_cells_lem offset i below)

link-HonestCall : (n offset : ℕ) → HonestCall glove80 frames (link n offset)
link-HonestCall n offset = ((reply-Honest n offset, tt), tt)

link-Answers : (n offset : ℕ) → Answers ShortTotal (link n offset)
link-Answers n offset = (((λ c carries. (reply-Honest n offset c carries).0), tt), tt)

assemble-finishes_example :
    (is_unfinished (assemble glove80 900 link 21 0 0 (FramePage.new 4)).last ≡ false)
    × ((assemble glove80 900 link 21 0 0 (FramePage.new 4)).calls ≤ 21)
assemble-finishes_example =
    assemble-finishes glove80 900 link link-Answers 21 0 0 (FramePage.new 4) (omega arith)
      (omega arith)

abbrev fetched : Option RemotePage
fetched = (read_page glove80 900 link 4 (λ n. 20) 0).1

abbrev black_page : RemotePage
black_page = record { revision = none; total = 0; start = 0; len = 0; cells = grey }

abbrev the_page : Option RemotePage → RemotePage
the_page none = black_page
the_page (some p) = p

read_page-RemotePageValid_example :
    RemotePageValid glove80 frames 900 link link-HonestCall 4 (the_page fetched)
unfolding read_page rounds assemble page_step chunk attempt accept accept_chunk
read_page-RemotePageValid_example =
    read_page-RemotePageValid glove80 frames 900 link link-HonestCall 4 (omega arith) (omega arith)
      (λ n. 20) 0 (the_page fetched) refl
