-- ===== src/Uf2/Loop.antt =====
-- What every block of the file holds when the loop has ended.
use moergo_rmk.Prelude.{
  ℕ, zero, suc, ◌+◌, ◌-◌, ◌*◌, ◌^◌, ◌≤◌, ◌<◌, ◌≡◌, ◌⊎◌, refl, sym, subst, ap, ◌∙◌, ok, arith, inl,
  inr,
}
use moergo_rmk.Uf2.{Bytes, uf2_magic0, uf2_magic1, uf2_magic_end, word, put, copy_slice}
use moergo_rmk.Uf2.Encode.{fill_blocks, blocks_of}
use moergo_rmk.Uf2.Blocks.{
  chunk_len, header, filled, fill_block_ok, filled-Outside, header_words, word-put, word_under,
  word-copy_slice,
}

-- The two buffers agree on the block `b`.
abbrev Agree : ℕ → (ℕ → ℕ) → (ℕ → ℕ) → Type 0
Agree b at at' = (i : ℕ) → b * 512 ≤ i → i < b * 512 + 512 → at' i ≡ at i

Agree-word :
    (b o : ℕ) (at at' : ℕ → ℕ)
    → Agree b at at'
    → b * 512 ≤ o
    → o + 4 ≤ b * 512 + 512
    → word o at' ≡ word o at
Agree-word b o at at' same low high = omega (
  arith,
  same o low (omega (arith, high)),
  same (o + 1) (omega (arith, low)) (omega (arith, high)),
  same (o + 2) (omega (arith, low)) (omega (arith, high)),
  same (o + 3) (omega (arith, low)) (omega (arith, high)),
)

put_under : (i p v : ℕ) (at : ℕ → ℕ) → i < p → put p v at i ≡ at i
unfolding put
put_under i p v at below = ground arith

copied_inside :
    (o n i : ℕ) (src at : ℕ → ℕ) → o ≤ i → i < o + n → copy_slice o n src at i ≡ src (i - o)
unfolding copy_slice
copied_inside o n i src at low high = ground arith

copied_at : (o k n i : ℕ) (src at : ℕ → ℕ) → i ≡ o + k → k < n → copy_slice o n src at i ≡ src k
unfolding copy_slice
copied_at o k n i src at same below =
    rw (copied_inside o n i src at (omega (arith, same)) (omega (arith, same, below)))
      (ap src (omega (arith, same)))

split_lt : (b n : ℕ) → b < suc n → (b < n) ⊎ (b ≡ n)
split_lt b n h = ground arith

module _ (start family : ℕ) (image : Bytes) where
  -- The words and the payload of a block.
  pub record BlockWords (b : ℕ) (at : ℕ → ℕ) : Type 0 where
    pub magic0 : word (b * 512) at ≡ uf2_magic0
    pub magic1 : word (b * 512 + 4) at ≡ uf2_magic1
    pub flags : word (b * 512 + 8) at ≡ 0x2000
    pub address : word (b * 512 + 12) at ≡ start + b * 256
    pub size : word (b * 512 + 16) at ≡ 256
    pub number : word (b * 512 + 20) at ≡ b
    pub count : word (b * 512 + 24) at ≡ blocks_of image.len
    pub family_id : word (b * 512 + 28) at ≡ family
    pub magic_end : word (b * 512 + 508) at ≡ uf2_magic_end
    pub payload :
        (k : ℕ)
        → k < chunk_len start family image b
        → at (b * 512 + (32 + k)) ≡ image.at (b * 256 + k)

  Agree-BlockWords : (b : ℕ) (at at' : ℕ → ℕ) → Agree b at at' → BlockWords b at → BlockWords b at'
  Agree-BlockWords b at at' same w = record {
    magic0 = Agree-word b (b * 512) at at' same (omega arith) (omega arith) ∙ w.magic0;
    magic1 = Agree-word b (b * 512 + 4) at at' same (omega arith) (omega arith) ∙ w.magic1;
    flags = Agree-word b (b * 512 + 8) at at' same (omega arith) (omega arith) ∙ w.flags;
    address = Agree-word b (b * 512 + 12) at at' same (omega arith) (omega arith) ∙ w.address;
    size = Agree-word b (b * 512 + 16) at at' same (omega arith) (omega arith) ∙ w.size;
    number = Agree-word b (b * 512 + 20) at at' same (omega arith) (omega arith) ∙ w.number;
    count = Agree-word b (b * 512 + 24) at at' same (omega arith) (omega arith) ∙ w.count;
    family_id = Agree-word b (b * 512 + 28) at at' same (omega arith) (omega arith) ∙ w.family_id;
    magic_end = Agree-word b (b * 512 + 508) at at' same (omega arith) (omega arith) ∙ w.magic_end;
    payload = λ k below. same _ (omega arith) (omega (arith, below)) ∙ w.payload k below;
  }

  word-filled :
      (b o : ℕ) (at : ℕ → ℕ)
      → o + 4 ≤ b * 512 + 32
      → word o (filled start family image b at) ≡ word o (header start family image b at)
  unfolding filled
  word-filled b o at below =
      word_under o (b * 512 + 508) uf2_magic_end _ (omega (arith, below))
      ∙ word-copy_slice o (b * 512 + 32) (chunk_len start family image b) _
          (header start family image b at) (inl below)

  filled_payload :
      (b k : ℕ) (at : ℕ → ℕ)
      → k < chunk_len start family image b
      → filled start family image b at (b * 512 + (32 + k)) ≡ image.at (b * 256 + k)
  unfolding filled
  filled_payload b k at below =
      put_under (b * 512 + (32 + k)) (b * 512 + 508) uf2_magic_end _ (omega (arith, below))
      ∙ copied_at (b * 512 + 32) k (chunk_len start family image b) (b * 512 + (32 + k)) _ _
          (omega arith) below

  filled_end :
      (b : ℕ) (at : ℕ → ℕ) → word (b * 512 + 508) (filled start family image b at) ≡ uf2_magic_end
  unfolding filled
  filled_end b at = word-put (b * 512 + 508) uf2_magic_end _ (omega arith)

  filled-BlockWords :
      (b : ℕ) (at : ℕ → ℕ)
      → start + b * 256 < 2 ^ 32
      → blocks_of image.len < 2 ^ 32
      → family < 2 ^ 32
      → BlockWords b (filled start family image b at)
  filled-BlockWords b at ha hc hf =
      let h = header_words start family image b at ha (omega (arith, ha)) hc hf in
      record {
        magic0 = word-filled b (b * 512) at (omega arith) ∙ h.0;
        magic1 = word-filled b (b * 512 + 4) at (omega arith) ∙ h.1;
        flags = word-filled b (b * 512 + 8) at (omega arith) ∙ h.2;
        address = word-filled b (b * 512 + 12) at (omega arith) ∙ h.3;
        size = word-filled b (b * 512 + 16) at (omega arith) ∙ h.4;
        number = word-filled b (b * 512 + 20) at (omega arith) ∙ h.5;
        count = word-filled b (b * 512 + 24) at (omega arith) ∙ h.6;
        family_id = word-filled b (b * 512 + 28) at (omega arith) ∙ h.7;
        magic_end = filled_end b at;
        payload = λ k below. filled_payload b k at below;
      }

  -- The buffer behind the first `n` rounds.
  abbrev pub rounds_at : ℕ → (ℕ → ℕ) → ℕ → ℕ
  rounds_at zero at = at
  rounds_at (suc n) at = filled start family image n (rounds_at n at)

  module _ (hs : start + image.len < 2 ^ 32) (hf : family < 2 ^ 32) where
    -- Within the blocks of the image no number overflows.
    pub count_small : blocks_of image.len < 2 ^ 32
    unfolding blocks_of
    count_small = omega (arith, hs)

    pub block_small : (n : ℕ) → n < blocks_of image.len → start + n * 256 < 2 ^ 32
    unfolding blocks_of
    block_small n below = omega (arith, hs, below)

    pub rounds-BlockWords :
        (n : ℕ) (at : ℕ → ℕ)
        → n ≤ blocks_of image.len
        → (b : ℕ) → b < n
        → BlockWords b (rounds_at n at)
    rounds-BlockWords zero at fits b below = absurd (omega (arith, below))
    rounds-BlockWords (suc n) at fits b below = elim (split_lt b n below) [
      | inr last ↦
          subst (λ k. BlockWords k (rounds_at (suc n) at)) (sym last)
            (filled-BlockWords n (rounds_at n at) (block_small n (omega (arith, fits))) count_small
              hf)
      | inl before ↦
          Agree-BlockWords b (rounds_at n at) (rounds_at (suc n) at)
            (λ i low high.
              filled-Outside start family image n i (rounds_at n at)
                (inl (omega (arith, before, high))))
            (rounds-BlockWords n at (omega (arith, fits)) b before)
    ]

    pub fill_blocks_ok :
        (n : ℕ) (uf2 : Bytes)
        → n ≤ blocks_of image.len
        → uf2.len ≡ blocks_of image.len * 512
        → fill_blocks start family image n uf2
          ≡ ok (record { len = uf2.len; at = rounds_at n uf2.at })
    unfolding fill_blocks
    fill_blocks_ok zero uf2 fits size = refl
    fill_blocks_ok (suc n) uf2 fits size = rw (fill_blocks_ok n uf2 (omega (arith, fits)) size) (
        fill_block_ok start family image n (record { len = uf2.len; at = rounds_at n uf2.at })
          (omega (arith, fits, size)) (omega (arith, block_small n (omega (arith, fits))))
          count_small)
