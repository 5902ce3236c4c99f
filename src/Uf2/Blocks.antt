-- ===== src/Uf2/Blocks.antt =====
-- What one block holds after it is filled, and that the loop fills each block once.
use moergo_rmk.Prelude.{
  ℕ, ◌+◌, ◌-◌, ◌*◌, ◌^◌, ◌≤◌, ◌<◌, ◌≡◌, ◌⊎◌, ◌∙◌, ok, min, arith, inl, leb_of_le, ltb_of_lt,
}
use moergo_rmk.Uf2.{
  Bytes, uf2_magic0, uf2_magic1, uf2_magic_end, to_u32, word, put, copy_slice, write_u32,
}
use moergo_rmk.Uf2.Encode.{fill_block, blocks_of}

-- A word that is written is read back, and no other word changes.
pub word-put : (o v : ℕ) (at : ℕ → ℕ) → v < 2 ^ 32 → word o (put o v at) ≡ v
unfolding put
word-put o v at small = ground arith

pub word-put_apart :
    (o p v : ℕ) (at : ℕ → ℕ) → (o + 4 ≤ p) ⊎ (p + 4 ≤ o) → word o (put p v at) ≡ word o at
unfolding put
word-put_apart o p v at apart = ground arith

pub word_under : (o p v : ℕ) (at : ℕ → ℕ) → o + 4 ≤ p → word o (put p v at) ≡ word o at
word_under o p v at below = word-put_apart o p v at (inl below)

pub word-copy_slice :
    (o p n : ℕ) (src at : ℕ → ℕ)
    → (o + 4 ≤ p) ⊎ (p + n ≤ o)
    → word o (copy_slice p n src at) ≡ word o at
unfolding copy_slice
word-copy_slice o p n src at apart = ground arith

write_u32_ok :
    (o v : ℕ) (b : Bytes)
    → o + 4 ≤ b.len
    → write_u32 o v b ≡ ok (record { len = b.len; at = put o v b.at })
unfolding write_u32
write_u32_ok o v b fits = rw (leb_of_le (o + 4) b.len fits)

to_u32_ok : (n : ℕ) → n < 2 ^ 32 → to_u32 n ≡ ok n
to_u32_ok n small = rw (ltb_of_lt n (2 ^ 32) small)

module _ (start family : ℕ) (image : Bytes) where
  -- The bytes that one round leaves.
  abbrev pub chunk_len : ℕ → ℕ
  chunk_len b = min (b * 256 + 256) image.len - b * 256

  unfoldable pub header : ℕ → (ℕ → ℕ) → ℕ → ℕ
  header b at =
      let base = b * 512 in
      put (base + 28) family (
        put (base + 24) (blocks_of image.len) (
          put (base + 20) b (
            put (base + 16) 256 (
              put (base + 12) (start + b * 256)
                (put (base + 8) 0x2000 (put (base + 4) uf2_magic1 (put base uf2_magic0 at)))))))

  unfoldable pub filled : ℕ → (ℕ → ℕ) → ℕ → ℕ
  filled b at =
      put (b * 512 + 508) uf2_magic_end
        (copy_slice (b * 512 + 32) (chunk_len b) (λ i. image.at (b * 256 + i)) (header b at))

  pub fill_block_ok :
      (b : ℕ) (uf2 : Bytes)
      → b * 512 + 512 ≤ uf2.len
      → b * 256 < 2 ^ 32
      → blocks_of image.len < 2 ^ 32
      → fill_block start family image b uf2 ≡ ok (record { len = uf2.len; at = filled b uf2.at })
  unfolding fill_block filled header write_u32
  fill_block_ok b uf2 room small count = ground arith

  -- A byte outside the block `b`.
  abbrev pub Outside : ℕ → ℕ → Type 0
  Outside b i = (i < b * 512) ⊎ (b * 512 + 512 ≤ i)

  put-Outside :
      (b i p v : ℕ) (at : ℕ → ℕ)
      → Outside b i
      → b * 512 ≤ p
      → p + 4 ≤ b * 512 + 512
      → put p v at i ≡ at i
  unfolding put
  put-Outside b i p v at apart low high = ground arith

  pub header-Outside : (b i : ℕ) (at : ℕ → ℕ) → Outside b i → header b at i ≡ at i
  unfolding header
  header-Outside b i at apart =
      put-Outside b i _ _ _ apart (omega arith) (omega arith)
      ∙ put-Outside b i _ _ _ apart (omega arith) (omega arith)
      ∙ put-Outside b i _ _ _ apart (omega arith) (omega arith)
      ∙ put-Outside b i _ _ _ apart (omega arith) (omega arith)
      ∙ put-Outside b i _ _ _ apart (omega arith) (omega arith)
      ∙ put-Outside b i _ _ _ apart (omega arith) (omega arith)
      ∙ put-Outside b i _ _ _ apart (omega arith) (omega arith)
      ∙ put-Outside b i _ _ at apart (omega arith) (omega arith)

  copy-Outside :
      (b i n : ℕ) (src at : ℕ → ℕ)
      → Outside b i
      → n ≤ 256
      → copy_slice (b * 512 + 32) n src at i ≡ at i
  unfolding copy_slice
  copy-Outside b i n src at apart short = ground arith

  -- The round changes no byte of another block.
  pub filled-Outside : (b i : ℕ) (at : ℕ → ℕ) → Outside b i → filled b at i ≡ at i
  unfolding filled
  filled-Outside b i at apart =
      put-Outside b i (b * 512 + 508) uf2_magic_end _ apart (omega arith) (omega arith)
      ∙ copy-Outside b i (chunk_len b) _ (header b at) apart (omega arith)
      ∙ header-Outside b i at apart

  pub header_words :
      (b : ℕ) (at : ℕ → ℕ)
      → start + b * 256 < 2 ^ 32
      → b < 2 ^ 32
      → blocks_of image.len < 2 ^ 32
      → family < 2 ^ 32
      → (word (b * 512) (header b at) ≡ uf2_magic0)
        × (word (b * 512 + 4) (header b at) ≡ uf2_magic1)
        × (word (b * 512 + 8) (header b at) ≡ 0x2000)
        × (word (b * 512 + 12) (header b at) ≡ start + b * 256)
        × (word (b * 512 + 16) (header b at) ≡ 256)
        × (word (b * 512 + 20) (header b at) ≡ b)
        × (word (b * 512 + 24) (header b at) ≡ blocks_of image.len)
        × (word (b * 512 + 28) (header b at) ≡ family)
  unfolding header
  header_words b at ha hb hc hf = (
    word_under (b * 512) (b * 512 + 28) family _ (omega arith)
        ∙ word_under (b * 512) (b * 512 + 24) (blocks_of image.len) _ (omega arith)
        ∙ word_under (b * 512) (b * 512 + 20) b _ (omega arith)
        ∙ word_under (b * 512) (b * 512 + 16) 256 _ (omega arith)
        ∙ word_under (b * 512) (b * 512 + 12) (start + b * 256) _ (omega arith)
        ∙ word_under (b * 512) (b * 512 + 8) 0x2000 _ (omega arith)
        ∙ word_under (b * 512) (b * 512 + 4) uf2_magic1 _ (omega arith)
        ∙ word-put (b * 512) uf2_magic0 _ (omega arith),
    word_under (b * 512 + 4) (b * 512 + 28) family _ (omega arith)
        ∙ word_under (b * 512 + 4) (b * 512 + 24) (blocks_of image.len) _ (omega arith)
        ∙ word_under (b * 512 + 4) (b * 512 + 20) b _ (omega arith)
        ∙ word_under (b * 512 + 4) (b * 512 + 16) 256 _ (omega arith)
        ∙ word_under (b * 512 + 4) (b * 512 + 12) (start + b * 256) _ (omega arith)
        ∙ word_under (b * 512 + 4) (b * 512 + 8) 0x2000 _ (omega arith)
        ∙ word-put (b * 512 + 4) uf2_magic1 _ (omega arith),
    word_under (b * 512 + 8) (b * 512 + 28) family _ (omega arith)
        ∙ word_under (b * 512 + 8) (b * 512 + 24) (blocks_of image.len) _ (omega arith)
        ∙ word_under (b * 512 + 8) (b * 512 + 20) b _ (omega arith)
        ∙ word_under (b * 512 + 8) (b * 512 + 16) 256 _ (omega arith)
        ∙ word_under (b * 512 + 8) (b * 512 + 12) (start + b * 256) _ (omega arith)
        ∙ word-put (b * 512 + 8) 0x2000 _ (omega arith),
    word_under (b * 512 + 12) (b * 512 + 28) family _ (omega arith)
        ∙ word_under (b * 512 + 12) (b * 512 + 24) (blocks_of image.len) _ (omega arith)
        ∙ word_under (b * 512 + 12) (b * 512 + 20) b _ (omega arith)
        ∙ word_under (b * 512 + 12) (b * 512 + 16) 256 _ (omega arith)
        ∙ word-put (b * 512 + 12) (start + b * 256) _ (omega arith),
    word_under (b * 512 + 16) (b * 512 + 28) family _ (omega arith)
        ∙ word_under (b * 512 + 16) (b * 512 + 24) (blocks_of image.len) _ (omega arith)
        ∙ word_under (b * 512 + 16) (b * 512 + 20) b _ (omega arith)
        ∙ word-put (b * 512 + 16) 256 _ (omega arith),
    word_under (b * 512 + 20) (b * 512 + 28) family _ (omega arith)
        ∙ word_under (b * 512 + 20) (b * 512 + 24) (blocks_of image.len) _ (omega arith)
        ∙ word-put (b * 512 + 20) b _ (omega arith),
    word_under (b * 512 + 24) (b * 512 + 28) family _ (omega arith)
        ∙ word-put (b * 512 + 24) (blocks_of image.len) _ (omega arith),
    word-put (b * 512 + 28) family _ (omega arith),
  )
