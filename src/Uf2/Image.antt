-- ===== src/Uf2/Image.antt =====
-- The flat image of segments that lie apart.
use moergo_rmk.Prelude.{
  ℕ, ◌+◌, ◌-◌, ◌^◌, ◌≤◌, ◌<◌, ◌≡◌, refl, ap, ◌∙◌, List, [], ◌∷◌, ok, arith, leb_of_le, ltb_of_lt,
  ltb_of_le,
}
use moergo_rmk.Uf2.{Bytes, copy_slice}
use moergo_rmk.Uf2.Elf.{Segment}
use moergo_rmk.Uf2.Encode.{image_end, place, place_all, flatten, filled_with}

abbrev pub end_of : Segment → ℕ
end_of s = s.address + s.data_bytes.len

-- The segments are in the order of their addresses from `low` on, and do not overlap.
abbrev pub Apart : ℕ → List Segment → Type 0
Apart low [] = Unit {0}
Apart low (s ∷ ss) = (low ≤ s.address) × Apart (end_of s) ss

abbrev pub last_end : ℕ → List Segment → ℕ
last_end low [] = low
last_end low (s ∷ ss) = last_end (end_of s) ss

-- The image that begins at `start` has the bytes of every segment at its address.
abbrev pub HoldsAll : ℕ → List Segment → (ℕ → ℕ) → Type 0
HoldsAll start [] at = Unit {0}
HoldsAll start (s ∷ ss) at =
    ((k : ℕ) → k < s.data_bytes.len → at (s.address - start + k) ≡ s.data_bytes.at k)
    × HoldsAll start ss at

last_end_le : (low : ℕ) (ss : List Segment) → Apart low ss → low ≤ last_end low ss
last_end_le low [] apart = omega arith
last_end_le low (s ∷ ss) (above, apart) = omega (arith, above, last_end_le (end_of s) ss apart)

image_end_ok :
    (low : ℕ) (ss : List Segment)
    → Apart low ss
    → last_end low ss < 2 ^ 32
    → image_end low ss ≡ ok (last_end low ss)
unfolding image_end
image_end_ok low [] apart small = refl
image_end_ok low (s ∷ ss) (above, apart) small =
    let under = last_end_le (end_of s) ss apart in
    let bound : end_of s < 2 ^ 32 = omega (arith, small, under) in
    rw
      (
        ltb_of_lt s.data_bytes.len (2 ^ 32) (omega (arith, bound)),
        ltb_of_lt (end_of s) (2 ^ 32) bound,
        leb_of_le low (end_of s) (omega (arith, above)),
      )
      (image_end_ok (end_of s) ss apart small)

place_ok :
    (start : ℕ) (s : Segment) (image : Bytes)
    → start ≤ s.address
    → (s.address - start) + s.data_bytes.len ≤ image.len
    → place start s image
      ≡ ok (record {
        len = image.len;
        at = copy_slice (s.address - start) s.data_bytes.len s.data_bytes.at image.at;
      })
unfolding place
place_ok start s image above fits = rw (ltb_of_le s.address start above, leb_of_le _ image.len fits)

copy_slice_before : (o n i : ℕ) (src at : ℕ → ℕ) → i < o → copy_slice o n src at i ≡ at i
unfolding copy_slice
copy_slice_before o n i src at before = ground arith

copy_slice_inside : (o n k : ℕ) (src at : ℕ → ℕ) → k < n → copy_slice o n src at (o + k) ≡ src k
unfolding copy_slice
copy_slice_inside o n k src at below =
    rw (leb_of_le o (o + k) (omega arith), ltb_of_lt (o + k) (o + n) (omega (arith, below)))
      (ap src (omega arith))

-- The loop over the segments: each byte below them stays, and each segment is there.
place_all_ok :
    (start low : ℕ) (ss : List Segment) (image : Bytes)
    → start ≤ low
    → Apart low ss
    → last_end low ss ≤ start + image.len
    → (image' : Bytes) × (place_all start ss image ≡ ok image')
      × (image'.len ≡ image.len)
      × ((i : ℕ) → start + i < low → image'.at i ≡ image.at i)
      × HoldsAll start ss image'.at
unfolding place_all
place_all_ok start low [] image from apart fits = (image, refl, refl, λ i below. refl, tt)
place_all_ok start low (s ∷ ss) image from (above, apart) fits =
    let under = last_end_le (end_of s) ss apart in
    let next : Bytes = record {
      len = image.len;
      at = copy_slice (s.address - start) s.data_bytes.len s.data_bytes.at image.at;
    } in
    let (image', placed, same, kept, all) =
      place_all_ok start (end_of s) ss next (omega (arith, from, above)) apart fits in
    (
      image',
      rw
          (place_ok start s image (omega (arith, from, above))
            (omega (arith, from, above, fits, under)))
          placed,
      same,
      λ i below.
          kept i (omega (arith, below, above))
          ∙ copy_slice_before (s.address - start) s.data_bytes.len i s.data_bytes.at image.at
              (omega (arith, below, above)),
      (
        λ k inside.
            kept (s.address - start + k) (omega (arith, from, above, inside))
            ∙ copy_slice_inside (s.address - start) s.data_bytes.len k s.data_bytes.at image.at
                inside,
        all,
      ),
    )

-- Segments in the order of their addresses that do not overlap, with an end below 2^32, are flattened
-- without an error: the image reaches from the first address to the last end and has the bytes of
-- every segment at its address.
pub flatten-HoldsAll :
    (first : Segment) (rest : List Segment)
    → Apart first.address (first ∷ rest)
    → last_end first.address (first ∷ rest) < 2 ^ 32
    → (image : Bytes) × (flatten first.address (first ∷ rest) ≡ ok image)
      × (first.address + image.len ≡ last_end first.address (first ∷ rest))
      × HoldsAll first.address (first ∷ rest) image.at
unfolding flatten
flatten-HoldsAll first rest apart small =
    let under = last_end_le first.address (first ∷ rest) apart in
    let last = last_end first.address (first ∷ rest) in
    let (image, placed, same, kept, all) =
      place_all_ok first.address first.address (first ∷ rest)
        (filled_with 0xff (last - first.address)) (omega arith) apart (omega (arith, under)) in
    (
      image,
      rw (image_end_ok first.address (first ∷ rest) apart small) placed,
      omega (arith, same, under),
      all,
    )
