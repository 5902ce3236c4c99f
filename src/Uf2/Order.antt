-- ===== src/Uf2/Order.antt =====
-- The segments of an ELF file come in the order of their addresses, and none is empty.
use moergo_rmk.Prelude.{
  ℕ, zero, suc, ◌+◌, ◌*◌, ◌≤◌, ◌<◌, ◌≡◌, refl, subst, Bool, true, false, not, ◌&&◌, List, [], ◌∷◌,
  Result, ok, err, ◌>>=◌, ◌==◌, leb, ltb, if◌then◌else◌, arith, Bool-cases, inl, inr, All,
  All-append, length,
}
use moergo_rmk.Uf2.{Uf2Error, Bytes, read_u16, read_u32}
use moergo_rmk.Uf2.Elf.{
  Segment, checked, segment_at, load_entry, load_entries, insert_segment, sort_segments,
  some_segments, is_elf32_le, load_segments, load_elf_segments,
}

-- The addresses do not fall, from `low` on.
abbrev pub ascending : ℕ → List Segment → Bool
ascending low [] = true
ascending low (s ∷ ss) = leb low s.address && ascending s.address ss

insert_segment-ascending :
    (low : ℕ) (s : Segment) (ts : List Segment)
    → low ≤ s.address
    → ascending low ts ≡ true
    → ascending low (insert_segment s ts) ≡ true
insert_segment-ascending low s [] h up = ground arith
insert_segment-ascending low s (t ∷ ts) h up = elim (Bool-cases (ltb s.address t.address)) [
  | inl before ↦ rw before (ground arith)
  | inr behind ↦
      rw behind
        (ground (arith, insert_segment-ascending t.address s ts (ground arith) (ground arith)))
]

sort_segments-ascending :
    (sorted ss : List Segment)
    → ascending 0 sorted ≡ true
    → ascending 0 (sort_segments sorted ss) ≡ true
unfolding sort_segments
sort_segments-ascending sorted [] up = up
sort_segments-ascending sorted (s ∷ ss) up =
    sort_segments-ascending (insert_segment s sorted) ss
      (insert_segment-ascending 0 s sorted (omega arith) up)

-- A segment has data, within the file.
abbrev pub InFile : Bytes → Segment → Type 0
InFile elf s = (0 < s.data_bytes.len) × (s.data_bytes.len ≤ elf.len)

All-insert_segment :
    (P : Segment → Type 0) (s : Segment) (ts : List Segment)
    → P s
    → All P ts
    → All P (insert_segment s ts)
All-insert_segment P s [] h all = (h, tt)
All-insert_segment P s (t ∷ ts) h (ht, all) = elim (Bool-cases (ltb s.address t.address)) [
  | inl before ↦ rw before (h, (ht, all))
  | inr behind ↦ rw behind (ht, All-insert_segment P s ts h all)
]

All-sort_segments :
    (P : Segment → Type 0) (sorted ss : List Segment)
    → All P sorted
    → All P ss
    → All P (sort_segments sorted ss)
unfolding sort_segments
All-sort_segments P sorted [] done all = done
All-sort_segments P sorted (s ∷ ss) done (h, all) =
    All-sort_segments P (insert_segment s sorted) ss (All-insert_segment P s sorted h done) all

le_of_leb : (a b : ℕ) → leb a b ≡ true → a ≤ b
le_of_leb a b h = ground arith

-- Every list that a result may carry.
abbrev OnOk : (List Segment → Type 0) → Result Uf2Error (List Segment) → Type 0
OnOk P (ok ss) = P ss
OnOk P (err e) = Unit {0}

OnOk-do :
    {A : Type 0} (P : List Segment → Type 0) (r : Result Uf2Error A)
    (f : A → Result Uf2Error (List Segment))
    → ((a : A) → r ≡ ok a → OnOk P (f a))
    → OnOk P (r >>= f)
OnOk-do P (ok a) f h = h a refl
OnOk-do P (err e) f h = tt

OnOk-cond :
    (P : List Segment → Type 0) (b : Bool) (x y : Result Uf2Error (List Segment))
    → (b ≡ true → OnOk P x)
    → (b ≡ false → OnOk P y)
    → OnOk P (if b then x else y)
OnOk-cond P true x y hx hy = hx refl
OnOk-cond P false x y hx hy = hy refl

checked_ok : (e : Uf2Error) (n m : ℕ) → checked e n ≡ ok m → m ≡ n
checked_ok e n m h = ground arith

module _ (elf : Bytes) where
  abbrev AllInFile : List Segment → Type 0
  AllInFile = All (InFile elf)

  segment_at-InFile :
      (address from size : ℕ) → 0 < size → OnOk AllInFile (segment_at elf address from size)
  segment_at-InFile address from size some_data =
      OnOk-do AllInFile (checked Uf2Error.segment_overflow (from + size)) _ (λ last sum.
        OnOk-cond AllInFile (leb last elf.len) _ _
          (λ inside. (
            (
              some_data,
              omega (
                arith,
                checked_ok Uf2Error.segment_overflow (from + size) last sum,
                le_of_leb last elf.len inside,
              ),
            ),
            tt,
          ))
          (λ outside. tt))

  load_entry-InFile :
      (header_offset entry_size index : ℕ)
      → OnOk AllInFile (load_entry elf header_offset entry_size index)
  unfolding load_entry
  load_entry-InFile header_offset entry_size index =
      OnOk-do AllInFile (checked Uf2Error.header_overflow (index * entry_size)) _ (λ scaled h0.
        OnOk-do AllInFile (checked Uf2Error.header_overflow (header_offset + scaled)) _
          (λ offset h1. OnOk-do AllInFile (read_u32 elf offset) _ (λ kind h2.
            OnOk-do AllInFile (read_u32 elf (offset + 4)) _ (λ from h3.
              OnOk-do AllInFile (read_u32 elf (offset + 12)) _ (λ address h4.
                OnOk-do AllInFile (read_u32 elf (offset + 16)) _ (λ size h5.
                  OnOk-cond AllInFile (kind == 1 && ltb 0 size) _ _
                    (λ load. segment_at-InFile address from size (ground (arith, load)))
                    (λ skip. tt)))))))

  load_entries-InFile :
      (header_offset entry_size n : ℕ)
      → OnOk AllInFile (load_entries elf header_offset entry_size n)
  unfolding load_entries
  load_entries-InFile header_offset entry_size zero = tt
  load_entries-InFile header_offset entry_size (suc n) =
      OnOk-do AllInFile (load_entries elf header_offset entry_size n) _ (λ before h0.
        OnOk-do AllInFile (load_entry elf header_offset entry_size n) _ (λ found h1.
          All-append (InFile elf) before found
            (subst (OnOk AllInFile) h0 (load_entries-InFile header_offset entry_size n))
            (subst (OnOk AllInFile) h1 (load_entry-InFile header_offset entry_size n))))

  -- What the encoder is given.
  abbrev pub Loaded : List Segment → Type 0
  Loaded ss = (ascending 0 ss ≡ true) × All (InFile elf) ss × (0 < length ss)

  some_segments-Loaded :
      (ss : List Segment) → ascending 0 ss ≡ true → AllInFile ss → OnOk Loaded (some_segments ss)
  some_segments-Loaded [] up all = tt
  some_segments-Loaded (s ∷ ss) up all = (up, all, omega arith)

  load_segments-Loaded : OnOk Loaded (load_segments elf)
  load_segments-Loaded = OnOk-do Loaded (read_u32 elf 28) _ (λ offset h0.
      OnOk-do Loaded (read_u16 elf 42) _ (λ size h1. OnOk-do Loaded (read_u16 elf 44) _ (λ count h2.
        OnOk-do Loaded (load_entries elf offset size count) _ (λ segments h3.
          some_segments-Loaded (sort_segments [] segments)
            (sort_segments-ascending [] segments refl)
            (All-sort_segments (InFile elf) [] segments tt
              (subst (OnOk AllInFile) h3 (load_entries-InFile offset size count)))))))

  -- When an ELF file is read, whatever its bytes are, there is a segment, the segments come in the
  -- order of their addresses, and each has data, no more than the file.
  pub load_elf_segments-Loaded : (ss : List Segment) → load_elf_segments elf ≡ ok ss → Loaded ss
  unfolding load_elf_segments
  load_elf_segments-Loaded ss loaded = subst (OnOk Loaded) loaded (
      OnOk-do Loaded (read_u32 elf 0) _ (λ magic h0.
        OnOk-cond Loaded (not (magic == 0x464c457f)) _ _ (λ bad. tt)
          (λ good.
            OnOk-cond Loaded (not (is_elf32_le elf)) _ _ (λ bad. tt)
              (λ fine. load_segments-Loaded))))
