-- ===== src/Uf2/Inspect.antt =====
-- `inspect_uf2`: the checks of a UF2 file, on its bytes.
use moergo_rmk.Prelude.{
  ℕ, zero, suc, ◌+◌, ◌-◌, ◌*◌, ◌/◌, ◌%◌, Bool, true, false, not, ◌&&◌, ◌||◌, Option, none, some,
  Result, ok, err, ◌>>=◌, ◌==◌, ltb, min, if◌then◌else◌,
}
use moergo_rmk.Prelude.Bits.{has_bit}
use moergo_rmk.Uf2.{
  Uf2Error, Bytes, uf2_magic0, uf2_magic1, uf2_magic_end, uf2_flag_family_id, application_start,
  application_end, u32_mod, to_u32, read_u32,
}
use moergo_rmk.Uf2.Encode.{max, checked_address}

-- The local variables of the loop.
pub record Seen : Type 0 where
  pub start : ℕ
  pub last : ℕ
  pub family : Option ℕ

abbrev pub nothing_seen : Seen
nothing_seen = record { start = u32_mod - 1; last = 0; family = none }

abbrev pub is_known : Option ℕ → Bool
is_known none = false
is_known (some f) = true

-- `family.is_some_and(|previous| previous != current)`
abbrev pub differs : ℕ → Option ℕ → Bool
differs current none = false
differs current (some previous) = not (previous == current)

-- The family of a block that carries one.
abbrev pub note_family : ℕ → Seen → Result Uf2Error Seen
note_family current seen =
    if differs current seen.family
    then err Uf2Error.multiple_families
    else ok (record seen { family = some current })

abbrev pub see_family : Bytes → ℕ → ℕ → Seen → Result Uf2Error Seen
see_family b offset flags seen =
    if has_bit flags uf2_flag_family_id
    then read_u32 b (offset + 28) >>= (λ current. note_family current seen)
    else ok seen

module _ (data_bytes : Bytes) (expected : Option ℕ) where
  -- `data.len() / 512`
  abbrev pub blocks : ℕ
  blocks = data_bytes.len / 512

  -- The checks of one block, in three parts: the numbers, the payload and the magics.
  abbrev pub check_numbers : ℕ → ℕ → ℕ → ℕ → Seen → Result Uf2Error Seen
  check_numbers block flags address payload_size seen = do
    number ← read_u32 data_bytes (block * 512 + 20)
    this ← to_u32 block
    count ← read_u32 data_bytes (block * 512 + 24)
    total ← to_u32 blocks
    (if not (number == this) || not (count == total)
        then err Uf2Error.inconsistent_numbering
        else if is_known expected && not (flags == uf2_flag_family_id)
        then err Uf2Error.not_family_tagged
        else do
          seen' ← see_family data_bytes (block * 512) flags seen
          segment_end ← checked_address (address + payload_size)
          ok (record seen' { start = min seen'.start address; last = max seen'.last segment_end }))

  abbrev pub check_payload : ℕ → Seen → Result Uf2Error Seen
  check_payload block seen = do
    flags ← read_u32 data_bytes (block * 512 + 8)
    address ← read_u32 data_bytes (block * 512 + 12)
    payload_size ← read_u32 data_bytes (block * 512 + 16)
    (if payload_size == 0 || ltb 476 payload_size
        then err Uf2Error.invalid_payload_size
        else check_numbers block flags address payload_size seen)

  unfoldable pub inspect_block : ℕ → Seen → Result Uf2Error Seen
  inspect_block block seen = do
    magic0 ← read_u32 data_bytes (block * 512)
    magic1 ← read_u32 data_bytes (block * 512 + 4)
    magic_end ← read_u32 data_bytes (block * 512 + 508)
    (if not (magic0 == uf2_magic0) || not (magic1 == uf2_magic1) || not (magic_end == uf2_magic_end)
        then err Uf2Error.invalid_magic
        else check_payload block seen)

  -- The loop over `0..n`.
  unfoldable pub inspect_blocks : ℕ → Result Uf2Error Seen
  inspect_blocks zero = ok nothing_seen
  inspect_blocks (suc n) = do seen ← inspect_blocks n; inspect_block n seen

  -- `family != Some(expected)`, and the range of the application.
  abbrev pub accept_seen : Seen → Result Uf2Error Seen
  accept_seen seen = elim expected [
    | none ↦ ok seen
    | some family ↦
        (if not (is_known seen.family) || differs family seen.family
          then err Uf2Error.wrong_family
          else if ltb seen.start application_start || ltb application_end seen.last
          then err Uf2Error.outside_application
          else ok seen)
  ]

  unfoldable pub inspect_uf2 : Result Uf2Error (ℕ × Seen)
  inspect_uf2 =
      if data_bytes.len == 0 || not (data_bytes.len % 512 == 0)
      then err Uf2Error.not_block_stream
      else do seen ← inspect_blocks blocks; found ← accept_seen seen; ok (blocks, found)
