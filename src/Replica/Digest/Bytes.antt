-- ===== src/Replica/Digest/Bytes.antt =====
-- `Fnv32` on bytes, as a function of its state and of a byte.
use moergo_rmk.Prelude.{
  ℕ, ◌*◌, ◌%◌, ◌^◌, ◌<◌, ◌≡◌, List, [], ◌∷◌, Option, none, some, All, bit_xor, arith,
}
use moergo_rmk.Prelude.Xor.{bit_xor-left, bit_xor-right, bit_xor-bound}
use moergo_rmk.Wire.Fits.{IsU32}
use moergo_rmk.Replica.Digest.{hash_byte, hash_bytes, hash_option}
use moergo_rmk.Replica.Digest.Bounds.{hash_byte-IsU32}

abbrev pub IsByte : ℕ → Type 0
IsByte b = b < 256

-- The prime is odd, so that a product with it can be undone.
prime_lem :
    (x y : ℕ) → IsU32 x → IsU32 y → x * 0x01000193 % 2 ^ 32 ≡ y * 0x01000193 % 2 ^ 32 → x ≡ y
prime_lem x y hx hy h = omega (arith, hx, hy, h)

xor-IsU32 : (h v : ℕ) → IsU32 h → IsByte v → IsU32 (bit_xor h v)
xor-IsU32 h v small byte = bit_xor-bound 32 h v small (omega (arith, byte))

pub hash_byte-state :
    (v h k : ℕ) → IsByte v → IsU32 h → IsU32 k → hash_byte v h ≡ hash_byte v k → h ≡ k
unfolding hash_byte
hash_byte-state v h k byte hh hk same =
    bit_xor-left h k v
      (prime_lem (bit_xor h v) (bit_xor k v) (xor-IsU32 h v hh byte) (xor-IsU32 k v hk byte) same)

hash_byte-value :
    (v w h : ℕ) → IsByte v → IsByte w → IsU32 h → hash_byte v h ≡ hash_byte w h → v ≡ w
unfolding hash_byte
hash_byte-value v w h bv bw hh same =
    bit_xor-right h v w
      (prime_lem (bit_xor h v) (bit_xor h w) (xor-IsU32 h v hh bv) (xor-IsU32 h w hh bw) same)

hash_bytes-state :
    (vs : List ℕ) (h k : ℕ)
    → All IsByte vs
    → IsU32 h
    → IsU32 k
    → hash_bytes vs h ≡ hash_bytes vs k
    → h ≡ k
hash_bytes-state [] h k bytes hh hk same = same
hash_bytes-state (v ∷ vs) h k (byte, bytes) hh hk same = hash_byte-state v h k byte hh hk (
    hash_bytes-state vs (hash_byte v h) (hash_byte v k) bytes (hash_byte-IsU32 v h)
      (hash_byte-IsU32 v k) same)

-- The bytes of a value that may be missing.
abbrev pub OptionBytes : {A : Type 0} → (A → List ℕ) → Option A → Type 0
OptionBytes f none = Unit {0}
OptionBytes f (some a) = All IsByte (f a)

pub hash_option-state :
    {A : Type 0} (f : A → List ℕ) (o : Option A) (h k : ℕ)
    → OptionBytes f o
    → IsU32 h
    → IsU32 k
    → hash_option f o h ≡ hash_option f o k
    → h ≡ k
hash_option-state f none h k bytes hh hk same = hash_byte-state 0 h k (omega arith) hh hk same
hash_option-state f (some a) h k bytes hh hk same = hash_byte-state 1 h k (omega arith) hh hk (
    hash_bytes-state (f a) (hash_byte 1 h) (hash_byte 1 k) bytes (hash_byte-IsU32 1 h)
      (hash_byte-IsU32 1 k) same)

-- The first byte that differs, with the same bytes behind it.
pub changed_lem :
    (after : List ℕ) (v w h : ℕ)
    → IsByte v
    → IsByte w
    → All IsByte after
    → IsU32 h
    → hash_bytes (v ∷ after) h ≡ hash_bytes (w ∷ after) h
    → v ≡ w
changed_lem after v w h bv bw bytes hh same = hash_byte-value v w h bv bw hh (
    hash_bytes-state after (hash_byte v h) (hash_byte w h) bytes (hash_byte-IsU32 v h)
      (hash_byte-IsU32 w h) same)
