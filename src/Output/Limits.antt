-- ===== src/Output/Limits.antt =====
-- What the ceiling and the trim of a channel allow, and that the output keeps the order of colours.
use moergo_rmk.Prelude.{
  ℕ, zero, suc, ◌+◌, ◌-◌, ◌*◌, ◌≤◌, ◌<◌, ◌≡◌, refl, true, ◌&&◌, leb, arith, Bool-cases, inl, inr,
}
use moergo_rmk.Prelude.Bits.{every_under, every_under_lem}
use moergo_rmk.Wire.Types.{Rgb8}
use moergo_rmk.Output.{ColorProfile, srgb_decode, decoded, limit_channel, light_of, channel, apply}

product_le : (a b m : ℕ) → b ≤ m → a * b ≤ a * m
product_le a b m h = grind arith

limit_channel_le : (c k : ℕ) → c ≤ 255 → k ≤ 255 → (limit_channel c k ≤ c) × (limit_channel c k ≤ k)
unfolding limit_channel
limit_channel_le c k hc hk =
    (omega (arith, product_le c k 255 hk), omega (arith, product_le k c 255 hc))

limit_channel_mono :
    (c d j k : ℕ) → d ≤ 255 → k ≤ 255 → c ≤ d → j ≤ k → limit_channel c j ≤ limit_channel d k
unfolding limit_channel
limit_channel_mono c d j k hd hk hcd hjk =
    omega (arith, product_le c j k hjk, product_le k c d hcd, product_le d k 255 hk)

limit_channel_full : (c : ℕ) → c ≤ 255 → limit_channel c 255 ≡ c
unfolding limit_channel
limit_channel_full c h = omega arith

-- The decoding table rises and stays in a byte.
srgb_decode_lem :
    (i : ℕ) → i < 255 → (leb (decoded i) (decoded (suc i)) && leb (decoded (suc i)) 255) ≡ true
unfolding every_under decoded srgb_decode
srgb_decode_lem i h =
    every_under_lem 255 (λ j. leb (decoded j) (decoded (suc j)) && leb (decoded (suc j)) 255) i refl
      h

ordered_lem : (a b : ℕ) → (leb a b && leb b 255) ≡ true → (a ≤ b) × (b ≤ 255)
ordered_lem a b h = ground arith

srgb_decode_step : (i : ℕ) → i < 255 → (decoded i ≤ decoded (suc i)) × (decoded (suc i) ≤ 255)
srgb_decode_step i h = ordered_lem (decoded i) (decoded (suc i)) (srgb_decode_lem i h)

decoded_zero : decoded 0 ≤ 255
unfolding decoded srgb_decode
decoded_zero = omega arith

the_zero : (i : ℕ) → 0 ≡ i + 0 → i ≡ 0
the_zero i h = omega (arith, h)

the_same : (i j : ℕ) → j ≡ i + 0 → i ≡ j
the_same i j h = omega (arith, h)

srgb_decode_rises : (k i j : ℕ) → j ≡ i + k → j ≤ 255 → (decoded i ≤ decoded j) × (decoded j ≤ 255)
srgb_decode_rises zero i zero at h = (rw (the_zero i at) (omega arith), decoded_zero)
srgb_decode_rises zero i (suc j) at h =
    (rw (the_same i (suc j) at) (omega arith), (srgb_decode_step j (omega (arith, h))).1)
srgb_decode_rises (suc k) i zero at h = absurd (omega (arith, at))
srgb_decode_rises (suc k) i (suc j) at h =
    let (below, small) = srgb_decode_rises k i j (omega (arith, at)) (omega (arith, h)) in
    let (step, byte) = srgb_decode_step j (omega (arith, h)) in (omega (arith, below, step), byte)

light_of_mono :
    (p : ColorProfile) (c d : ℕ)
    → c ≤ d
    → d ≤ 255
    → (light_of p c ≤ light_of p d) × (light_of p d ≤ 255)
unfolding light_of
light_of_mono p c d hcd hd = elim (Bool-cases p.decodes) [
  | inl on ↦ rw on (srgb_decode_rises (d - c) c d (omega arith) hd)
  | inr off ↦ rw off (hcd, hd)
]

-- A channel is at most its ceiling, its trim and the light it asks for.
channel_le :
    (p : ColorProfile) (v t k : ℕ)
    → v ≤ 255
    → t ≤ 255
    → k ≤ 255
    → (channel p v t k ≤ k) × (channel p v t k ≤ t) × (channel p v t k ≤ light_of p v)
unfolding channel
channel_le p v t k hv ht hk =
    let (mono, byte) = light_of_mono p v v (omega arith) hv in
    let (light, trim) = limit_channel_le (light_of p v) t byte ht in
    let (first, ceiling) =
      limit_channel_le (limit_channel (light_of p v) t) k (omega (arith, trim)) hk in
    (ceiling, omega (arith, first, trim), omega (arith, first, light))

-- A brighter request under a higher ceiling is not dimmer.
channel_mono :
    (p : ColorProfile) (v w t j k : ℕ)
    → v ≤ w
    → w ≤ 255
    → t ≤ 255
    → j ≤ k
    → k ≤ 255
    → channel p v t j ≤ channel p w t k
unfolding channel
channel_mono p v w t j k hvw hw ht hjk hk =
    let (mono, byte) = light_of_mono p v w hvw hw in
    let (light, trim) = limit_channel_le (light_of p w) t byte ht in
    limit_channel_mono (limit_channel (light_of p v) t) (limit_channel (light_of p w) t) j k
      (omega (arith, trim)) hk
      (limit_channel_mono (light_of p v) (light_of p w) t t byte ht mono (omega arith)) hjk

abbrev pub IsByteColor : Rgb8 → Type 0
IsByteColor c = (c.r ≤ 255) × (c.g ≤ 255) × (c.b ≤ 255)

-- Each channel of the one colour is at most that of the other.
abbrev pub Below : Rgb8 → Rgb8 → Type 0
Below c d = (c.r ≤ d.r) × (c.g ≤ d.g) × (c.b ≤ d.b)

-- The duty of each channel is at most the ceiling and at most the trim of that channel, for any
-- profile, colour, trim and ceiling of bytes; and of two colours and two ceilings, the brighter
-- colour under the higher ceiling is in no channel the dimmer one, with the table of the sRGB decode
-- or without.
pub apply-Below :
    (p : ColorProfile) (c d : Rgb8) (j k : ℕ)
    → IsByteColor p.trim
    → IsByteColor d
    → Below c d
    → j ≤ k
    → k ≤ 255
    → Below (apply p c j) (apply p d k)
      × Below (apply p d k) (record { r = k; g = k; b = k })
      × Below (apply p d k) p.trim
unfolding apply
apply-Below p c d j k trim byte below hjk hk =
    let red = channel_le p d.r p.trim.r k byte.0 trim.0 hk in
    let green = channel_le p d.g p.trim.g k byte.1 trim.1 hk in
    let blue = channel_le p d.b p.trim.b k byte.2 trim.2 hk in
    (
      (
        channel_mono p c.r d.r p.trim.r j k below.0 byte.0 trim.0 hjk hk,
        channel_mono p c.g d.g p.trim.g j k below.1 byte.1 trim.1 hjk hk,
        channel_mono p c.b d.b p.trim.b j k below.2 byte.2 trim.2 hjk hk,
      ),
      (red.0, green.0, blue.0),
      (red.1, green.1, blue.1),
    )
