-- ===== src/Output.antt =====
-- crates/moergo-rmk/src/lighting_output.rs: from a requested colour to the duty of an LED, and when
-- the chain is powered.
pub mod Limits
mod Tests
use moergo_rmk.Prelude.{
  ℕ, ◌+◌, ◌*◌, ◌/◌, ◌%◌, Bool, true, false, not, ◌&&◌, ◌||◌, List, [], ◌∷◌, ◌==◌, get_or, any,
  if◌then◌else◌,
}
use moergo_rmk.Wire.Types.{Rgb8}

-- `SRGB_DECODE`
unfoldable pub srgb_decode : List ℕ
srgb_decode =
    0 ∷ 0 ∷ 0 ∷ 0 ∷ 0 ∷ 0 ∷ 0 ∷ 1 ∷ 1 ∷ 1 ∷ 1 ∷ 1 ∷ 1 ∷ 1 ∷ 1 ∷ 1 ∷ 1 ∷ 1 ∷ 2 ∷ 2 ∷ 2 ∷ 2 ∷ 2 ∷ 2
    ∷ 2 ∷ 2 ∷ 3 ∷ 3 ∷ 3 ∷ 3 ∷ 3 ∷ 3 ∷ 4 ∷ 4 ∷ 4 ∷ 4 ∷ 4 ∷ 5 ∷ 5 ∷ 5 ∷ 5 ∷ 6 ∷ 6 ∷ 6 ∷ 6 ∷ 7 ∷ 7 ∷ 7
    ∷ 8 ∷ 8 ∷ 8 ∷ 8 ∷ 9 ∷ 9 ∷ 9 ∷ 10 ∷ 10 ∷ 10 ∷ 11 ∷ 11 ∷ 12 ∷ 12 ∷ 12 ∷ 13 ∷ 13 ∷ 13 ∷ 14 ∷ 14
    ∷ 15 ∷ 15 ∷ 16 ∷ 16 ∷ 17 ∷ 17 ∷ 17 ∷ 18 ∷ 18 ∷ 19 ∷ 19 ∷ 20 ∷ 20 ∷ 21 ∷ 22 ∷ 22 ∷ 23 ∷ 23 ∷ 24
    ∷ 24 ∷ 25 ∷ 25 ∷ 26 ∷ 27 ∷ 27 ∷ 28 ∷ 29 ∷ 29 ∷ 30 ∷ 30 ∷ 31 ∷ 32 ∷ 32 ∷ 33 ∷ 34 ∷ 35 ∷ 35 ∷ 36
    ∷ 37 ∷ 37 ∷ 38 ∷ 39 ∷ 40 ∷ 41 ∷ 41 ∷ 42 ∷ 43 ∷ 44 ∷ 45 ∷ 45 ∷ 46 ∷ 47 ∷ 48 ∷ 49 ∷ 50 ∷ 51 ∷ 51
    ∷ 52 ∷ 53 ∷ 54 ∷ 55 ∷ 56 ∷ 57 ∷ 58 ∷ 59 ∷ 60 ∷ 61 ∷ 62 ∷ 63 ∷ 64 ∷ 65 ∷ 66 ∷ 67 ∷ 68 ∷ 69 ∷ 70
    ∷ 71 ∷ 72 ∷ 73 ∷ 74 ∷ 76 ∷ 77 ∷ 78 ∷ 79 ∷ 80 ∷ 81 ∷ 82 ∷ 84 ∷ 85 ∷ 86 ∷ 87 ∷ 88 ∷ 90 ∷ 91 ∷ 92
    ∷ 93 ∷ 95 ∷ 96 ∷ 97 ∷ 99 ∷ 100 ∷ 101 ∷ 103 ∷ 104 ∷ 105 ∷ 107 ∷ 108 ∷ 109 ∷ 111 ∷ 112 ∷ 114 ∷ 115
    ∷ 116 ∷ 118 ∷ 119 ∷ 121 ∷ 122 ∷ 124 ∷ 125 ∷ 127 ∷ 128 ∷ 130 ∷ 131 ∷ 133 ∷ 134 ∷ 136 ∷ 138 ∷ 139
    ∷ 141 ∷ 142 ∷ 144 ∷ 146 ∷ 147 ∷ 149 ∷ 151 ∷ 152 ∷ 154 ∷ 156 ∷ 157 ∷ 159 ∷ 161 ∷ 163 ∷ 164 ∷ 166
    ∷ 168 ∷ 170 ∷ 171 ∷ 173 ∷ 175 ∷ 177 ∷ 179 ∷ 181 ∷ 183 ∷ 184 ∷ 186 ∷ 188 ∷ 190 ∷ 192 ∷ 194 ∷ 196
    ∷ 198 ∷ 200 ∷ 202 ∷ 204 ∷ 206 ∷ 208 ∷ 210 ∷ 212 ∷ 214 ∷ 216 ∷ 218 ∷ 220 ∷ 222 ∷ 224 ∷ 226 ∷ 229
    ∷ 231 ∷ 233 ∷ 235 ∷ 237 ∷ 239 ∷ 242 ∷ 244 ∷ 246 ∷ 248 ∷ 250 ∷ 253 ∷ 255 ∷ []

-- `SRGB_DECODE[i]`
unfoldable pub decoded : ℕ → ℕ
decoded i = get_or srgb_decode i 0

-- `decode` of the source is `decodes`.
pub record ColorProfile : Type 0 where
  pub decodes : Bool
  pub trim : Rgb8

abbrev pub no_trim : Rgb8
no_trim = record { r = 255; g = 255; b = 255 }

abbrev pub linear : ColorProfile
linear = record { decodes = false; trim = no_trim }

abbrev pub srgb : ColorProfile
srgb = record { decodes = true; trim = no_trim }

abbrev pub with_trim : Rgb8 → ColorProfile → ColorProfile
with_trim trim p = record p { trim = trim }

-- The division rounds to the nearest; its result goes `as u8`.
unfoldable pub limit_channel : ℕ → ℕ → ℕ
limit_channel channel ceiling = (channel * ceiling + 255 / 2) / 255 % 256

-- `SRGB_DECODE[value]`, or the value itself.
unfoldable pub light_of : ColorProfile → ℕ → ℕ
light_of p value = if p.decodes then decoded value else value

unfoldable pub channel : ColorProfile → ℕ → ℕ → ℕ → ℕ
channel p value trim ceiling = limit_channel (limit_channel (light_of p value) trim) ceiling

unfoldable pub apply : ColorProfile → Rgb8 → ℕ → Rgb8
apply p pixel ceiling = record {
  r = channel p pixel.r p.trim.r ceiling;
  g = channel p pixel.g p.trim.g ceiling;
  b = channel p pixel.b p.trim.b ceiling;
}

abbrev pub is_black : Rgb8 → Bool
is_black c = c.r == 0 && c.g == 0 && c.b == 0

unfoldable pub frame_visible : List Rgb8 → ColorProfile → ℕ → Bool
frame_visible frame p ceiling = any (λ pixel. not (is_black (apply p pixel ceiling))) frame

unfoldable pub chain_should_power : Bool → Bool → Bool → Bool → Bool → Bool
chain_should_power usb_powered sleeping visible keep_awake keep_suspended =
    if sleeping then keep_suspended else keep_awake || usb_powered || visible
