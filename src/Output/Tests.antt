-- ===== src/Output/Tests.antt =====
-- Concrete colours.
use moergo_rmk.Prelude.{◌≡◌, refl, arith}
use moergo_rmk.Wire.Types.{Rgb8}
use moergo_rmk.Output.{srgb, apply, channel, limit_channel, light_of, decoded, srgb_decode}
use moergo_rmk.Output.Limits.{Below, apply-Below}

abbrev orange : Rgb8
orange = record { r = 255; g = 128; b = 0 }

abbrev dim_orange : Rgb8
dim_orange = record { r = 200; g = 100; b = 0 }

apply-Below_example :
    Below (apply srgb dim_orange 100) (apply srgb orange 200)
    × Below (apply srgb orange 200) (record { r = 200; g = 200; b = 200 })
    × Below (apply srgb orange 200) srgb.trim
apply-Below_example =
    apply-Below srgb dim_orange orange 100 200 (omega arith, omega arith, omega arith)
      (omega arith, omega arith, omega arith) (omega arith, omega arith, omega arith) (omega arith)
      (omega arith)

-- The code value 128 of sRGB is the duty 55.
orange_duty : apply srgb orange 255 ≡ record { r = 255; g = 55; b = 0 }
unfolding apply channel limit_channel light_of decoded srgb_decode
orange_duty = refl
