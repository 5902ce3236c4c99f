-- ===== src/Wire/Tests.antt =====
-- Concrete packets.
use moergo_rmk.Prelude.{ℕ, List, length, ◌≡◌, ◌≢◌, err, false, refl, [], ◌∷◌, ok, true, arith}
use moergo_rmk.Fixtures.{example_foreign, example_ops, glove80, example_values, overlay_cell}
use moergo_rmk.Wire.Message.{
  Message, DecodeError, version, tag_wake_layers, wake_layers_len, version_error, length_error,
  tag_error,
}
use moergo_rmk.Wire.Errors.{decode_errors}
use moergo_rmk.Wire.Encode.{packet}
use moergo_rmk.Wire.Decode.{decode}
use moergo_rmk.Wire.Ranges.{in_range, decode-in_range}
use moergo_rmk.Wire.RoundTrip.{decode-packet}

abbrev cell_message : Message example_foreign
cell_message = Message.cell 3 7 (overlay_cell 41)

decode-packet_example :
    decode glove80 example_ops (packet glove80 example_ops example_values cell_message)
    ≡ ok cell_message
decode-packet_example =
    decode-packet glove80 example_ops example_values (omega arith) cell_message (
      omega arith,
      (omega arith, omega arith),
      (omega arith, omega arith, omega arith),
      (omega arith, omega arith),
    )

abbrev hit_message : Message example_foreign
hit_message = Message.effect_hit 17

decode-in_range_example : in_range glove80 hit_message ≡ true
unfolding decode moergo_rmk.Wire.Decode.decode_tag moergo_rmk.Wire.Decode.decode_side_tag
    moergo_rmk.Wire.Decode.Side.decode_effect_hit
decode-in_range_example = decode-in_range glove80 example_ops (11 ∷ 11 ∷ 17 ∷ []) hit_message refl

-- A `WakeLayers` packet that is cut short.
abbrev cut_short : List ℕ
cut_short = version ∷ tag_wake_layers ∷ 3 ∷ []

abbrev RefusedWith : DecodeError → Type 0
RefusedWith e = decode {F = example_foreign} glove80 example_ops cut_short ≡ err e

decode_errors_example :
    (version ≢ version → RefusedWith version_error)
    × (version ≡ version
        → false ≡ true
        → length cut_short ≢ wake_layers_len
        → RefusedWith length_error)
    × (version ≡ version
        → tag_wake_layers ≡ tag_wake_layers
        → length cut_short ≢ wake_layers_len
        → RefusedWith tag_error)
    × (version ≡ version
        → false ≡ false
        → tag_wake_layers ≢ tag_wake_layers
        → RefusedWith tag_error)
decode_errors_example = decode_errors glove80 example_ops version tag_wake_layers (3 ∷ [])
