-- ===== src/Tests/Texts.antt =====
-- Runs of the text functions (`platform/osal/src/utf8string.c`), and their theorems at an input.
use empirical_zero_knowledge.Prelude.{◌≡◌, ◌++◌, refl, false, some, [], ◌∷◌, arith}
use empirical_zero_knowledge.Utf8.{
  utf8_value_code_point, utf8_code_point_value, utf8_is_valid, utf8_length, string_cstrnew,
}
use empirical_zero_knowledge.Utf8.Points.{utf8_code_point_value-utf8_value_code_point}
use empirical_zero_knowledge.Utf8.Validity.{utf8_is_valid-false}

-- The euro sign.
euro_bytes : utf8_value_code_point 0x20AC ≡ 0xE2 ∷ 0x82 ∷ 0xAC ∷ []
unfolding utf8_value_code_point
euro_bytes = refl

-- "a", the euro sign, and a byte behind the text.
length_two_points : utf8_length (97 ∷ 0xE2 ∷ 0x82 ∷ 0xAC ∷ 0 ∷ []) 4 ≡ some 2
unfolding utf8_length
length_two_points = refl

utf8_code_point_value-utf8_value_code_point_example :
    utf8_code_point_value (utf8_value_code_point 0x451 ++ 97 ∷ []) ≡ some 0
utf8_code_point_value-utf8_value_code_point_example =
    utf8_code_point_value-utf8_value_code_point 0x451 (97 ∷ []) (omega arith)

utf8_is_valid-false_example : utf8_is_valid (97 ∷ 0 ∷ 0 ∷ 0 ∷ []) 1 ≡ some false
utf8_is_valid-false_example = utf8_is_valid-false (97 ∷ 0 ∷ 0 ∷ 0 ∷ []) 1 (omega arith)

-- The first byte of "abc" is lost.
cstr_abc : string_cstrnew (97 ∷ 98 ∷ 99 ∷ []) ≡ some (0 ∷ 98 ∷ 99 ∷ 0 ∷ [])
unfolding string_cstrnew
cstr_abc = refl
