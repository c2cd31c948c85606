-- ===== src/Der/Context/Endless.antt =====
-- A message on which the first loop of `der_begin_read` does not end: the length of its element takes
-- the offset, which is a `uint`, back to where the element starts.
use empirical_zero_knowledge.Prelude.{ℕ, zero, suc, ◌+◌, ◌≡◌, refl, ap, ◌∙◌, none, List, ◌∷◌, u32}
use empirical_zero_knowledge.Der.Outcome.{done, >>=-done}
use empirical_zero_knowledge.Der.Memory.{load}
use empirical_zero_knowledge.Der.Length.{get_len, read_len, long_len}
use empirical_zero_knowledge.Der.Sequence.{skip, find_element, decode_seq}
use empirical_zero_knowledge.Der.Context.Reading.{begin_read_seq}
use empirical_zero_knowledge.Der.Context.{peek_tag, count_subs, read_subs, begin_read}

-- A sequence of 6 bytes, with one element of `2 ^ 32 - 6` bytes.
unfoldable pub looping : ℕ → List ℕ → List ℕ
looping tag rest = 0x30 ∷ 6 ∷ tag ∷ 0x84 ∷ 0xFF ∷ 0xFF ∷ 0xFF ∷ 0xFA ∷ rest

module _ (tag : ℕ) (rest : List ℕ) where
  length_of_element : (l : ℕ) → get_len l (looping tag rest) 3 8 ≡ done (0xFFFFFFFA, 8)
  unfolding get_len read_len long_len load looping
  length_of_element l = refl

  length_of_sequence : get_len 0 (looping tag rest) 1 8 ≡ done (6, 2)
  unfolding get_len read_len load looping
  length_of_sequence = refl

  last : ℕ → ℕ → ℕ
  last zero nlen = nlen
  last (suc idx) nlen = last idx 0xFFFFFFFA

  skip-looping : (idx nlen : ℕ) → skip idx (looping tag rest) 8 2 nlen ≡ done (2, last idx nlen)
  unfolding skip last
  skip-looping zero nlen = refl
  skip-looping (suc idx) nlen = rw (length_of_element 0, skip) (skip-looping idx 0xFFFFFFFA)

  find_element-looping : (idx : ℕ) → find_element (looping tag rest) 8 idx 2 ≡ done (2, 0)
  unfolding find_element
  find_element-looping idx =
      >>=-done (skip idx (looping tag rest) 8 2 0) _ _ (skip-looping idx 0)
      ∙ >>=-done (get_len (last idx 0) (looping tag rest) 3 8) _ _ (length_of_element (last idx 0))

  tag_of_sequence : load (looping tag rest) 0 ≡ done 0x30
  unfolding load looping
  tag_of_sequence = refl

  -- There is an element of every index, and it is always the same.
  decode_seq-looping : (idx : ℕ) → decode_seq (looping tag rest) 8 idx 0 ≡ done (2, 0)
  unfolding decode_seq
  decode_seq-looping idx =
      >>=-done (load (looping tag rest) 0) _ _ tag_of_sequence
      ∙ >>=-done (get_len 0 (looping tag rest) 1 8) _ _ length_of_sequence
      ∙ find_element-looping idx

  count_subs-looping : (fuel nsubs : ℕ) → count_subs fuel (looping tag rest) 8 nsubs ≡ none
  unfolding count_subs
  count_subs-looping zero nsubs = refl
  count_subs-looping (suc fuel) nsubs =
      rw (decode_seq-looping nsubs, count_subs) (count_subs-looping fuel (u32 (nsubs + 1)))

  tag_is_low : peek_tag (looping tag rest) ≡ done 0x30
  unfolding peek_tag load looping
  tag_is_low = refl

read_subs-none : (input : List ℕ) (ldata : ℕ) → read_subs input ldata none ≡ none
unfolding read_subs
read_subs-none input ldata = refl

-- For a message of the 8 bytes `30 06 t 84 FF FF FF FA`, whatever the tag `t` and the memory behind
-- them, `der_begin_read` has not returned after any number of rounds of its loop.
pub begin_read-looping :
    (tag : ℕ) (rest : List ℕ) (fuel : ℕ) → begin_read fuel (looping tag rest) 8 ≡ none
begin_read-looping tag rest fuel =
    begin_read_seq fuel (looping tag rest) 8 (tag_is_low tag rest)
    ∙ ap (read_subs (looping tag rest) 8) (count_subs-looping tag rest fuel 0)
    ∙ read_subs-none (looping tag rest) 8
