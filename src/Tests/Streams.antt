-- ===== src/Tests/Streams.antt =====
-- An octet string that two reads bring.
use empirical_zero_knowledge.Prelude.{ℕ, refl, [], ◌∷◌, replicate, length-replicate, arith}
use empirical_zero_knowledge.Der.Length.{len_bytes}
use empirical_zero_knowledge.Der.Sequence.Read.{bytes_of}
use empirical_zero_knowledge.Der.Context.Strings.{element_of}
use empirical_zero_knowledge.Der.Stream.{DerInputStream, read_str}
use empirical_zero_knowledge.Der.Stream.Read.{Reads, read_str-bytes_of}
use empirical_zero_knowledge.Queue.Ring.{window}

-- The buffer is empty, and its front is at the last cell.
abbrev stream : DerInputStream
stream = record {
  cbuf = replicate 8192 0;
  cbuf_start = 8191;
  cbuf_len = 0;
  seqs = [];
  reads = (4 ∷ 2 ∷ 70 ∷ []) ∷ (71 ∷ 9 ∷ []) ∷ [];
}

read_str-bytes_of_example : Reads read_str stream (70 ∷ 71 ∷ [], 2) (9 ∷ [])
read_str-bytes_of_example =
    read_str-bytes_of stream (70 ∷ 71 ∷ []) (9 ∷ []) (length-replicate {A = ℕ} 8192 0) (omega arith)
      (omega arith) ((omega arith, omega arith), ((omega arith, omega arith), tt)) refl
      (omega arith) (unfold window bytes_of element_of len_bytes in refl)
