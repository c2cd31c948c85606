-- ===== src/Der/Update.antt =====
-- The extension of a sequence in its buffer (`der_upd_seq` of
-- `common/encoding/src/encoding/der.c`).
pub mod Appended
use empirical_zero_knowledge.Prelude.{
  ℕ, zero, suc, ◌+◌, ◌-◌, ◌^◌, not, true, false, List, [], ◌∷◌, length, take, drop, replicate, ltb,
  leb, ◌==◌, if◌then◌else◌, u32,
}
use empirical_zero_knowledge.Der.Outcome.{
  Outcome, done, err, fault, der_arg, der_bad, der_short, ◌>>=◌,
}
use empirical_zero_knowledge.Der.Memory.{load, store}
use empirical_zero_knowledge.Der.Length.{len_len, len_bytes, get_len}

-- `n` bytes from a position on.
unfoldable pub load_block : List ℕ → ℕ → ℕ → Outcome (List ℕ)
load_block buf i n = if leb (i + n) (length buf) then done (take n (drop i buf)) else fault

-- The loop that exchanges each block of the buffer with `swap`, with fuel. The last round is the first
-- whose `swap_i` is not below `end`, which is `off + olen`.
unfoldable pub exchange : ℕ → List ℕ → List ℕ → ℕ → ℕ → ℕ → Outcome (List ℕ)
unfolding load_block store
exchange zero result swap off end swap_i = fault
exchange (suc fuel) result swap off end swap_i =
    load_block result (u32 (off + swap_i)) (length swap) >>= λ block.
    store result (u32 (off + swap_i)) swap >>= λ result'. elim (ltb swap_i end) [
      | true ↦ exchange fuel result' block off end (u32 (swap_i + length swap))
      | false ↦ done result'
    ]

-- The payload goes up where the length takes more bytes than before.
unfoldable pub move_up : List ℕ → ℕ → ℕ → ℕ → ℕ → Outcome (List ℕ)
unfolding exchange
move_up result off olen olenlen nlenlen =
    if ltb olenlen nlenlen
    then exchange (off + olen + 1) result (replicate (nlenlen - olenlen) 0) off (u32 (off + olen)) 0
    else done result

-- From the new length on.
unfoldable pub extend : List ℕ → ℕ → List ℕ → ℕ → ℕ → ℕ → Outcome (List ℕ × ℕ)
unfolding move_up store len_len len_bytes
extend result lresult more olen off olenlen =
    let nlen = u32 (olen + length more) in
    let nlenlen = len_len nlen in
    if ltb lresult (u32 (nlen + nlenlen + 1))
    then err der_short
    else (move_up result off olen olenlen nlenlen >>= λ moved.
        store moved (u32 (1 + nlenlen + olen)) more >>= λ result1.
        store result1 1 (len_bytes nlen) >>= λ result2.
        done (result2, u32 (u32 (1 + nlenlen + olen) + length more)))

-- The buffer and `*offset`.
unfoldable pub upd_seq : List ℕ → ℕ → List ℕ → Outcome (List ℕ × ℕ)
unfolding load get_len extend
upd_seq result lresult more =
    if ltb lresult (u32 (length more + 2 ^ 32 - 2))
    then err der_arg
    else (load result 0 >>= λ tag.
        if not (tag == 0x30)
        then err der_bad
        else (get_len 0 result 1 lresult >>= λ r. load result 1 >>= λ first.
            if ltb lresult r.0
            then err der_bad
            else extend result lresult more r.0 r.1 (if ltb 0x80 first then first - 0x7F else 1)))
