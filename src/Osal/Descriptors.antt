-- ===== src/Osal/Descriptors.antt =====
-- The table of descriptors against a map (`platform/osal/posix_src/osal.c`).
use empirical_zero_knowledge.Prelude.{
  ℕ, ◌+◌, ◌^◌, ◌<◌, ◌≤◌, ◌≡◌, ◌≢◌, refl, sym, ap, ◌∙◌, Bool-cases, inl, inr, Option, none, some,
  List, [], ◌∷◌, ◌++◌, All, All-append, ◌==◌, ==_iff, if◌then◌else◌, u32, arith,
}
use empirical_zero_knowledge.Osal.{FdEntry, FdTable, fd_new, fd_lookup, drop_first, fd_remove}

pub data Call : Type 0 where
  open_fd : ℕ → Call
  close_fd : ℕ → Call

-- The table after some calls, the last of them first.
unfoldable pub table : List Call → FdTable
table [] = record { entries = []; fd_pool = 0 }
table (open_fd osfd ∷ cs) = (fd_new osfd (table cs)).0
table (close_fd fd ∷ cs) = (fd_remove fd (table cs)).0

-- How many descriptors were given, and what each stands for.
unfoldable pub given : List Call → ℕ
given [] = 0
given (open_fd osfd ∷ cs) = given cs + 1
given (close_fd fd ∷ cs) = given cs

unfoldable pub stands_for : List Call → ℕ → Option ℕ
unfolding given
stands_for [] fd = none
stands_for (open_fd osfd ∷ cs) fd = if given cs + 1 == fd then some osfd else stands_for cs fd
stands_for (close_fd closed ∷ cs) fd = if closed == fd then none else stands_for cs fd

-- No two entries have the same descriptor, and all are at most `n`.
abbrev Differs : ℕ → List FdEntry → Type 0
Differs fd es = All (λ (e : FdEntry). e.fd ≢ fd) es

abbrev AtMost : ℕ → List FdEntry → Type 0
AtMost n es = All (λ (e : FdEntry). e.fd ≤ n) es

abbrev IsDistinct : List FdEntry → Type 0
IsDistinct [] = Unit {0}
IsDistinct (e ∷ es) = Differs e.fd es × IsDistinct es

lookup-append :
    (es : List FdEntry) (osfd new fd : ℕ)
    → Differs new es
    → fd_lookup (es ++ record { osfd = osfd; fd = new } ∷ []) fd
      ≡ (if new == fd then some osfd else fd_lookup es fd)
unfolding fd_lookup
lookup-append [] osfd new fd differs = refl
lookup-append (e ∷ es) osfd new fd differs =
    let d = differs.0 in ground (arith, lookup-append es osfd new fd differs.1)

lookup-Differs : (es : List FdEntry) (fd : ℕ) → Differs fd es → fd_lookup es fd ≡ none
unfolding fd_lookup
lookup-Differs [] fd differs = refl
lookup-Differs (e ∷ es) fd differs =
    let d = differs.0 in ground (arith, lookup-Differs es fd differs.1)

lookup-drop_first :
    (es : List FdEntry) (closed fd : ℕ)
    → IsDistinct es
    → fd_lookup (drop_first es closed) fd ≡ (if closed == fd then none else fd_lookup es fd)
unfolding fd_lookup drop_first
lookup-drop_first [] closed fd distinct = ground arith
lookup-drop_first (e ∷ es) closed fd distinct = elim (Bool-cases (e.fd == closed)) [
  | inl found ↦
      let none_more = lookup-Differs es e.fd distinct.0 in
      let same : e.fd ≡ closed = (==_iff _ _).0 found in
      rw found (elim (Bool-cases (closed == fd)) [
        | inl asked ↦
            let here : e.fd ≡ fd = same ∙ (==_iff _ _).0 asked in
            rw asked (ap (fd_lookup es) (sym here) ∙ none_more)
        | inr not_asked ↦ ground arith
      ])
  | inr other ↦ rw other (ground (arith, lookup-drop_first es closed fd distinct.1))
]

drop_first-All :
    (P : FdEntry → Type 0) (es : List FdEntry) (fd : ℕ) → All P es → All P (drop_first es fd)
unfolding drop_first
drop_first-All P [] fd all = tt
drop_first-All P (e ∷ es) fd all = elim (Bool-cases (e.fd == fd)) [
  | inl found ↦ rw found all.1
  | inr other ↦ rw other (all.0, drop_first-All P es fd all.1)
]

drop_first-IsDistinct : (es : List FdEntry) (fd : ℕ) → IsDistinct es → IsDistinct (drop_first es fd)
unfolding drop_first
drop_first-IsDistinct [] fd distinct = tt
drop_first-IsDistinct (e ∷ es) fd distinct = elim (Bool-cases (e.fd == fd)) [
  | inl found ↦ rw found distinct.1
  | inr other ↦
      rw other
        (drop_first-All (λ x. x.fd ≢ e.fd) es fd distinct.0, drop_first-IsDistinct es fd distinct.1)
]

append-IsDistinct :
    (es : List FdEntry) (e : FdEntry) → IsDistinct es → Differs e.fd es → IsDistinct (es ++ e ∷ [])
append-IsDistinct [] e distinct differs = (tt, tt)
append-IsDistinct (x ∷ es) e distinct differs = (
  All-append (λ (y : FdEntry). y.fd ≢ x.fd) es (e ∷ []) distinct.0
      ((λ same. differs.0 (sym same)), tt),
  append-IsDistinct es e distinct.1 differs.1,
)

AtMost-Differs : (es : List FdEntry) (n fd : ℕ) → AtMost n es → n < fd → Differs fd es
AtMost-Differs [] n fd most less = tt
AtMost-Differs (e ∷ es) n fd most less =
    let m = most.0 in ((λ same. omega arith), AtMost-Differs es n fd most.1 less)

AtMost-more : (es : List FdEntry) (n m : ℕ) → AtMost n es → n ≤ m → AtMost m es
AtMost-more [] n m most le = tt
AtMost-more (e ∷ es) n m most le = let h = most.0 in (omega arith, AtMost-more es n m most.1 le)

-- The invariant of the table.
record IsKept (cs : List Call) : Type 0 where
  distinct : IsDistinct (table cs).entries
  most : AtMost (given cs) (table cs).entries
  pool : (table cs).fd_pool ≡ given cs

fd_pool-fits : (pool n : ℕ) → pool ≡ n → n + 1 < 2 ^ 32 → u32 (pool + 1) ≡ n + 1
fd_pool-fits pool n same fits = rw same (omega arith)

table-IsKept : (cs : List Call) → given cs < 2 ^ 32 → IsKept cs
unfolding table given fd_new fd_remove
table-IsKept [] fits = record { distinct = tt; most = tt; pool = refl }
table-IsKept (open_fd osfd ∷ cs) fits =
    let kept = table-IsKept cs (omega arith) in
    let pool = kept.pool in
    let new : u32 ((table cs).fd_pool + 1) ≡ given cs + 1 = fd_pool-fits _ _ pool fits in
    record {
      distinct =
          append-IsDistinct (table cs).entries _ kept.distinct
            (AtMost-Differs (table cs).entries (given cs) _ kept.most (rw new (omega arith)));
      most =
          All-append (λ (y : FdEntry). y.fd ≤ given cs + 1) (table cs).entries _
            (AtMost-more (table cs).entries (given cs) (given cs + 1) kept.most (omega arith))
            ((rw new (omega arith)), tt);
      pool = new;
    }
table-IsKept (close_fd fd ∷ cs) fits =
    let kept = table-IsKept cs fits in
    record {
      distinct = drop_first-IsDistinct (table cs).entries fd kept.distinct;
      most = drop_first-All (λ (y : FdEntry). y.fd ≤ given cs) (table cs).entries fd kept.most;
      pool = kept.pool;
    }

-- While fewer than 2 ^ 32 descriptors are given, a descriptor is looked up in the table as what it was
-- opened for, if it was given and not closed since, and as nothing otherwise.
pub lookup-table :
    (cs : List Call) (fd : ℕ)
    → given cs < 2 ^ 32
    → fd_lookup (table cs).entries fd ≡ stands_for cs fd
unfolding table given stands_for fd_lookup fd_new fd_remove
lookup-table [] fd fits = refl
lookup-table (open_fd osfd ∷ cs) fd fits =
    let kept = table-IsKept cs (omega arith) in
    let pool = kept.pool in
    rw (fd_pool-fits _ _ pool fits) (
      lookup-append (table cs).entries osfd (given cs + 1) fd
        (AtMost-Differs (table cs).entries (given cs) (given cs + 1) kept.most (omega arith))
      ∙ ap (λ rest. if given cs + 1 == fd then some osfd else rest)
          (lookup-table cs fd (omega arith)))
lookup-table (close_fd closed ∷ cs) fd fits =
    let kept = table-IsKept cs fits in
    lookup-drop_first (table cs).entries closed fd kept.distinct
    ∙ ap (λ rest. if closed == fd then none else rest) (lookup-table cs fd fits)
