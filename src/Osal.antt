-- ===== src/Osal.antt =====
-- Parts of the operating system layer (`platform/osal/posix_src/osal.c`): the table that gives
-- descriptors of its own to those of the system, and the loop of `write`. The system's descriptors are
-- natural numbers; the table's answer -1 is `none`. The list is not null, and there is memory for an
-- entry. The pointers given to `write` are not null.
pub mod Descriptors
pub mod Clock
pub mod Mutex
pub mod Semaphore
pub mod Data
pub mod Files
pub mod Threads
use empirical_zero_knowledge.Prelude.{
  ℕ, zero, suc, ◌+◌, ◌-◌, Bool, true, false, Option, none, some, List, [], ◌∷◌, ◌++◌, length, take,
  drop, ltb, ◌==◌, if◌then◌else◌, u32,
}

pub record FdEntry : Type 0 where
  pub osfd : ℕ
  pub fd : ℕ

pub record FdTable : Type 0 where
  pub entries : List FdEntry
  pub fd_pool : ℕ

-- `++fd_pool`, and the new descriptor at the end of the list.
unfoldable fd_new : ℕ → FdTable → FdTable × ℕ
fd_new osfd t =
    let fd = u32 (t.fd_pool + 1) in
    (record { entries = t.entries ++ record { osfd = osfd; fd = fd } ∷ []; fd_pool = fd }, fd)

-- The first entry with the descriptor.
unfoldable pub fd_lookup : List FdEntry → ℕ → Option ℕ
fd_lookup [] fd = none
fd_lookup (e ∷ es) fd = if e.fd == fd then some e.osfd else fd_lookup es fd

unfoldable drop_first : List FdEntry → ℕ → List FdEntry
drop_first [] fd = []
drop_first (e ∷ es) fd = if e.fd == fd then es else e ∷ drop_first es fd

-- The first entry with the descriptor goes, and its descriptor of the system is returned.
unfoldable fd_remove : ℕ → FdTable → FdTable × Option ℕ
unfolding fd_lookup drop_first
fd_remove fd t = (record t { entries = drop_first t.entries fd }, fd_lookup t.entries fd)

-- What one call of the system's `write` does: so many bytes, none for now, or a failure.
pub data Attempt : Type 0 where
  wrote : ℕ → Attempt
  try_again : Attempt
  broken : Attempt

-- The return code is whether it is RC_OK, with the new value of `*lbuf`. While the attempts do not
-- suffice, the call has not returned.
unfoldable write_loop : List Attempt → ℕ → ℕ → Option (Bool × ℕ)
write_loop [] lb sofar = if ltb sofar lb then none else some (true, sofar)
write_loop (a ∷ as') lb sofar = elim (ltb sofar lb) [
  | false ↦ some (true, sofar)
  | true ↦ elim a [
    | wrote n ↦ write_loop as' lb (sofar + n)
    | try_again ↦ write_loop as' lb sofar
    | broken ↦ some (false, 0)
  ]
]

unfoldable os_write : FdTable → ℕ → List Attempt → ℕ → Option (Bool × ℕ)
unfolding fd_lookup write_loop
os_write t fd attempts lb = elim (fd_lookup t.entries fd) [
  | none ↦ some (false, lb)
  | some os_fd ↦ write_loop attempts lb 0
]
