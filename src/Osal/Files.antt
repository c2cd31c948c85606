-- ===== src/Osal/Files.antt =====
-- The calls on descriptors (`platform/osal/posix_src/osal.c`): open, close, accept and read. What the
-- system answers is an argument. Each part under the lock is done at once. The pointers handed over
-- are not null, and the environment is set up. A name is its characters before the zero byte.
pub mod Session
use empirical_zero_knowledge.Prelude.{
  ℕ, ◌+◌, Bool, true, false, ◌&&◌, Option, none, some, List, [], ◌∷◌, length, take, drop, ltb, ◌==◌,
  if◌then◌else◌,
}
use empirical_zero_knowledge.Osal.{FdTable, fd_new, fd_lookup, fd_remove}
use empirical_zero_knowledge.Osal.Data.{mcmp, is_same}

pub data Rc : Type 0 where
  rc_ok : Rc
  rc_disconn : Rc
  rc_fail : Rc
  rc_bad_args : Rc

-- `lname > n && mcmp(prefix, name, n) == 0`, for a prefix of n characters.
unfoldable pub starts_with : List ℕ → List ℕ → Bool
unfolding mcmp is_same
starts_with prefix name =
    ltb (length prefix) (length name)
    && elim (mcmp prefix name (length prefix)) [ none ↦ false | some sign ↦ is_same sign ]

-- "file ", "listen " and "ip ".
abbrev pub file_prefix : List ℕ
file_prefix = 102 ∷ 105 ∷ 108 ∷ 101 ∷ 32 ∷ []

abbrev pub listen_prefix : List ℕ
listen_prefix = 108 ∷ 105 ∷ 115 ∷ 116 ∷ 101 ∷ 110 ∷ 32 ∷ []

abbrev pub ip_prefix : List ℕ
ip_prefix = 105 ∷ 112 ∷ 32 ∷ []

pub data Kind : Type 0 where
  file : Kind
  listener : Kind
  client : Kind

-- The kind of a name, and what comes behind its prefix.
unfoldable pub kind_of : List ℕ → Option (Kind × List ℕ)
unfolding starts_with
kind_of name =
    if starts_with file_prefix name
    then some (file, drop 5 name)
    else if starts_with listen_prefix name
    then some (listener, drop 7 name)
    else if starts_with ip_prefix name
    then some (client, drop 3 name)
    else none

-- The return code, the table, `*pfd` where it is set, and whether the lock was released without being
-- held.
pub record Opened : Type 0 where
  pub rc : Rc
  pub table : FdTable
  pub fd : Option ℕ
  pub stray_unlock : Bool

abbrev pub refused : FdTable → Bool → Opened
refused t stray = record { rc = rc_fail; table = t; fd = none; stray_unlock = stray }

-- The entry for a descriptor of the system.
unfoldable pub entered : ℕ → FdTable → Opened
unfolding fd_new
entered os_fd t = record {
  rc = rc_ok;
  table = (fd_new os_fd t).0;
  fd = some ((fd_new os_fd t).1);
  stray_unlock = false;
}

unfoldable pub opened_or : Bool → FdTable → Option ℕ → Opened
unfolding entered
opened_or stray t none = refused t stray
opened_or stray t (some os_fd) = entered os_fd t

-- A file that cannot be opened, and a name of no kind, go to `failure`; a socket that cannot be made,
-- bound or connected returns at once.
unfoldable pub open_kind : (Kind → List ℕ → Option ℕ) → FdTable → Option (Kind × List ℕ) → Opened
unfolding opened_or
open_kind system t none = refused t true
open_kind system t (some (file, path)) = opened_or true t (system file path)
open_kind system t (some (listener, port)) = opened_or false t (system listener port)
open_kind system t (some (client, address)) = opened_or false t (system client address)

unfoldable pub os_open : (Kind → List ℕ → Option ℕ) → List ℕ → FdTable → Opened
unfolding kind_of open_kind
os_open system name t = open_kind system t (kind_of name)

-- The table, and the descriptor of the system that is closed.
unfoldable pub os_close : ℕ → FdTable → Rc × FdTable × Option ℕ
unfolding fd_remove
os_close fd t = (rc_ok, (fd_remove fd t).0, (fd_remove fd t).1)

-- What one call of the system's `accept` gives: a client, nobody yet, or a failure.
pub data Accepted : Type 0 where
  arrived : ℕ → Accepted
  nobody : Accepted
  broken : Accepted

-- The return code, the table and `*client_fd_out` where it is set; a failure returns 0, which is
-- `RC_OK`. While the calls do not suffice, it has not returned.
unfoldable pub accept_loop : List Accepted → FdTable → Option (Rc × FdTable × Option ℕ)
unfolding fd_new
accept_loop [] t = none
accept_loop (arrived os_fd ∷ calls) t = some (rc_ok, (fd_new os_fd t).0, some ((fd_new os_fd t).1))
accept_loop (nobody ∷ calls) t = accept_loop calls t
accept_loop (broken ∷ calls) t = some (rc_ok, t, none)

unfoldable pub os_accept : ℕ → List Accepted → FdTable → Option (Rc × FdTable × Option ℕ)
unfolding fd_lookup accept_loop
os_accept server_fd calls t = elim (fd_lookup t.entries server_fd) [
  | none ↦ some (rc_fail, t, none)
  | some os_fd ↦ accept_loop calls t
]

-- What `select` and then the system's `read` give: nothing in time, bytes, an error that says to try
-- again, or another. The system gives no more bytes than it is asked for, and none at the end.
pub data ReadAnswer : Type 0 where
  nothing : ReadAnswer
  bytes : List ℕ → ReadAnswer
  again : ReadAnswer
  failure : ReadAnswer

-- The return code, the bytes, and the value of `*lbuf`.
unfoldable pub os_read : FdTable → ℕ → ℕ → ReadAnswer → Rc × List ℕ × ℕ
unfolding fd_lookup
os_read t fd lbuf arrival =
    if ltb fd 1 then (rc_bad_args, [], lbuf) else elim (fd_lookup t.entries fd) [
      | none ↦ (rc_fail, [], lbuf)
      | some os_fd ↦ elim arrival [
        | nothing ↦ (rc_ok, [], 0)
        | bytes chunk ↦
            let read = take lbuf chunk in
            if length read == 0 then (rc_disconn, [], lbuf) else (rc_ok, read, length read)
        | again ↦ (rc_ok, [], 0)
        | failure ↦ (rc_fail, [], lbuf)
      ]
    ]
