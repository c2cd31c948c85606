-- ===== src/Osal/Files/Session.antt =====
-- The descriptors of the system behind those of the environment, over any calls of open, close and
-- accept (`platform/osal/posix_src/osal.c`).
use empirical_zero_knowledge.Prelude.{
  ℕ, ◌^◌, ◌<◌, ◌≤◌, ◌≡◌, refl, ap, ◌∙◌, Bool, true, false, Option, none, some, List, [], ◌∷◌, ◌++◌,
  arith,
}
use empirical_zero_knowledge.Osal.{FdTable, fd_new, fd_lookup, fd_remove}
use empirical_zero_knowledge.Osal.Descriptors.{
  Call, open_fd, close_fd, table, given, stands_for, lookup-table,
}
use empirical_zero_knowledge.Osal.Files.{
  Kind, file, listener, client, kind_of, opened_or, open_kind, os_open, Rc, rc_fail, os_close,
  Accepted, arrived, nobody, broken, accept_loop, os_accept,
}

-- A call of open comes with what the system answers to it.
pub data Operation : Type 0 where
  open_op : (Kind → List ℕ → Option ℕ) → List ℕ → Operation
  close_op : ℕ → Operation
  accept_op : ℕ → List Accepted → Operation

-- The client that a call of accept gets.
unfoldable pub first_client : List Accepted → Option ℕ
first_client [] = none
first_client (arrived os_fd ∷ calls) = some os_fd
first_client (nobody ∷ calls) = first_client calls
first_client (broken ∷ calls) = none

abbrev pub opened : Option ℕ → List Call
opened none = []
opened (some os_fd) = open_fd os_fd ∷ []

abbrev with_entry : Option ℕ → FdTable → FdTable
with_entry none t = t
with_entry (some os_fd) t = (fd_new os_fd t).0

-- What the system answers for a name.
unfoldable pub answer_to : (Kind → List ℕ → Option ℕ) → Option (Kind × List ℕ) → Option ℕ
answer_to system none = none
answer_to system (some (kind, rest)) = system kind rest

abbrev pub answer : (Kind → List ℕ → Option ℕ) → List ℕ → Option ℕ
answer system name = answer_to system (kind_of name)

-- One call, and the table after some calls, the last of them first. A call of accept that has not
-- returned has changed nothing.
unfoldable pub perform : Operation → FdTable → FdTable
perform (open_op system name) t = (os_open system name t).table
perform (close_op fd) t = (os_close fd t).1
perform (accept_op server_fd calls) t = elim (os_accept server_fd calls t) [
  | none ↦ t
  | some (rc, t', fd) ↦ t'
]

unfoldable pub session : List Operation → FdTable
session [] = record { entries = []; fd_pool = 0 }
session (op ∷ ops) = perform op (session ops)

-- What the calls come to.
unfoldable pub effect : Operation → List Call → List Call
effect (open_op system name) cs = opened (answer system name)
effect (close_op fd) cs = close_fd fd ∷ []
effect (accept_op server_fd calls) cs = elim (stands_for cs server_fd) [
  | none ↦ []
  | some os_fd ↦ opened (first_client calls)
]

unfoldable pub effects : List Operation → List Call
effects [] = []
effects (op ∷ ops) = effect op (effects ops) ++ effects ops

opened_or-with_entry :
    (stray : Bool) (t : FdTable) (o : Option ℕ) → (opened_or stray t o).table ≡ with_entry o t
unfolding opened_or
opened_or-with_entry stray t none = refl
opened_or-with_entry stray t (some os_fd) = refl

open_kind-with_entry :
    (system : Kind → List ℕ → Option ℕ) (t : FdTable) (kind : Option (Kind × List ℕ))
    → (open_kind system t kind).table ≡ with_entry (answer_to system kind) t
unfolding open_kind answer_to
open_kind-with_entry system t none = refl
open_kind-with_entry system t (some (file, path)) = opened_or-with_entry true t (system file path)
open_kind-with_entry system t (some (listener, port)) =
    opened_or-with_entry false t (system listener port)
open_kind-with_entry system t (some (client, address)) =
    opened_or-with_entry false t (system client address)

accept_loop-with_entry :
    (calls : List Accepted) (t : FdTable)
    → (elim (accept_loop calls t) as (λ o. FdTable) [ none ↦ t | some (rc, t', fd) ↦ t' ])
      ≡ with_entry (first_client calls) t
unfolding accept_loop first_client
accept_loop-with_entry [] t = refl
accept_loop-with_entry (arrived os_fd ∷ calls) t = refl
accept_loop-with_entry (nobody ∷ calls) t = accept_loop-with_entry calls t
accept_loop-with_entry (broken ∷ calls) t = refl

with_entry-table :
    (o : Option ℕ) (cs : List Call) → with_entry o (table cs) ≡ table (opened o ++ cs)
unfolding table
with_entry-table none cs = refl
with_entry-table (some os_fd) cs = refl

given-opened : (o : Option ℕ) (cs : List Call) → given cs ≤ given (opened o ++ cs)
unfolding given
given-opened none cs = omega arith
given-opened (some os_fd) cs = omega arith

given-effect : (op : Operation) (cs : List Call) → given cs ≤ given (effect op cs ++ cs)
unfolding effect given
given-effect (open_op system name) cs = given-opened (answer system name) cs
given-effect (close_op fd) cs = omega arith
given-effect (accept_op server_fd calls) cs = by_server (stands_for cs server_fd)
  where
    by_server :
        (server : Option ℕ)
        → given cs
          ≤ given (
              (elim server as (λ o. List Call) [
                | none ↦ []
                | some os_fd ↦ opened (first_client calls)
              ])
              ++ cs)
    by_server none = omega arith
    by_server (some os_fd) = given-opened (first_client calls) cs

accepted :
    (server_fd : ℕ) (calls : List Accepted) (t : FdTable) (cs : List Call)
    → t ≡ table cs
    → given cs < 2 ^ 32
    → perform (accept_op server_fd calls) t ≡ table (effect (accept_op server_fd calls) cs ++ cs)
unfolding perform effect os_accept
accepted server_fd calls t cs same fits =
    by_server (fd_lookup t.entries server_fd) (stands_for cs server_fd)
      (ap (λ t'. fd_lookup t'.entries server_fd) same ∙ lookup-table cs server_fd fits)
  where
    by_server :
        (at server : Option ℕ)
        → at ≡ server
        → (elim (elim at as (λ o. Option (Rc × FdTable × Option ℕ)) [
          | none ↦ some (rc_fail, t, none)
          | some os_fd ↦ accept_loop calls t
        ])
            as (λ o. FdTable) [ none ↦ t | some (rc, t', fd) ↦ t' ])
          ≡ table (
              (elim server as (λ o. List Call) [
                | none ↦ []
                | some os_fd ↦ opened (first_client calls)
              ])
              ++ cs)
    by_server none none e = same
    by_server none (some b) e = cc
    by_server (some a) none e = cc
    by_server (some a) (some b) e =
        accept_loop-with_entry calls t
        ∙ ap (with_entry (first_client calls)) same
        ∙ with_entry-table (first_client calls) cs

opened_lem :
    (system : Kind → List ℕ → Option ℕ) (name : List ℕ) (t : FdTable)
    → perform (open_op system name) t ≡ with_entry (answer system name) t
unfolding perform os_open
opened_lem system name t = open_kind-with_entry system t (kind_of name)

closed :
    (fd : ℕ) (t : FdTable) (cs : List Call)
    → t ≡ table cs
    → perform (close_op fd) t ≡ table (effect (close_op fd) cs ++ cs)
unfolding perform os_close effect table
closed fd t cs same = ap (λ t'. (fd_remove fd t').0) same

session-table :
    (ops : List Operation) → given (effects ops) < 2 ^ 32 → session ops ≡ table (effects ops)
unfolding session effects
session-table [] fits = unfold table in refl
session-table (open_op system name ∷ ops) fits =
    let ih = session-table ops (omega (arith, given-effect (open_op system name) (effects ops))) in
    opened_lem system name (session ops)
    ∙ ap (with_entry (answer system name)) ih
    ∙ with_entry-table (answer system name) (effects ops)
    ∙ unfold effect in refl
session-table (close_op fd ∷ ops) fits =
    let ih = session-table ops (omega (arith, given-effect (close_op fd) (effects ops))) in
    closed fd (session ops) (effects ops) ih
session-table (accept_op server_fd calls ∷ ops) fits =
    let before : given (effects ops) < 2 ^ 32 =
      omega (arith, given-effect (accept_op server_fd calls) (effects ops)) in
    accepted server_fd calls (session ops) (effects ops) (session-table ops before) before

-- After any calls of open, close and accept that give fewer than 2 ^ 32 descriptors, whatever the
-- system answers to each of them, a descriptor is looked up in the table as the system's one that the call which gave
-- it got, unless it was closed since, and as nothing if it was never given.
pub lookup-session :
    (ops : List Operation) (fd : ℕ)
    → given (effects ops) < 2 ^ 32
    → fd_lookup (session ops).entries fd ≡ stands_for (effects ops) fd
lookup-session ops fd fits =
    ap (λ t. fd_lookup t.entries fd) (session-table ops fits) ∙ lookup-table (effects ops) fd fits
