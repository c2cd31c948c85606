-- ===== src/LinkedList.antt =====
-- The singly linked list (`platform/osal/src/singlelinkedlist.c`): nodes in a store, with pointers to
-- the first and the last one and a cursor to the node that was read last. An address is a number, 0
-- the null pointer; an element is a pointer, given by a number too.
pub mod Chain
pub mod Walk
pub mod Change
pub mod Refines
pub mod Removal
pub mod Runs
use empirical_zero_knowledge.Prelude.{
  ℕ, zero, suc, ◌+◌, ◌-◌, Bool, true, false, not, ◌&&◌, Option, none, some, ◌>>=◌, leb, ◌==◌,
  if◌then◌else◌,
}

pub record Node : Type 0 where
  pub element : ℕ
  pub next : ℕ

-- The nodes that are allocated, the next address that the allocator hands out, and the fields.
pub record SingleLinkedList : Type 0 where
  pub cell : ℕ → Option Node
  pub fresh : ℕ
  pub first : ℕ
  pub last_elm : ℕ
  pub size : ℕ
  pub last : ℕ
  pub lasti : ℕ

unfoldable pub update : (ℕ → Option Node) → ℕ → Option Node → ℕ → Option Node
update cell p v q = if p == q then v else cell q

unfoldable pub new : SingleLinkedList
new = record { cell = λ p. none; fresh = 1; first = 0; last_elm = 0; size = 0; last = 0; lasti = 0 }

-- `none` is an access through a pointer to no node.
unfoldable pub add_element : ℕ → SingleLinkedList → Option SingleLinkedList
add_element e s =
    let node = s.fresh in
    if s.first == 0
    then some (record s {
      cell = update s.cell node (some (record { element = e; next = 0 }));
      fresh = suc node;
      first = node;
      last_elm = node;
      size = 1;
      last = 0;
      lasti = 0;
    })
    else (s.cell s.last_elm >>= λ cur. some (record s {
      cell =
          update (update s.cell node (some (record { element = e; next = 0 }))) s.last_elm
            (some (record cur { next = node }));
      fresh = suc node;
      last_elm = node;
      size = s.size + 1;
      last = 0;
      lasti = 0;
    }))

-- `while (cur->next && j++ < i) { prv = cur; cur = cur->next; }`, over the rounds left.
unfoldable pub walk : (ℕ → Option Node) → ℕ → ℕ → ℕ → Option (ℕ × ℕ)
walk cell prv cur zero = cell cur >>= λ node. some (prv, cur)
walk cell prv cur (suc i) = cell cur >>= λ node. elim (node.next == 0) [
  | true ↦ some (prv, cur)
  | false ↦ walk cell cur node.next i
]

-- The cursor moves to a node whose element is returned.
unfoldable pub read_at : SingleLinkedList → ℕ → ℕ → Option (ℕ × SingleLinkedList)
read_at s cur i = s.cell cur >>= λ node. some (node.element, record s { last = cur; lasti = i })

unfoldable pub get_element : ℕ → SingleLinkedList → Option (ℕ × SingleLinkedList)
get_element i s =
    if leb s.size i
    then some (0, s)
    else if not (s.last == 0) && (i == s.lasti + 1)
    then (s.cell s.last >>= λ node. read_at s node.next i)
    else if not (s.last == 0) && (i == s.lasti)
    then (s.cell s.last >>= λ node. some (node.element, s))
    else (walk s.cell 0 s.first i >>= λ r. read_at s (r.1) i)

-- The node `cur` leaves the chain behind `prv`, and is freed.
unfoldable pub unlink : (ℕ → Option Node) → ℕ → ℕ → ℕ → Option (ℕ → Option Node)
unlink cell prv cur behind =
    if prv == 0
    then some (update cell cur none)
    else (cell prv >>= λ node.
        some (update (update cell prv (some (record node { next = behind }))) cur none))

unfoldable pub rem_element : ℕ → SingleLinkedList → Option (ℕ × SingleLinkedList)
rem_element i s =
    if leb s.size i
    then some (0, s)
    else (walk s.cell 0 s.first i >>= λ r. s.cell (r.1) >>= λ node.
        unlink s.cell (r.0) (r.1) node.next >>= λ cell. some (
          node.element,
          record s {
            cell = cell;
            first = if r.0 == 0 then node.next else s.first;
            last_elm = if r.1 == s.last_elm then r.0 else s.last_elm;
            size = s.size - 1;
            last = 0;
            lasti = 0;
          },
        ))
