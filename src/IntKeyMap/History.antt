-- ===== src/IntKeyMap/History.antt =====
-- The map with integer keys against a map of numbers, over any puts and removals
-- (`platform/osal/src/intkeymap.c`).
use empirical_zero_knowledge.Prelude.{
  ℕ, zero, suc, ◌≡◌, ◌≢◌, refl, sym, ap, ◌∙◌, Bool, true, false, Bool-cases, inl, inr, not, Option,
  none, some, List, [], ◌∷◌, ◌++◌, length, get_or, set, replicate, get_or-set, length-set, All,
  All-append, ◌==◌, ==_iff, ==_refl, if◌then◌else◌, u32, arith,
}
use mathlib.Core.Path.{subst}
use empirical_zero_knowledge.IntKeyMap.{
  Entry, int_hash_fn, new, present, elm_of, drop_entry, bucket_at, put_entry, put, get, contains,
  rem, int_hash_fn-lt,
}

-- What a key has in a bucket.
entry_of : ℕ → List Entry → Option ℕ
entry_of j [] = none
entry_of j ((k, elm) ∷ bucket) = if j == k then some elm else entry_of j bucket

abbrev pub or_zero : Option ℕ → ℕ
or_zero none = 0
or_zero (some elm) = elm

abbrev is_some : Option ℕ → Bool
is_some none = false
is_some (some elm) = true

-- The element of a key after a put, where the key had none.
abbrev pub kept : Option ℕ → ℕ → Option ℕ
kept none elm = some elm
kept (some old) elm = some old

elm_of-or_zero : (j : ℕ) (bucket : List Entry) → elm_of j bucket ≡ or_zero (entry_of j bucket)
unfolding elm_of entry_of
elm_of-or_zero j [] = refl
elm_of-or_zero j ((k, elm) ∷ bucket) = ground (arith, elm_of-or_zero j bucket)

present-is_some : (j : ℕ) (bucket : List Entry) → present j bucket ≡ is_some (entry_of j bucket)
unfolding present entry_of
present-is_some j [] = refl
present-is_some j ((k, elm) ∷ bucket) = ground (arith, present-is_some j bucket)

entry_of-append :
    (j key elm : ℕ) (bucket : List Entry)
    → entry_of j (bucket ++ (key, elm) ∷ []) ≡ (
        if is_some (entry_of j bucket)
        then entry_of j bucket
        else if j == key
        then some elm
        else none)
unfolding entry_of
entry_of-append j key elm [] = refl
entry_of-append j key elm ((k, e) ∷ bucket) = ground (arith, entry_of-append j key elm bucket)

entry_of-put_entry :
    (j key elm : ℕ) (bucket : List Entry)
    → entry_of j (put_entry key elm bucket)
      ≡ (if j == key then kept (entry_of j bucket) elm else entry_of j bucket)
unfolding put_entry
entry_of-put_entry j key elm bucket = elim (Bool-cases (j == key)) [
  | inl same ↦
      let e : j ≡ key = (==_iff j key).0 same in
      rw (same, e)
        (ground
          (arith, present-is_some key bucket, entry_of-append key key elm bucket, ==_refl key))
  | inr other ↦ rw other (ground (arith, entry_of-append j key elm bucket))
]

-- No key has two entries.
abbrev Lacks : ℕ → List Entry → Type 0
Lacks key bucket = All (λ (e : Entry). e.0 ≢ key) bucket

abbrev IsDistinct : List Entry → Type 0
IsDistinct [] = Unit {0}
IsDistinct ((k, elm) ∷ bucket) = Lacks k bucket × IsDistinct bucket

Lacks-entry_of : (j : ℕ) (bucket : List Entry) → Lacks j bucket → entry_of j bucket ≡ none
unfolding entry_of
Lacks-entry_of j [] lacks = refl
Lacks-entry_of j ((k, elm) ∷ bucket) lacks =
    let first = lacks.0 in ground (arith, Lacks-entry_of j bucket lacks.1)

present-Lacks : (j : ℕ) (bucket : List Entry) → present j bucket ≡ false → Lacks j bucket
unfolding present
present-Lacks j [] h = tt
present-Lacks j ((k, elm) ∷ bucket) h =
    (λ same. ground arith, present-Lacks j bucket (ground arith))

entry_of-drop_entry :
    (j key : ℕ) (bucket : List Entry)
    → IsDistinct bucket
    → entry_of j (drop_entry key bucket) ≡ (if j == key then none else entry_of j bucket)
unfolding entry_of drop_entry
entry_of-drop_entry j key [] distinct = ground arith
entry_of-drop_entry j key ((k, elm) ∷ bucket) distinct = elim (Bool-cases (key == k)) [
  | inl found ↦
      let same : key ≡ k = (==_iff key k).0 found in
      let absent = Lacks-entry_of k bucket distinct.0 in
      rw found (elim (Bool-cases (j == key)) [
        | inl asked ↦
            let here : k ≡ j = sym same ∙ sym ((==_iff j key).0 asked) in
            rw asked (ap (λ i. entry_of i bucket) (sym here) ∙ absent)
        | inr other ↦ ground arith
      ])
  | inr other ↦ rw other (ground (arith, entry_of-drop_entry j key bucket distinct.1))
]

Lacks-drop_entry :
    (i key : ℕ) (bucket : List Entry) → Lacks i bucket → Lacks i (drop_entry key bucket)
unfolding drop_entry
Lacks-drop_entry i key [] lacks = tt
Lacks-drop_entry i key ((k, elm) ∷ bucket) lacks = elim (Bool-cases (key == k)) [
  | inl found ↦ rw found lacks.1
  | inr other ↦ rw other (lacks.0, Lacks-drop_entry i key bucket lacks.1)
]

IsDistinct-drop_entry :
    (key : ℕ) (bucket : List Entry) → IsDistinct bucket → IsDistinct (drop_entry key bucket)
unfolding drop_entry
IsDistinct-drop_entry key [] distinct = tt
IsDistinct-drop_entry key ((k, elm) ∷ bucket) distinct = elim (Bool-cases (key == k)) [
  | inl found ↦ rw found distinct.1
  | inr other ↦
      rw other
        (Lacks-drop_entry k key bucket distinct.0, IsDistinct-drop_entry key bucket distinct.1)
]

IsDistinct-append :
    (bucket : List Entry) (key elm : ℕ)
    → IsDistinct bucket
    → Lacks key bucket
    → IsDistinct (bucket ++ (key, elm) ∷ [])
IsDistinct-append [] key elm distinct lacks = (tt, tt)
IsDistinct-append ((k, e) ∷ bucket) key elm distinct lacks = (
  All-append (λ (x : Entry). x.0 ≢ k) bucket ((key, elm) ∷ []) distinct.0
      ((λ same. lacks.0 (sym same)), tt),
  IsDistinct-append bucket key elm distinct.1 lacks.1,
)

IsDistinct-put_entry :
    (key elm : ℕ) (bucket : List Entry) → IsDistinct bucket → IsDistinct (put_entry key elm bucket)
unfolding put_entry
IsDistinct-put_entry key elm bucket distinct = elim (Bool-cases (present key bucket)) [
  | inl there ↦ rw there distinct
  | inr absent ↦
      rw absent (IsDistinct-append bucket key elm distinct (present-Lacks key bucket absent))
]

pub data Call : Type 0 where
  put_call : ℕ → ℕ → Call
  rem_call : ℕ → Call

-- The map after some calls, the last of them first, and what a key has then.
unfoldable pub map_after : List Call → List (List Entry)
map_after [] = new
map_after (put_call key elm ∷ calls) = put key elm (map_after calls)
map_after (rem_call key ∷ calls) = (rem key (map_after calls)).1

unfoldable pub found : List Call → ℕ → Option ℕ
found [] j = none
found (put_call key elm ∷ calls) j =
    if j == u32 key then kept (found calls j) elm else found calls j
found (rem_call key ∷ calls) j = if j == u32 key then none else found calls j

record IsMap (buckets : List (List Entry)) (value : ℕ → Option ℕ) : Type 0 where
  width : length buckets ≡ 17
  distinct : (h : ℕ) → IsDistinct (get_or buckets h [])
  gives : (j : ℕ) → entry_of j (bucket_at buckets j) ≡ value j

-- A bucket is replaced.
module _ (buckets : List (List Entry)) (value value' : ℕ → Option ℕ) (key : ℕ)
    (bucket' : List Entry) (m : IsMap buckets value) (distinct' : IsDistinct bucket')
    (here : (j : ℕ)
      → entry_of j bucket' ≡ (if j == key then value' j else entry_of j (bucket_at buckets key)))
    (elsewhere : (j : ℕ) → j ≢ key → value' j ≡ value j) where
  replaced :
      (h : ℕ)
      → get_or (set buckets (int_hash_fn key) bucket') h []
        ≡ (if h == int_hash_fn key then bucket' else get_or buckets h [])
  replaced h =
      get_or-set buckets (int_hash_fn key) h bucket' [] (omega (arith, m.width, int_hash_fn-lt key))

  in_bucket :
      (j : ℕ)
      → int_hash_fn j ≡ int_hash_fn key
      → (if j == key then value' j else entry_of j (bucket_at buckets key)) ≡ value' j
  in_bucket j same = elim (Bool-cases (j == key)) [
    | inl asked ↦ rw asked refl
    | inr other ↦ rw other (
        ap (λ h. entry_of j (get_or buckets h [])) (sym same)
        ∙ m.gives j
        ∙ sym (elsewhere j (λ e. ground arith)))
  ]

  gives_lem : (j : ℕ) → entry_of j (bucket_at (set buckets (int_hash_fn key) bucket') j) ≡ value' j
  gives_lem j = elim (Bool-cases (int_hash_fn j == int_hash_fn key)) [
    | inl same ↦
        ap (entry_of j) (replaced (int_hash_fn j) ∙ rw same refl)
        ∙ here j
        ∙ in_bucket j ((==_iff _ _).0 same)
    | inr other ↦
        ap (entry_of j) (replaced (int_hash_fn j) ∙ rw other refl)
        ∙ m.gives j
        ∙ sym (
            elsewhere j (λ e.
              let hashes : int_hash_fn j ≡ int_hash_fn key = ap int_hash_fn e in
              let equal = (==_iff _ _).1 hashes in cc))
  ]

  set-IsMap : IsMap (set buckets (int_hash_fn key) bucket') value'
  set-IsMap = record {
    width = length-set buckets (int_hash_fn key) bucket' ∙ m.width;
    distinct = λ h. elim (Bool-cases (h == int_hash_fn key)) [
      | inl same ↦ subst IsDistinct (sym (replaced h ∙ rw same refl)) distinct'
      | inr other ↦ subst IsDistinct (sym (replaced h ∙ rw other refl)) (m.distinct h)
    ];
    gives = gives_lem;
  }

get_or-replicate : (n h : ℕ) → get_or {A = List Entry} (replicate n []) h [] ≡ []
get_or-replicate zero h = refl
get_or-replicate (suc n) zero = refl
get_or-replicate (suc n) (suc h) = get_or-replicate n h

new-IsMap : IsMap new (λ j. none)
unfolding new entry_of
new-IsMap = record {
  width = refl;
  distinct = λ h. subst IsDistinct (sym (empty_at h)) tt;
  gives = λ j. ap (entry_of j) (empty_at (int_hash_fn j));
}
  where
    empty_at : (h : ℕ) → get_or new h [] ≡ []
    empty_at h = get_or-replicate 17 h

put_here :
    (calls : List Call) (m : IsMap (map_after calls) (found calls)) (key elm j : ℕ)
    → (if j == key
        then kept (entry_of j (bucket_at (map_after calls) key)) elm
        else entry_of j (bucket_at (map_after calls) key))
      ≡ (if j == key
          then if j == key then kept (found calls j) elm else found calls j
          else entry_of j (bucket_at (map_after calls) key))
put_here calls m key elm j = elim (Bool-cases (j == key)) [
  | inl asked ↦
      let same : j ≡ key = (==_iff j key).0 asked in
      rw asked (
        ap (λ k. kept (entry_of j (bucket_at (map_after calls) k)) elm) (sym same)
        ∙ ap (λ e. kept e elm) (m.gives j))
  | inr other ↦ rw other refl
]

map_after-IsMap : (calls : List Call) → IsMap (map_after calls) (found calls)
unfolding map_after found put rem
map_after-IsMap [] = new-IsMap
map_after-IsMap (put_call key elm ∷ calls) =
    let m = map_after-IsMap calls in
    let k = u32 key in
    let bucket = bucket_at (map_after calls) k in
    set-IsMap (map_after calls) (found calls) (found (put_call key elm ∷ calls)) k
      (put_entry k elm bucket) m (IsDistinct-put_entry k elm bucket (m.distinct (int_hash_fn k)))
      (λ j. entry_of-put_entry j k elm bucket ∙ put_here calls m k elm j) (λ j ne. ground arith)
map_after-IsMap (rem_call key ∷ calls) =
    let m = map_after-IsMap calls in
    let k = u32 key in
    let bucket = bucket_at (map_after calls) k in
    set-IsMap (map_after calls) (found calls) (found (rem_call key ∷ calls)) k (drop_entry k bucket)
      m (IsDistinct-drop_entry k bucket (m.distinct (int_hash_fn k)))
      (λ j. entry_of-drop_entry j k bucket (m.distinct (int_hash_fn k)) ∙ ground arith)
      (λ j ne. ground arith)

-- After any puts and removals on a new map, a key has the element of its first put since it was last
-- removed, and the null pointer if there is none: this is what get and rem return, and contains tells
-- whether it is not null. Keys that agree in their lower 32 bits are one key.
pub get-map_after :
    (calls : List Call) (j : ℕ)
    → (get j (map_after calls) ≡ or_zero (found calls (u32 j)))
      × ((rem j (map_after calls)).0 ≡ or_zero (found calls (u32 j)))
      × (contains j (map_after calls) ≡ not (or_zero (found calls (u32 j)) == 0))
unfolding get rem contains
get-map_after calls j =
    let m = map_after-IsMap calls in
    let k = u32 j in
    let value = elm_of-or_zero k (bucket_at (map_after calls) k) ∙ ap or_zero (m.gives k) in
    (value, value, ap (λ e. not (e == 0)) value)

pub length-map_after : (calls : List Call) → length (map_after calls) ≡ 17
length-map_after calls = (map_after-IsMap calls).width
