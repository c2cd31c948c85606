-- ===== src/Prelude/Results.antt =====
-- Predicates on the results of code that may fail.
use mathlib.Core.Path.{◌≡◌, refl, subst}
use mathlib.Core.Bool.{Bool, true, false}
use mathlib.Core.Option.{Option, none, some}
use empirical_zero_knowledge.Prelude.Tests.{◌>>=◌, if◌then◌else◌}

-- A result, if there is one, has a property.
abbrev pub Ensures : {A : Type 0} → (A → Type 0) → Option A → Type 0
Ensures P none = Unit {0}
Ensures P (some a) = P a

pub Ensures-bind :
    {A B : Type 0} (Q : B → Type 0) (m : Option A) (f : A → Option B)
    → ((a : A) → Ensures Q (f a))
    → Ensures Q (m >>= f)
Ensures-bind Q none f h = tt
Ensures-bind Q (some a) f h = h a

pub Ensures-bind_with :
    {A B : Type 0} (P : A → Type 0) (Q : B → Type 0) (m : Option A) (f : A → Option B)
    → Ensures P m
    → ((a : A) → P a → Ensures Q (f a))
    → Ensures Q (m >>= f)
Ensures-bind_with P Q none f p h = tt
Ensures-bind_with P Q (some a) f p h = h a p

pub Ensures-weaken :
    {A : Type 0} (P Q : A → Type 0) (m : Option A)
    → Ensures P m
    → ((a : A) → P a → Q a)
    → Ensures Q m
Ensures-weaken P Q none p h = tt
Ensures-weaken P Q (some a) p h = h a p

pub Ensures-eq :
    {A : Type 0} (P : A → Type 0) (m : Option A) {a : A} → Ensures P m → m ≡ some a → P a
Ensures-eq P m p e = subst (Ensures P) e p

pub Ensures-if :
    {A : Type 0} (Q : A → Type 0) (b : Bool) (x y : Option A)
    → Ensures Q x
    → Ensures Q y
    → Ensures Q (if b then x else y)
Ensures-if Q true x y p q = p
Ensures-if Q false x y p q = q

-- Two rests that agree on what is there.
pub bind_congruence :
    {A B : Type 0} (m : Option A) (f g : A → Option B)
    → Ensures (λ a. f a ≡ g a) m
    → m >>= f ≡ m >>= g
bind_congruence none f g h = refl
bind_congruence (some a) f g h = h
