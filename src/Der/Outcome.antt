-- ===== src/Der/Outcome.antt =====
-- The return codes of `common/encoding/include/encoding/der.h` as values, with the chain of calls
-- that leaves at the first code other than `DER_OK`.
use empirical_zero_knowledge.Prelude.{◌≡◌, refl}

pub data DerRc : Type 0 where
  der_arg : DerRc
  der_mem : DerRc
  der_bad : DerRc
  der_short : DerRc

pub data Outcome (A : Type 0) : Type 0 where
  done : A → Outcome A
  err : DerRc → Outcome A
  fault : Outcome A

infixl 5 ◌>>=◌
abbrev pub ◌>>=◌ : {A B : Type 0} → Outcome A → (A → Outcome B) → Outcome B
done a >>= f = f a
err e >>= f = err e
fault >>= f = fault

-- A call that has returned is left out of a chain.
pub >>=-done :
    {A B : Type 0} (m : Outcome A) (f : A → Outcome B) (a : A) → m ≡ done a → (m >>= f) ≡ f a
>>=-done m f a e = rw e refl
