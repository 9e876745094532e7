-- ===== src/Base/Result.antt =====
-- Python's exceptions as values: a call returns `ok v`, or raises and returns `err e`.
use mathlib.Core.Path.{◌≡◌, refl, ap}
use mathlib.Core.Logic.{◌⊎◌, inl, inr}
use mathlib.Core.Bool.{Bool, true, false}
use mathlib.Core.List.{List, [], ◌∷◌}

-- The classes of exception that the modelled code raises or meets.
pub data Exc : Type 0 where
  value_error assertion_error index_error key_error : Exc
  serialization_error struct_error unicode_error runtime_error os_error : Exc

pub data Result {ℓ} (A : Type ℓ) : Type ℓ where
  ok : A → Result A
  err : Exc → Result A

module _ {ℓ κ} {A : Type ℓ} {B : Type κ} where
  infixl 5 ◌>>=◌
  -- A call whose exception leaves the caller.
  abbrev pub ◌>>=◌ : Result A → (A → Result B) → Result B
  ok value >>= rest = rest value
  err raised >>= rest = err raised

module _ {κ} {B : Type κ} where
  infixl 5 ◌>>◌
  -- A statement before others.
  abbrev pub ◌>>◌ : Result (Unit {0}) → Result B → Result B
  first >> rest = first >>= (λ _. rest)

-- `assert c`
abbrev pub check : Bool → Result (Unit {0})
check true = ok tt
check false = err Exc.assertion_error

-- `if c: raise e`
abbrev pub raise_if : Bool → Exc → Result (Unit {0})
raise_if true e = err e
raise_if false e = ok tt

-- `[f(x) for x in xs]`
abbrev pub traverse : {A B : Type 0} → (A → Result B) → List A → Result (List B)
traverse f [] = ok []
traverse f (x ∷ xs) = f x >>= λ y. traverse f xs >>= λ ys. ok (y ∷ ys)

-- Both parts of a call and what follows it returned.
pub >>=-returned {ℓ κ} :
    {B : Type κ} {b : B} {A : Type ℓ} (rest : A → Result B) (call : Result A)
    → (call >>= rest) ≡ ok b
    → (value : A) × (call ≡ ok value) × (rest value ≡ ok b)
>>=-returned rest (err raised) same = absurd (cc)
>>=-returned rest (ok value) same = (value, refl, same)

pub Result-cases {ℓ} :
    {A : Type ℓ} (m : Result A) → ((a : A) × (m ≡ ok a)) ⊎ ((e : Exc) × (m ≡ err e))
Result-cases (ok a) = inl (a, refl)
Result-cases (err e) = inr (e, refl)

-- The value of a call that returned.
abbrev value_or {ℓ} : {A : Type ℓ} → A → Result A → A
value_or d (ok a) = a
value_or d (err e) = d

pub ok-injective {ℓ} : {A : Type ℓ} {a b : A} → ok a ≡ ok b → a ≡ b
ok-injective {a = a} e = ap (value_or a) e
