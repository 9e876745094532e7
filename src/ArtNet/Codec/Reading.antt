-- ===== src/ArtNet/Codec/Reading.antt =====
-- A `deserialize` method at work: the object that it fills, the index into the packet, and
-- exceptions, which leave what was assigned before.
use ha_artnet_led.Base.{ℕ, ◌+◌, Bool, true, false, [], ◌∷◌, ◌==◌, ◌&&◌, if◌then◌else◌}
use ha_artnet_led.Base.Result.{Exc, Result, ok, err}
use ha_artnet_led.Base.Text.{Text}

-- The assignments so far left the object and the index; the last call returned or raised.
pub data Step (S A : Type 0) : Type 0 where
  next : A → S → ℕ → Step S A
  stop : Exc → S → ℕ → Step S A

abbrev pub Reader : Type 0 → Type 0 → Type 0
Reader S A = S → ℕ → Step S A

infixl 5 ◌>>=◌ ◌>>◌
abbrev pub ◌>>=◌ : {S A B : Type 0} → Reader S A → (A → Reader S B) → Reader S B
◌>>=◌ m f s i = elim (m s i) [ next a s' j ↦ f a s' j | stop e s' j ↦ stop e s' j ]

abbrev pub ◌>>◌ : {S B : Type 0} → Reader S (Unit {0}) → Reader S B → Reader S B
m >> k = m >>= λ _. k

-- `self.field = …`, `index += n`, and a raise under a condition.
abbrev pub assign : {S : Type 0} → (S → S) → Reader S (Unit {0})
assign f s i = next tt (f s) i

abbrev pub give : {S A : Type 0} → A → Reader S A
give a s i = next a s i

abbrev pub skip : {S : Type 0} → ℕ → Reader S (Unit {0})
skip n s i = next tt s (i + n)

abbrev pub raise_unless : {S : Type 0} → Bool → Exc → Reader S (Unit {0})
raise_unless true e s i = next tt s i
raise_unless false e s i = stop e s i

-- A call that may raise, and an `if` on the object and the index.
abbrev pub lift : {S A : Type 0} → Result A → Reader S A
lift (ok a) s i = next a s i
lift (err e) s i = stop e s i

abbrev pub when : {S : Type 0} → (S → ℕ → Bool) → Reader S (Unit {0}) → Reader S (Unit {0})
when test body s i = let done = body s i in if test s i then done else next tt s i

abbrev pub choose : {S A : Type 0} → (S → ℕ → Bool) → Reader S A → Reader S A → Reader S A
choose test body other s i =
    let first = body s i in let second = other s i in if test s i then first else second

-- The index of an inner method is local to it.
abbrev pub keep_index : {S : Type 0} → Step S (Unit {0}) → ℕ → Step S (Unit {0})
keep_index (next a s j) i = next a s j
keep_index (stop e s j) i = stop e s i

-- A call of `deserialize`: `except SerializationError` logs, and the index is returned.
pub data Outcome (S : Type 0) : Type 0 where
  returned : S → ℕ → Outcome S
  raised : Exc → S → Outcome S

abbrev pub outcome : {S : Type 0} → Step S (Unit {0}) → Outcome S
outcome (next a s i) = returned s i
outcome (stop Exc.serialization_error s i) = returned s i
outcome (stop e s i) = raised e s

abbrev pub text_eq : Text → Text → Bool
text_eq [] [] = true
text_eq [] (y ∷ ys) = false
text_eq (x ∷ xs) [] = false
text_eq (x ∷ xs) (y ∷ ys) = x == y && text_eq xs ys
