-- ===== src/Base/Action.antt =====
-- Methods on a state: a call leaves a state, makes calls of its own in order, and returns a value or
-- raises. An exception leaves the state as it was when it was raised.
use mathlib.Core.Path.{◌≡◌, sym, ap, ◌∙◌}
use mathlib.Core.List.{List, [], ◌∷◌, ◌++◌}
use mathlib.Core.Bool.{Bool, true, false}
use mathlib.Core.Logic.{inl, inr}
use ha_artnet_led.Base.Tests.{if◌then◌else◌}
use ha_artnet_led.Base.Result.{Result, ok, err, Exc, Result-cases}

pub record Done (S E A : Type 0) : Type 0 where
  pub after : S
  pub events : List E
  pub result : Result A

abbrev pub Action : Type 0 → Type 0 → Type 0 → Type 0
Action S E A = S → Done S E A

module _ {S E A B : Type 0} where
  -- A call, and what follows it if it returns.
  abbrev pub continue : (A → Action S E B) → Done S E A → Done S E B
  continue rest d = elim d.result [
    | err e ↦ record { after = d.after; events = d.events; result = err e }
    | ok a ↦
        let later : Done S E B = rest a d.after in
        record { after = later.after; events = d.events ++ later.events; result = later.result }
  ]

  infixl 5 ◌>>=◌
  unfoldable pub ◌>>=◌ : Action S E A → (A → Action S E B) → Action S E B
  ◌>>=◌ call rest s = continue rest (call s)

module _ {S E B : Type 0} where
  infixl 5 ◌>>◌
  abbrev pub ◌>>◌ : Action S E (Unit {0}) → Action S E B → Action S E B
  call >> rest = call >>= λ _. rest

module _ {S E : Type 0} where
  unfoldable pub returns : {A : Type 0} → A → Action S E A
  returns a s = record { after = s; events = []; result = ok a }

  unfoldable pub raises : {A : Type 0} → Exc → Action S E A
  raises e s = record { after = s; events = []; result = err e }

  abbrev pub nothing : Action S E (Unit {0})
  nothing = returns tt

  unfoldable pub current : Action S E S
  current s = record { after = s; events = []; result = ok s }

  unfoldable pub change : (S → S) → Action S E (Unit {0})
  change f s = record { after = f s; events = []; result = ok tt }

  unfoldable pub calls : List E → Action S E (Unit {0})
  calls es s = record { after = s; events = es; result = ok tt }

  -- The value of a computation that does not touch the state.
  unfoldable pub value_of : {A : Type 0} → Result A → Action S E A
  value_of m s = record { after = s; events = []; result = m }

  -- `if c: …`
  abbrev pub only_if : Bool → Action S E (Unit {0}) → Action S E (Unit {0})
  only_if true call = call
  only_if false call = nothing

  -- `for x in xs: …`
  abbrev pub each : {A : Type 0} → (A → Action S E (Unit {0})) → List A → Action S E (Unit {0})
  each call [] = nothing
  each call (x ∷ xs) = call x >> each call xs

module _ {S E A B : Type 0} (call : Action S E A) (rest : A → Action S E B) (s : S) where
  -- A call that returns is followed by the rest.
  pub >>=-after :
      (a : A)
      → (call s).result ≡ ok a
      → (call >>= rest) s ≡ record {
        after = (rest a (call s).after).after;
        events = (call s).events ++ (rest a (call s).after).events;
        result = (rest a (call s).after).result;
      }
  unfolding ◌>>=◌
  >>=-after a e = rw e

  -- A call that raises ends the caller.
  pub >>=-raised :
      (x : Exc)
      → (call s).result ≡ err x
      → (call >>= rest) s
        ≡ record { after = (call s).after; events = (call s).events; result = err x }
  unfolding ◌>>=◌
  >>=-raised x e = rw e

  pub >>=-returned :
      {b : B}
      → ((call >>= rest) s).result ≡ ok b
      → (a : A) × ((call s).result ≡ ok a) × ((rest a (call s).after).result ≡ ok b)
  unfolding ◌>>=◌
  >>=-returned h = elim (Result-cases (call s).result) [
    | inl (a, e) ↦ (a, e, sym (ap (λ (d : Done S E B). d.result) (>>=-after a e)) ∙ h)
    | inr (x, e) ↦
        absurd (
          let no : err x ≡ ok _ = sym (ap (λ (d : Done S E B). d.result) (>>=-raised x e)) ∙ h in
          cc)
  ]

-- A relation between the state before a call, the one after it and what it called, whether it
-- returns or raises.
pub record Holds {S E A : Type 0} (R : S → S → List E → Type 0) (call : Action S E A) : Type 0 where
  pub at : (s : S) → R s (call s).after (call s).events

-- A relation that joins along calls, and holds where nothing is done.
pub record IsJoined {S E : Type 0} (R : S → S → List E → Type 0) : Type 0 where
  pub stay : (s : S) → R s s []
  pub join : (s t u : S) (es fs : List E) → R s t es → R t u fs → R s u (es ++ fs)

module _ {S E : Type 0} {R : S → S → List E → Type 0} (j : IsJoined R) where
  pub returns-Holds : {A : Type 0} (a : A) → Holds R (returns a)
  unfolding returns
  returns-Holds a = record { at = j.stay }

  pub current-Holds : Holds R current
  unfolding current
  current-Holds = record { at = j.stay }

  pub value_of-Holds : {A : Type 0} (m : Result A) → Holds R (value_of m)
  unfolding value_of
  value_of-Holds m = record { at = j.stay }

  pub >>=-Holds :
      {A B : Type 0} (call : Action S E A) (rest : A → Action S E B)
      → Holds R call
      → ((a : A) → Holds R (rest a))
      → Holds R (call >>= rest)
  unfolding ◌>>=◌
  >>=-Holds call rest hc hr = record {
    at = λ s. elim (Result-cases (call s).result) [
      | inl (a, e) ↦ rw e (j.join s (call s).after _ _ _ (hc.at s) ((hr a).at (call s).after))
      | inr (x, e) ↦ rw e (hc.at s)
    ];
  }

  pub if-Holds :
      {A : Type 0} (b : Bool) (first second : Action S E A)
      → Holds R first
      → Holds R second
      → Holds R (if b then first else second)
  if-Holds true first second h k = h
  if-Holds false first second h k = k

  pub only_if-Holds :
      (b : Bool) (call : Action S E (Unit {0})) → Holds R call → Holds R (only_if b call)
  only_if-Holds true call h = h
  only_if-Holds false call h = returns-Holds tt

  pub each-Holds :
      {A : Type 0} (call : A → Action S E (Unit {0})) (xs : List A)
      → ((x : A) → Holds R (call x))
      → Holds R (each call xs)
  each-Holds call [] h = returns-Holds tt
  each-Holds call (x ∷ xs) h =
      >>=-Holds (call x) (λ _. each call xs) (h x) (λ _. each-Holds call xs h)

-- A first part after which a second relation holds to the end.
module _ {S E : Type 0} {R R' : S → S → List E → Type 0}
    (weaken : (s t : S) (es : List E) → R s t es → R' s t es)
    (join : (s t u : S) (es fs : List E) → R s t es → R' t u fs → R' s u (es ++ fs)) where
  pub >>=-Holds_then :
      {A B : Type 0} (call : Action S E A) (rest : A → Action S E B)
      → Holds R call
      → ((a : A) → Holds R' (rest a))
      → Holds R' (call >>= rest)
  unfolding ◌>>=◌
  >>=-Holds_then call rest hc hr = record {
    at = λ s. elim (Result-cases (call s).result) [
      | inl (a, e) ↦ rw e (join s (call s).after _ _ _ (hc.at s) ((hr a).at (call s).after))
      | inr (x, e) ↦ rw e (weaken s _ _ (hc.at s))
    ];
  }
