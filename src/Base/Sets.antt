-- ===== src/Base/Sets.antt =====
-- A Python set as a list without repeats, in order of insertion.
use mathlib.Core.Path.{◌≡◌, refl}
use mathlib.Core.Logic.{inl, inr}
use mathlib.Core.Bool.{Bool, false, not, ◌&&◌, ◌||◌}
use mathlib.Core.List.{List, [], ◌∷◌}
use native.Mathlib.Omega.{arith}
use ha_artnet_led.Base.Tests.{if◌then◌else◌, Bool-cases}
use ha_artnet_led.Base.Dict.{Eq}

module _ {A : Type 0} ⦃e : Eq A⦄ where
  -- `a in xs`
  abbrev pub member : A → List A → Bool
  member a [] = false
  member a (x ∷ xs) = e.beq a x || member a xs

  -- `xs.add(a)`
  abbrev pub add : A → List A → List A
  add a [] = a ∷ []
  add a (x ∷ xs) = if e.beq a x then x ∷ xs else x ∷ add a xs

  -- `xs.remove(a)`
  abbrev pub discard : A → List A → List A
  discard a [] = []
  discard a (x ∷ xs) = if e.beq a x then discard a xs else x ∷ discard a xs

  -- No element stands twice, as in every set.
  abbrev pub Distinct : List A → Type 0
  Distinct [] = Unit
  Distinct (x ∷ xs) = (member x xs ≡ false) × Distinct xs

  pub member-add : (b a : A) (xs : List A) → member b (add a xs) ≡ (e.beq b a || member b xs)
  member-add b a [] = refl
  member-add b a (x ∷ xs) =
      ground (arith, e.beq_iff a x, e.beq_iff b x, e.beq_iff b a, member-add b a xs)

  pub member-discard :
      (b a : A) (xs : List A) → member b (discard a xs) ≡ (member b xs && not (e.beq b a))
  member-discard b a [] = refl
  member-discard b a (x ∷ xs) =
      ground (arith, e.beq_iff a x, e.beq_iff b x, e.beq_iff b a, member-discard b a xs)

  pub add-Distinct : (a : A) (xs : List A) → Distinct xs → Distinct (add a xs)
  add-Distinct a [] h = (refl, tt)
  add-Distinct a (x ∷ xs) (new, h) = elim (Bool-cases (e.beq a x)) [
    | inl y ↦ rw y (new, h)
    | inr n ↦
        rw n (ground (arith, member-add x a xs, e.beq_iff x a, e.beq_iff a x), add-Distinct a xs h)
  ]
