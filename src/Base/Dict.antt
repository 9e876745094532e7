-- ===== src/Base/Dict.antt =====
-- A Python dict in insertion order, as an association list over keys with decidable equality.
use Prim.Native.Nat.{ℕ}
use mathlib.Core.Path.{◌≡◌, refl}
use mathlib.Core.Logic.{◌↔◌, inl, inr}
use mathlib.Core.Bool.{Bool, true, false, ◌||◌}
use mathlib.Core.Option.{Option, none, some}
use mathlib.Core.List.{List, [], ◌∷◌}
use native.Mathlib.Omega.{arith}
use ha_artnet_led.Base.Tests.{◌==◌, ==_iff, Bool-cases, if◌then◌else◌}

-- `==` on the keys.
pub record Eq {ℓ} (A : Type ℓ) : Type ℓ where
  pub beq : A → A → Bool
  pub beq_iff : (a b : A) → (beq a b ≡ true) ↔ (a ≡ b)

instance abbrev pub nat_eq : Eq ℕ
nat_eq = record { beq = ◌==◌; beq_iff = ==_iff }

abbrev pub Dict {ℓ κ} : Type ℓ → Type κ → Type (ℓ ⊔ κ)
Dict K V = List (K × V)

module _ {ℓ κ} {K : Type ℓ} {V : Type κ} ⦃e : Eq K⦄ where
  -- `d.get(k)`
  abbrev pub lookup : K → Dict K V → Option V
  lookup k [] = none
  lookup k ((j, v) ∷ d) = if e.beq k j then some v else lookup k d

  -- `k in d`
  abbrev pub contains : K → Dict K V → Bool
  contains k d = elim (lookup k d) [ none ↦ false | some _ ↦ true ]

  -- `d[k] = v`
  abbrev pub insert : K → V → Dict K V → Dict K V
  insert k v [] = (k, v) ∷ []
  insert k v ((j, w) ∷ d) = if e.beq k j then (j, v) ∷ d else (j, w) ∷ insert k v d

  -- `del d[k]`
  abbrev pub erase : K → Dict K V → Dict K V
  erase k [] = []
  erase k ((j, w) ∷ d) = if e.beq k j then d else (j, w) ∷ erase k d

  pub lookup-insert :
      (k j : K) (v : V) (d : Dict K V)
      → lookup j (insert k v d) ≡ (if e.beq j k then some v else lookup j d)
  lookup-insert k j v [] = refl
  lookup-insert k j v ((i, w) ∷ d) =
      ground
        (arith, e.beq_iff k j, e.beq_iff k i, e.beq_iff j i, e.beq_iff j k, lookup-insert k j v d)

  -- No key stands twice, as in every Python dict.
  abbrev pub Unique : Dict K V → Type 0
  Unique [] = Unit
  Unique ((j, w) ∷ d) = (contains j d ≡ false) × Unique d

  contains-insert :
      (k j : K) (v : V) (d : Dict K V) → contains j (insert k v d) ≡ (e.beq j k || contains j d)
  contains-insert k j v d = ground (arith, lookup-insert k j v d)

  pub insert-Unique : (k : K) (v : V) (d : Dict K V) → Unique d → Unique (insert k v d)
  insert-Unique k v [] h = (refl, tt)
  insert-Unique k v ((i, w) ∷ d) (new, h) = elim (Bool-cases (e.beq k i)) [
    | inl y ↦ rw y (new, h)
    | inr n ↦ rw n (
      ground (arith, contains-insert k i v d, e.beq_iff k i, e.beq_iff i k),
      insert-Unique k v d h,
    )
  ]

  erase-contains : (k j : K) (d : Dict K V) → contains j d ≡ false → contains j (erase k d) ≡ false
  erase-contains k j [] h = refl
  erase-contains k j ((i, w) ∷ d) h =
      ground (arith, e.beq_iff k i, e.beq_iff j i, erase-contains k j d)

  pub erase-Unique : (k : K) (d : Dict K V) → Unique d → Unique (erase k d)
  erase-Unique k [] h = tt
  erase-Unique k ((i, w) ∷ d) (new, h) = elim (Bool-cases (e.beq k i)) [
    | inl y ↦ rw y h
    | inr n ↦ rw n (erase-contains k i d new, erase-Unique k d h)
  ]

  pub lookup-erase :
      (k j : K) (d : Dict K V)
      → Unique d
      → lookup j (erase k d) ≡ (if e.beq j k then none else lookup j d)
  lookup-erase k j [] h = ground arith
  lookup-erase k j ((i, w) ∷ d) (new, h) =
      ground (arith, e.beq_iff k i, e.beq_iff j i, e.beq_iff j k, lookup-erase k j d h)
