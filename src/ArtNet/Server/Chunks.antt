-- ===== src/ArtNet/Server/Chunks.antt =====
-- The chunks of `get_grouped_ports` (custom_components/dmx/server/artnet_server.py).
use ha_artnet_led.Base.{
  ℕ, zero, suc, ◌≤◌, ◌≡◌, refl, ap, ◌∙◌, List, [], ◌∷◌, ◌++◌, All, length, take, drop, length-take,
  length-drop, arith,
}
use ha_artnet_led.ArtNet.Server.Replies.{chunks_of}

take-append-drop : {A : Type 0} (n : ℕ) (xs : List A) → take n xs ++ drop n xs ≡ xs
take-append-drop zero xs = refl
take-append-drop (suc n) [] = refl
take-append-drop (suc n) (x ∷ xs) = ap (λ t. x ∷ t) (take-append-drop n xs)

abbrev all_of : {A : Type 0} → List (List A) → List A
all_of [] = []
all_of (c ∷ cs) = c ++ all_of cs

-- Fuel of the length of the list is enough: the chunks hold the whole list in its order, and none is
-- longer than four.
chunks_of-All :
    {A : Type 0} (fuel : ℕ) (xs : List A)
    → length xs ≤ fuel
    → (all_of (chunks_of fuel xs) ≡ xs) × All (λ c. length c ≤ 4) (chunks_of fuel xs)
unfolding chunks_of
chunks_of-All zero [] h = (refl, tt)
chunks_of-All zero (x ∷ xs) h = absurd (omega arith)
chunks_of-All (suc fuel) [] h = (refl, tt)
chunks_of-All {A} (suc fuel) (x ∷ xs) h =
    let (whole, short) =
      chunks_of-All fuel (drop 4 (x ∷ xs)) (omega (arith, length-drop 4 (x ∷ xs))) in
    (
      ap (λ (t : List A). take 4 (x ∷ xs) ++ t) whole ∙ take-append-drop 4 (x ∷ xs),
      (omega (arith, length-take 4 (x ∷ xs)), short),
    )
