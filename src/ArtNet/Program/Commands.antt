-- ===== src/ArtNet/Program/Commands.antt =====
-- The command and the switches of `ArtAddress`: what arrives of what is sent.
use ha_artnet_led.Base.{
  All, subst, inl, inr, ◌⊎◌, Bool-cases, ℕ, ◌+◌, ◌-◌, ◌*◌, ◌%◌, ◌<◌, ◌≤◌, ◌≡◌, refl, ap, ◌∙◌, true,
  false, List, [], ◌∷◌, ◌==◌, leb, arith, bit_or, bit_or_sum, if◌then◌else◌,
}
use ha_artnet_led.Base.Result.{Result, ok, err, Exc, ◌>>=◌}
use ha_artnet_led.ArtNet.Address.Laws.{low_4}
use ha_artnet_led.ArtNet.Flags.RoundTrip.{flag-eq}
use ha_artnet_led.ArtNet.Program.{
  command_values, one_of, apply_port_index, command_of, decode_with_port_index, ValueAction, reset,
  ignore, write, apply_value_action, action_of,
}

one_of-All : (P : ℕ → Type 0) (xs : List ℕ) (c : ℕ) → All P xs → one_of xs c ≡ true → P c
one_of-All P [] c h m = absurd (cc)
one_of-All P (x ∷ xs) c (p, h) m = elim (Bool-cases (c == x)) [
  | inl y ↦ let e : x ≡ c = ground (arith, y) in subst P e p
  | inr n ↦ one_of-All P xs c h (ground (arith, m, n))
]

-- The commands below 0x10 have no port; the others leave their low four bits to it.
abbrev HasPort : ℕ → Type 0
HasPort c = (c ≤ 12) ⊎ ((16 ≤ c) × (c % 16 ≡ 0))

command_values-HasPort : All HasPort command_values
command_values-HasPort = (
  inl (omega arith),
  (
    inl (omega arith),
    (
      inl (omega arith),
      (
        inl (omega arith),
        (
          inl (omega arith),
          (
            inl (omega arith),
            (
              inl (omega arith),
              (
                inl (omega arith),
                (
                  inl (omega arith),
                  (
                    inl (omega arith),
                    (
                      inl (omega arith),
                      (
                        inl (omega arith),
                        (
                          inl (omega arith),
                          (
                            inr (omega arith, omega arith),
                            (
                              inr (omega arith, omega arith),
                              (
                                inr (omega arith, omega arith),
                                (
                                  inr (omega arith, omega arith),
                                  (
                                    inr (omega arith, omega arith),
                                    (
                                      inr (omega arith, omega arith),
                                      (
                                        inr (omega arith, omega arith),
                                        (
                                          inr (omega arith, omega arith),
                                          (
                                            inr (omega arith, omega arith),
                                            (
                                              inr (omega arith, omega arith),
                                              (inr (omega arith, omega arith), tt),
                                            ),
                                          ),
                                        ),
                                      ),
                                    ),
                                  ),
                                ),
                              ),
                            ),
                          ),
                        ),
                      ),
                    ),
                  ),
                ),
              ),
            ),
          ),
        ),
      ),
    ),
  ),
)

abbrev without_port : ℕ → Result (ℕ × ℕ)
without_port v = command_of v >>= λ k. ok (k, 0)

without_port-eq :
    (v : ℕ) → without_port v ≡ (if one_of command_values v then ok (v, 0) else err Exc.value_error)
without_port-eq v = elim (Bool-cases (one_of command_values v)) [
  | inl y ↦ rw y refl
  | inr n ↦ rw n refl
]

decoded :
    (c i : ℕ)
    → i ≤ 3
    → one_of command_values c ≡ true
    → HasPort c
    → decode_with_port_index (if leb 0x10 c then c else c + i) ≡ (
        if leb 0x10 c
        then ok (c, 0)
        else (if one_of command_values (c + i) then ok (c + i, 0) else err Exc.value_error))
unfolding decode_with_port_index
decoded c i low h (inl small) =
    let a : leb 0x10 c ≡ false = ground arith in
    let b : leb 0x10 (c + i) ≡ false = ground arith in
    let z : c + i - 0 ≡ c + i = omega arith in
    rw (a, b) (ap without_port z ∙ without_port-eq (c + i))
decoded c i low h (inr (big, none_set)) =
    let a : leb 0x10 c ≡ true = ground arith in
    let z : c - 0 ≡ c = omega arith in
    rw a (rw (a, low_4 c, none_set) (ap without_port z ∙ (without_port-eq c ∙ rw h refl)))

-- A command for one of four ports is written, and reading it back gives: from 0x10 on the command,
-- for port 0 whatever port was given; below, the command whose value is the port higher, or an
-- error if there is none.
pub decode-apply_port_index :
    (c i : ℕ)
    → one_of command_values c ≡ true
    → i ≤ 3
    → (v : ℕ) × (apply_port_index c i ≡ ok v)
      × (decode_with_port_index v ≡ (
          if leb 0x10 c
          then ok (c, 0)
          else (if one_of command_values (c + i) then ok (c + i, 0) else err Exc.value_error)))
unfolding apply_port_index decode_with_port_index
decode-apply_port_index c i h low = (
  (if leb 0x10 c then c else c + i),
  ground arith,
  decoded c i low h (one_of-All HasPort command_values c command_values-HasPort h),
)

-- A switch of seven bits, not 0, that is sent with an action arrives with that action, as 0 for a
-- reset and for a write with the bit 7 of the action in its value.
pub action_of-apply_value_action :
    (a : ValueAction) (v : ℕ)
    → 1 ≤ v
    → v < 128
    → (action_of (apply_value_action a v) ≡ a)
      × (apply_value_action a v ≡ elim a [ reset ↦ 0 | ignore ↦ v | write ↦ 128 + v ])
unfolding apply_value_action
action_of-apply_value_action reset v lo hi = (refl, refl)
action_of-apply_value_action ignore v lo hi =
    let e : bit_or (0 * 128) v ≡ v = bit_or_sum 7 0 v hi ∙ omega arith in
    rw e (ground (arith, flag-eq v 128, lo, hi), refl)
action_of-apply_value_action write v lo hi =
    let e : bit_or (1 * 128) v ≡ 128 + v = bit_or_sum 7 1 v hi ∙ omega arith in
    rw e (ground (arith, flag-eq (128 + v) 128, lo, hi), refl)
