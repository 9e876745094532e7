-- ===== src/ArtNet/Messages/Strings.antt =====
-- Texts in packets: what `_append_str` writes is what `_consume_str` reads.
use ha_artnet_led.Base.{
  ℕ, zero, suc, ◌+◌, ◌-◌, ◌<◌, ◌≤◌, ◌≡◌, refl, ap, ◌∙◌, [], ◌∷◌, ◌++◌, All, length, replicate,
  lt→ltb, arith, take_all,
}
use ha_artnet_led.Base.Result.{ok}
use ha_artnet_led.Base.Bytes.{Bytes, slice}
use ha_artnet_led.Base.Text.{Text}
use ha_artnet_led.ArtNet.Codec.{
  extend, append_str, until_nul, only_ascii, decode_str, consume_str, next,
}

-- A character of ASCII other than NUL.
abbrev pub IsPlain : ℕ → Type 0
IsPlain c = (1 ≤ c) × (c < 128)

extend-padded :
    (t : Text) (n : ℕ) → All IsPlain t → extend (t ++ replicate n 0) ≡ ok (t ++ replicate n 0)
unfolding extend
extend-padded [] zero h = refl
extend-padded [] (suc n) h = rw (extend-padded [] n tt) refl
extend-padded (c ∷ t) n ((lo, hi), h) = rw (extend-padded t n h) (ground (arith, lo, hi))

pub append_str-eq :
    (t : Text) (len : ℕ)
    → All IsPlain t
    → length t < len
    → append_str t len ≡ ok (t ++ replicate (len - length t) 0)
unfolding append_str
append_str-eq t len h short =
    rw (take_all (len - 1) t (omega arith)) (extend-padded t (len - length t) h)

only_ascii-plain : (t : Text) → All IsPlain t → only_ascii t ≡ t
only_ascii-plain [] h = refl
only_ascii-plain (c ∷ t) ((lo, hi), h) = rw (lt→ltb c 128 hi, only_ascii-plain t h) refl

only_ascii-replicate : (n : ℕ) → only_ascii (replicate n 0) ≡ replicate n 0
only_ascii-replicate zero = refl
only_ascii-replicate (suc n) = rw (only_ascii-replicate n) refl

until_nul-padded : (t : Text) (n : ℕ) → All IsPlain t → until_nul (t ++ replicate n 0) ≡ t
until_nul-padded [] zero h = refl
until_nul-padded [] (suc n) h = refl
until_nul-padded (zero ∷ t) n ((lo, hi), h) = absurd (omega (arith, lo))
until_nul-padded (suc c ∷ t) n ((lo, hi), h) = ap (λ r. suc c ∷ r) (until_nul-padded t n h)

-- The text that arrives: an empty one arrives as the NULs that pad it.
abbrev pub arriving : Text → ℕ → Text
arriving [] n = replicate n 0
arriving (c ∷ t) n = c ∷ t

pub decode_str-padded :
    (t : Text) (n : ℕ) → All IsPlain t → decode_str (t ++ replicate n 0) ≡ arriving t n
unfolding decode_str
decode_str-padded [] n h = rw (decode_str, until_nul-padded [] n tt) (only_ascii-replicate n)
decode_str-padded (c ∷ t) n h =
    rw (decode_str, until_nul-padded (c ∷ t) n h) (only_ascii-plain (c ∷ t) h)

pub str_at :
    {S : Type 0} (packet : Bytes) (s : S) (i n : ℕ) (raw : Bytes) (t : Text)
    → slice i n packet ≡ raw
    → decode_str raw ≡ t
    → consume_str packet n s i ≡ next t s (i + n)
unfolding consume_str
str_at packet s i n raw t h d =
    ap (λ r. next (decode_str r) s (i + n)) h ∙ ap (λ (r : Text). next r s (i + n)) d

pub arriving_whole : (t : Text) (n : ℕ) → arriving t (n - length t) ≡ arriving t n
arriving_whole [] n = let e : n - 0 ≡ n = omega arith in ap (λ (k : ℕ). replicate k 0) e
arriving_whole (c ∷ t) n = refl
