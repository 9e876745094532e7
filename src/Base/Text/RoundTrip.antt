-- ===== src/Base/Text/RoundTrip.antt =====
-- The UTF-8 codec: what is encoded is decoded again, and trailing NULs are stripped alike.
use ha_artnet_led.Base.Tests.{ltb, leb, ◌==◌, if◌then◌else◌}
use ha_artnet_led.Base.Lists.{All}
use ha_artnet_led.Base.Bytes.{Bytes, rstrip_nul, strip_head}
use ha_artnet_led.Base.Result.{ok, ◌>>=◌, >>=-returned}
use ha_artnet_led.Base.Text.{
  Text, utf8_char, utf8_encode, utf8_loop, utf8_decode, Pending, no_pending, next, emit, wait,
}
use Prim.Native.Nat.{ℕ, zero, suc, ◌+◌, ◌*◌, ◌/◌, ◌%◌, ◌≤◌, ◌<◌}
use mathlib.Core.Path.{◌≡◌, refl, ap, ◌∙◌}
use mathlib.Core.Logic.{◌≢◌}
use mathlib.Core.Bool.{false, ◌&&◌}
use mathlib.Core.List.{[], ◌∷◌, ◌++◌}
use native.Mathlib.Omega.{arith}

abbrev pub IsCodePoint : ℕ → Type 0
IsCodePoint c = c < 0x110000

module _ {κ} (P : ℕ → Type κ) where
  All-strip_head : (c : ℕ) (cs : Text) → P c → All P cs → All P (strip_head c cs)
  All-strip_head zero [] hc h = h
  All-strip_head zero (d ∷ ds) hc h = (hc, h)
  All-strip_head (suc c) cs hc h = (hc, h)

  pub All-rstrip_nul : (t : Text) → All P t → All P (rstrip_nul t)
  unfolding rstrip_nul
  All-rstrip_nul [] h = h
  All-rstrip_nul (c ∷ cs) h = All-strip_head c (rstrip_nul cs) h.0 (All-rstrip_nul cs h.1)

-- One byte of the loop, by what `next` says of it.
utf8_loop_emit :
    (b c : ℕ) (bs : Bytes) (p : Pending)
    → next p b ≡ emit c
    → utf8_loop (b ∷ bs) p ≡ (utf8_loop bs no_pending >>= λ cs. ok (c ∷ cs))
unfolding utf8_loop
utf8_loop_emit b c bs p h = rw (h, utf8_loop)

utf8_loop_wait :
    (b : ℕ) (bs : Bytes) (p q : Pending) → next p b ≡ wait q → utf8_loop (b ∷ bs) p ≡ utf8_loop bs q
unfolding utf8_loop
utf8_loop_wait b bs p q h = rw (h, utf8_loop)

abbrev pending : ℕ → ℕ → ℕ → ℕ → Pending
pending d v l h = record { due = d; value = v; low = l; high = h }

-- The bounds of the second byte, by the bits of the first.
abbrev low_3 : ℕ → ℕ
low_3 q = if q == 0 then 0xA0 else 0x80

abbrev high_3 : ℕ → ℕ
high_3 q = if q == 13 then 0x9F else 0xBF

abbrev low_4 : ℕ → ℕ
low_4 q = if q == 0 then 0x90 else 0x80

abbrev high_4 : ℕ → ℕ
high_4 q = if q == 4 then 0x8F else 0xBF

lead_1 : (c : ℕ) → c < 0x80 → next no_pending c ≡ emit c
lead_1 c h = ground arith

lead_2 : (q : ℕ) → 2 ≤ q → q < 32 → next no_pending (0xC0 + q) ≡ wait (pending 1 q 0x80 0xBF)
lead_2 q l h = ground arith

lead_3 : (q : ℕ) → q < 16 → next no_pending (0xE0 + q) ≡ wait (pending 2 q (low_3 q) (high_3 q))
lead_3 q h = ground arith

lead_4 : (q : ℕ) → q < 5 → next no_pending (0xF0 + q) ≡ wait (pending 3 q (low_4 q) (high_4 q))
lead_4 q h = ground arith

last :
    (v l h m : ℕ)
    → l ≤ 0x80 + m
    → 0x80 + m ≤ h
    → next (pending 1 v l h) (0x80 + m) ≡ emit (v * 64 + m)
last v l h m p q = ground arith

inner :
    (k v l h m : ℕ)
    → l ≤ 0x80 + m
    → 0x80 + m ≤ h
    → next (pending (suc (suc k)) v l h) (0x80 + m) ≡ wait (pending (suc k) (v * 64 + m) 0x80 0xBF)
inner k v l h m p q = ground arith

last_eq :
    (v l h m c : ℕ)
    → l ≤ 0x80 + m
    → 0x80 + m ≤ h
    → v * 64 + m ≡ c
    → next (pending 1 v l h) (0x80 + m) ≡ emit c
last_eq v l h m c p q e = last v l h m p q ∙ ap emit e

-- The decoder on the two, three and four bytes of a code point.
abbrev Decodes : ℕ → Bytes → Type 0
Decodes c b =
    (rest : Bytes)
    → utf8_loop (b ++ rest) no_pending ≡ (utf8_loop rest no_pending >>= λ cs. ok (c ∷ cs))

Decodes-2 : (c : ℕ) → 0x80 ≤ c → c < 0x800 → Decodes c ((0xC0 + c / 64) ∷ (0x80 + c % 64) ∷ [])
Decodes-2 c l h rest =
    utf8_loop_wait _ _ _ _ (lead_2 (c / 64) (omega arith) (omega arith))
    ∙ utf8_loop_emit _ _ _ _
        (last_eq (c / 64) 0x80 0xBF (c % 64) c (omega arith) (omega arith) (omega arith))

Decodes-3 :
    (c : ℕ)
    → 0x800 ≤ c
    → c < 0x10000
    → (leb 0xD800 c && ltb c 0xE000) ≡ false
    → Decodes c ((0xE0 + c / 4096) ∷ (0x80 + c / 64 % 64) ∷ (0x80 + c % 64) ∷ [])
Decodes-3 c l h s rest =
    utf8_loop_wait _ _ _ _ (lead_3 (c / 4096) (omega arith))
    ∙ utf8_loop_wait _ _ _ _ (
        inner 0 (c / 4096) (low_3 (c / 4096)) (high_3 (c / 4096)) (c / 64 % 64) (ground arith)
          (ground arith))
    ∙ utf8_loop_emit _ _ _ _
        (last_eq _ 0x80 0xBF (c % 64) c (omega arith) (omega arith) (omega arith))

Decodes-4 :
    (c : ℕ)
    → 0x10000 ≤ c
    → c < 0x110000
    → Decodes c
        ((0xF0 + c / 262144) ∷ (0x80 + c / 4096 % 64) ∷ (0x80 + c / 64 % 64) ∷ (0x80 + c % 64) ∷ [])
Decodes-4 c l h rest =
    utf8_loop_wait _ _ _ _ (lead_4 (c / 262144) (omega arith))
    ∙ utf8_loop_wait _ _ _ _ (
        inner 1 (c / 262144) (low_4 (c / 262144)) (high_4 (c / 262144)) (c / 4096 % 64)
          (ground arith) (ground arith))
    ∙ utf8_loop_wait _ _ _ _ (inner 0 _ 0x80 0xBF (c / 64 % 64) (omega arith) (omega arith))
    ∙ utf8_loop_emit _ _ _ _
        (last_eq _ 0x80 0xBF (c % 64) c (omega arith) (omega arith) (omega arith))

Decodes-1 : (c : ℕ) → c < 0x80 → Decodes c (c ∷ [])
Decodes-1 c h rest = utf8_loop_emit _ _ _ _ (lead_1 c h)

utf8_char_cases : (c : ℕ) (b : Bytes) → IsCodePoint c → utf8_char c ≡ ok b → Decodes c b
unfolding utf8_char
utf8_char_cases c b h e = ground (arith, Decodes-1 c, Decodes-2 c, Decodes-3 c, Decodes-4 c)

pub utf8_decode-encode :
    (t : Text) (b : Bytes) → All IsCodePoint t → utf8_encode t ≡ ok b → utf8_decode b ≡ ok t
unfolding utf8_decode utf8_encode
utf8_decode-encode [] b h e = ground arith
utf8_decode-encode (c ∷ cs) b (hc, hcs) e =
    let (x, ex, e') = >>=-returned _ (utf8_char c) e in
    let (y, ey, e'') = >>=-returned _ (utf8_encode cs) e' in
    ground (arith, utf8_char_cases c x hc ex y, utf8_decode-encode cs y hcs ey)

-- Only the NUL itself has a zero byte at the end of its encoding, and it has no other byte.
strip_char :
    (c : ℕ) (b bs : Bytes) → utf8_char c ≡ ok b → c ≢ 0 → rstrip_nul (b ++ bs) ≡ b ++ rstrip_nul bs
unfolding utf8_char rstrip_nul
strip_char c b bs e h = ground arith

strip_head_ne : (c : ℕ) (cs : Text) → c ≢ 0 → strip_head c cs ≡ c ∷ cs
strip_head_ne zero cs h = absurd (h refl)
strip_head_ne (suc c) cs h = refl

utf8_char-ne-nil : (c : ℕ) → utf8_char c ≢ ok []
unfolding utf8_char
utf8_char-ne-nil c = λ e. ground arith

-- The encoding of a text is that of its first code point, then that of the others.
utf8_encode-cons :
    (c : ℕ) (cs : Text) (x y : Bytes)
    → utf8_char c ≡ ok x
    → utf8_encode cs ≡ ok y
    → utf8_encode (c ∷ cs) ≡ ok (x ++ y)
unfolding utf8_encode
utf8_encode-cons c cs x y ex ey = rw (ex, ey)

utf8_encode-inv :
    (c : ℕ) (cs : Text) (b : Bytes)
    → utf8_encode (c ∷ cs) ≡ ok b
    → (x : Bytes) × (y : Bytes) × (utf8_char c ≡ ok x) × (utf8_encode cs ≡ ok y) × (b ≡ x ++ y)
unfolding utf8_encode
utf8_encode-inv c cs b e =
    let (x, ex, e') = >>=-returned _ (utf8_char c) e in
    let (y, ey, e'') = >>=-returned _ (utf8_encode cs) e' in (x, y, ex, ey, cc)

utf8_encode-ne-nil : (c : ℕ) (cs : Text) → utf8_encode (c ∷ cs) ≢ ok []
utf8_encode-ne-nil c cs = λ e. let (x, y, ex, ey, eb) = utf8_encode-inv c cs [] e in head x y ex eb
  where
    head : (x y : Bytes) → utf8_char c ≡ ok x → [] ≡ x ++ y → ⊥
    head [] y ex e = utf8_char-ne-nil c ex
    head (a ∷ x) y ex e = cc

char_nul : utf8_char 0 ≡ ok (0 ∷ [])
unfolding utf8_char
char_nul = refl

strip_nul_head :
    (r : Text) (s : Bytes)
    → utf8_encode r ≡ ok s
    → utf8_encode (strip_head 0 r) ≡ ok (strip_head 0 s)
strip_nul_head [] [] e = e
strip_nul_head [] (x ∷ s) e = unfold utf8_encode in cc
strip_nul_head (c ∷ r) [] e = absurd (utf8_encode-ne-nil c r e)
strip_nul_head (c ∷ r) (x ∷ s) e = utf8_encode-cons 0 (c ∷ r) (0 ∷ []) (x ∷ s) char_nul e

nul_bytes : (x : Bytes) → utf8_char 0 ≡ ok x → x ≡ 0 ∷ []
nul_bytes x e = cc char_nul

pub rstrip_nul-utf8_encode :
    (t : Text) (b : Bytes) → utf8_encode t ≡ ok b → utf8_encode (rstrip_nul t) ≡ ok (rstrip_nul b)
unfolding rstrip_nul
rstrip_nul-utf8_encode [] b e = unfold utf8_encode in ground arith
rstrip_nul-utf8_encode (zero ∷ cs) b e =
    let (x, y, ex, ey, eb) = utf8_encode-inv zero cs b e in
    rw (eb, nul_bytes x ex)
      (strip_nul_head (rstrip_nul cs) (rstrip_nul y) (rstrip_nul-utf8_encode cs y ey))
rstrip_nul-utf8_encode (suc c ∷ cs) b e =
    let (x, y, ex, ey, eb) = utf8_encode-inv (suc c) cs b e in
    rw (eb, strip_char (suc c) x y ex (omega arith))
      (utf8_encode-cons (suc c) (rstrip_nul cs) x (rstrip_nul y) ex
        (rstrip_nul-utf8_encode cs y ey))
