-- ===== src/Base/Text/Errors.antt =====
-- The only exception of the UTF-8 decoder.
use ha_artnet_led.Base.Bytes.{Bytes}
use ha_artnet_led.Base.Result.{err, Exc}
use ha_artnet_led.Base.Text.{
  utf8_loop, utf8_decode, Pending, no_pending, next, Event, emit, wait, bad,
}
use Prim.Native.Nat.{ℕ}
use mathlib.Core.Path.{◌≡◌, refl}
use mathlib.Core.Logic.{◌⊎◌, inl, inr}
use mathlib.Core.List.{[], ◌∷◌}
use native.Mathlib.Omega.{arith}

Event-cases : (e : Event) → ((c : ℕ) × (e ≡ emit c)) ⊎ (((q : Pending) × (e ≡ wait q)) ⊎ (e ≡ bad))
Event-cases (emit c) = inl (c, refl)
Event-cases (wait q) = inr (inl (q, refl))
Event-cases bad = inr (inr refl)

utf8_loop_error :
    (b : Bytes) (p : Pending) (x : Exc) → utf8_loop b p ≡ err x → x ≡ Exc.unicode_error
unfolding utf8_loop
utf8_loop_error [] p x h = ground arith
utf8_loop_error (b ∷ bs) p x h = elim (Event-cases (next p b)) [
  | inl (c, e) ↦ ground (arith, utf8_loop_error bs no_pending x, rw (e, utf8_loop) at h)
  | inr (inl (q, e)) ↦ utf8_loop_error bs q x (rw (e, utf8_loop) at h)
  | inr (inr e) ↦ let h' = rw (e, utf8_loop) at h in ground arith
]

pub utf8_decode_error : (b : Bytes) (x : Exc) → utf8_decode b ≡ err x → x ≡ Exc.unicode_error
unfolding utf8_decode
utf8_decode_error b x h = utf8_loop_error b no_pending x h
