-- ===== src/Universe/Listeners.antt =====
-- The callbacks that the updates of `DmxUniverse` call, of custom_components/dmx/io/dmx_io.py.
use ha_artnet_led.Base.{ℕ, ◌≡◌, Bool, false, not, ◌&&◌, ◌||◌, List, [], ◌∷◌, arith}
use ha_artnet_led.Base.Bytes.{Bytes}
use ha_artnet_led.Base.Dict.{Dict, nat_eq}
use ha_artnet_led.Universe.State.{
  Universe, Event, call_callback, elem, registered, is_locked, differs,
}
use ha_artnet_led.Universe.Send.{send_events}

-- No callback stands twice.
abbrev pub IsDistinct : List ℕ → Type 0
IsDistinct [] = Unit
IsDistinct (x ∷ xs) = (elem x xs ≡ false) × IsDistinct xs

-- Some channel of a list has the callback registered and passes the test.
abbrev pub any : (ℕ → Bool) → List ℕ → Bool
any p [] = false
any p (x ∷ xs) = p x || any p xs

abbrev pub listens : ℕ → Universe → ℕ → Bool
listens cb u ch = elem cb (registered ch u.channel_callbacks)

abbrev pub changes : ℕ → Bool → Universe → ℕ → Bool
changes v sourced u ch = not (is_locked ch sourced u) && differs ch v u

-- The callbacks among the calls of a run.
abbrev pub called : List Event → List ℕ
called [] = []
called (call_callback cb ∷ es) = cb ∷ called es
called (_ ∷ es) = called es

-- An entry of the updates changes a channel that the callback listens to.
abbrev pub reaches : ℕ → Bool → Universe → Dict ℕ ℕ → Bool
reaches cb s u [] = false
reaches cb s u ((ch, v) ∷ d) = (changes v s u ch && listens cb u ch) || reaches cb s u d

called-send_events : (u : Universe) (a b : Bytes) → called (send_events u a b) ≡ []
called-send_events u a b = ground arith
