-- ===== src/Universe/Pace.antt =====
-- How often `_schedule_send` and its timer send, of custom_components/dmx/io/dmx_io.py.
use ha_artnet_led.Base.{ℕ, ◌≤◌, ◌≡◌, true, List, [], ◌∷◌}
use ha_artnet_led.Universe.State.{Universe}
use ha_artnet_led.Universe.Quiet.{Untimed}
use ha_artnet_led.Universe.Clock.{Clocked, IsSpaced, due_of}

abbrev IsUpTo : ℕ → List ℕ → Type 0
IsUpTo time [] = Unit
IsUpTo time (t ∷ ts) = t ≤ time

record IsPaced (interval : ℕ) (c : Clocked) : Type 0 where
  hass : c.universe.has_hass ≡ true
  kept : c.universe.frame_interval ≡ interval
  past : c.universe.last_send_time ≤ c.clock
  timer : c.due ≡ due_of c.universe
  spaced : IsSpaced interval c.sent
  noted : IsUpTo c.universe.last_send_time c.sent
