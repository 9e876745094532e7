-- ===== src/Universe/Clock.antt =====
-- A universe on the event loop over time, of custom_components/dmx/io/dmx_io.py.
--
-- The event loop keeps the time at which the pending timer is due, from the delays passed to
-- call_later, and runs _do_send then or later, never before. It and the universe read one clock.
use ha_artnet_led.Base.{
  ℕ, ◌+◌, ◌≤◌, ◌≡◌, Bool, true, false, List, [], ◌∷◌, Option, some, none, ◌&&◌, if◌then◌else◌,
}
use ha_artnet_led.Base.Dict.{Dict}
use ha_artnet_led.Universe.State.{
  Universe, Event, call_callback, controller_send, sacn_send, sacn_add, sacn_terminate,
  cancel_timer, call_later, set_constant_value, register_channel_listener,
}
use ha_artnet_led.Universe.Send.{
  Done, done, do_send, update_value, update_multiple_values, send_universe_data, set_output_enabled,
}
use ha_artnet_led.Universe.Quiet.{due_after}

-- The methods of a universe; `update_multiple_values` alone goes through the throttle.
pub data Operation : Type 0 where
  update : Dict ℕ ℕ → Bool → Bool → Operation
  write : List ℕ → ℕ → Bool → Bool → Bool → Operation
  enable : Bool → Operation
  send_now : Operation
  set_constant : List ℕ → ℕ → Operation
  listen : List ℕ → ℕ → Operation

abbrev pub operate : ℕ → Operation → Universe → Done
operate now (update updates sourced send) u = update_multiple_values updates sourced send now u
operate now (write chs value immediately sourced fires) u =
    (update_value chs value immediately sourced fires u).1
operate now (enable enabled) u = set_output_enabled enabled u
operate now send_now u = send_universe_data u
operate now (set_constant chs value) u = done (set_constant_value chs value u) []
operate now (listen chs cb) u = done (register_channel_listener chs cb u) []

abbrev pub is_throttled : Operation → Bool
is_throttled (update updates sourced send) = true
is_throttled (write chs value immediately sourced fires) = false
is_throttled (enable enabled) = false
is_throttled send_now = false
is_throttled (set_constant chs value) = false
is_throttled (listen chs cb) = false

-- Whether a frame goes to one of the protocols.
abbrev pub has_frame : List Event → Bool
has_frame [] = false
has_frame (controller_send a b ∷ es) = true
has_frame (sacn_send n b ∷ es) = true
has_frame (cancel_timer ∷ es) = has_frame es
has_frame (call_later delay ∷ es) = has_frame es
has_frame (call_callback cb ∷ es) = has_frame es
has_frame (sacn_add n ∷ es) = has_frame es
has_frame (sacn_terminate n ∷ es) = has_frame es

-- A universe on the event loop, with the time of its last step, the time at which its timer is due,
-- and the times of the frames that went through the throttle, the latest first.
pub record Clocked : Type 0 where
  pub universe : Universe
  pub clock : ℕ
  pub due : Option ℕ
  pub sent : List ℕ

abbrev pub after_operation : ℕ → Operation → Clocked → Clocked
after_operation now o c =
    let d = operate now o c.universe in
    record {
      universe = d.after;
      clock = now;
      due = due_after now d.events c.due;
      sent = if is_throttled o && has_frame d.events then now ∷ c.sent else c.sent;
    }

abbrev pub after_timer : ℕ → Clocked → Clocked
after_timer now c =
    let d = do_send now c.universe in
    record {
      universe = d.after;
      clock = now;
      due = due_after now d.events none;
      sent = if has_frame d.events then now ∷ c.sent else c.sent;
    }

-- Calls and the timer in any order, at times that do not go back; the timer only when it is due.
pub data Run : Clocked → Clocked → Type 0 where
  start : (c : Clocked) → Run c c
  then_operate :
      {c w : Clocked} (now : ℕ) (o : Operation)
      → Run c w
      → w.clock ≤ now
      → Run c (after_operation now o w)
  then_fire :
      {c w : Clocked} (now at : ℕ)
      → Run c w
      → w.clock ≤ now
      → w.due ≡ some at
      → at ≤ now
      → Run c (after_timer now w)

-- Times, the latest first, of which each is at least an interval after the one before.
abbrev pub IsSpaced : ℕ → List ℕ → Type 0
IsSpaced interval [] = Unit
IsSpaced interval (t ∷ []) = Unit
IsSpaced interval (t ∷ s ∷ ts) = (s + interval ≤ t) × IsSpaced interval (s ∷ ts)

-- When the timer of a universe is due: an interval after the last send, if it is pending.
abbrev pub due_of : Universe → Option ℕ
due_of u = if u.send_timer then some (u.last_send_time + u.frame_interval) else none

-- A universe on an event loop before its throttle has sent anything, with no timer pending.
abbrev pub fresh : ℕ → Universe → Clocked
fresh now u = record { universe = u; clock = now; due = none; sent = [] }
