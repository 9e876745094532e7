-- ===== src/Universe/Throttle.antt =====
-- The throttling of sends by `_schedule_send`, of custom_components/dmx/io/dmx_io.py.
use ha_artnet_led.Base.{
  ℕ, ◌+◌, ◌-◌, ◌≤◌, ◌<◌, ◌≡◌, ◌⊎◌, inl, inr, refl, true, false, [], ◌∷◌, none, if◌then◌else◌, leb,
  arith, Bool-cases,
}
use ha_artnet_led.Universe.State.{Universe, cancel_timer, call_later}
use ha_artnet_led.Universe.Send.{send_universe_data, do_send, schedule_send}

pub do_send_state :
    (now : ℕ) (u : Universe)
    → ((do_send now u).after.send_timer ≡ false)
      × ((do_send now u).after.last_send_time ≡ now)
      × ((do_send now u).after.frame_interval ≡ u.frame_interval)
unfolding do_send send_universe_data
do_send_state now u = (ground arith, ground arith, ground arith)

do_send_again :
    (now : ℕ) (u : Universe) → do_send now (record u { send_timer = false }) ≡ do_send now u
unfolding do_send
do_send_again now u = refl

-- `_schedule_send` at a time either sends at once, and then no timer is left and the time is noted,
-- or leaves exactly one timer, which is due when the frame interval since the last send is over.
pub schedule_send_or_wait :
    (now : ℕ) (u : Universe)
    → u.has_hass ≡ true
    → u.last_send_time ≤ now
    → ((u.last_send_time + u.frame_interval ≤ now)
        × ((schedule_send now u).after.send_timer ≡ false)
        × ((schedule_send now u).after.last_send_time ≡ now)
        × ((schedule_send now u).events ≡ (
            if u.send_timer
            then cancel_timer ∷ (do_send now u).events
            else (do_send now u).events)))
      ⊎ ((now < u.last_send_time + u.frame_interval)
          × ((schedule_send now u).after ≡ record u { send_timer = true })
          × ((schedule_send now u).raised ≡ none)
          × ((schedule_send now u).events ≡ (
              if u.send_timer
              then []
              else call_later (u.frame_interval + u.last_send_time - now) ∷ [])))
unfolding schedule_send
schedule_send_or_wait now u hass mono =
    let w : Universe = record u { send_timer = false } in
    let quiet : (do_send now w) ≡ do_send now u = do_send_again now u in
    let st = do_send_state now u in
    elim (Bool-cases (leb u.frame_interval (now - u.last_send_time))) [
      | inl y ↦ inl (
        ground arith,
        ground (arith, quiet, st),
        ground (arith, quiet, st),
        ground (arith, quiet),
      )
      | inr n ↦ inr (ground arith, ground arith, ground arith, ground arith)
    ]

pub schedule_send_kept :
    (now : ℕ) (u : Universe)
    → ((schedule_send now u).after.frame_interval ≡ u.frame_interval)
      × ((schedule_send now u).after.has_hass ≡ u.has_hass)
unfolding schedule_send do_send send_universe_data
schedule_send_kept now u = (ground arith, ground arith)
