-- ===== src/Universe/Due.antt =====
-- What a send and `_schedule_send` do to the timer of the event loop, of
-- custom_components/dmx/io/dmx_io.py.
use ha_artnet_led.Base.{
  ℕ, ◌+◌, ◌-◌, ◌≤◌, ◌≡◌, refl, ap, ◌∙◌, sym, Bool, true, false, List, [], ◌∷◌, ◌++◌, some, none,
  if◌then◌else◌, ◌⊎◌, inl, inr, arith,
}
use ha_artnet_led.Universe.State.{Universe, Event, cancel_timer, call_later, fire}
use ha_artnet_led.Universe.Send.{do_send, schedule_send}
use ha_artnet_led.Universe.Throttle.{schedule_send_or_wait}
use ha_artnet_led.Universe.Quiet.{due_after, IsQuiet}
use ha_artnet_led.Universe.Untimed.{send_universe_data-Untimed}
use ha_artnet_led.Universe.Clock.{has_frame, due_of}

pub do_send-kept :
    (now : ℕ) (u : Universe)
    → ((do_send now u).after.has_hass ≡ u.has_hass)
      × ((do_send now u).after.frame_interval ≡ u.frame_interval)
      × ((do_send now u).after.send_timer ≡ false)
      × ((do_send now u).after.last_send_time ≡ now)
      × IsQuiet (do_send now u).events
unfolding do_send
do_send-kept now u =
    let sent = send_universe_data-Untimed (record u { send_timer = false; last_send_time = now }) in
    (sent.kept.hass, sent.kept.interval, sent.kept.timer, sent.kept.time, sent.quiet)

pub has_frame-fire : (cbs : List ℕ) (es : List Event) → has_frame (fire cbs ++ es) ≡ has_frame es
has_frame-fire [] es = refl
has_frame-fire (cb ∷ cbs) es = has_frame-fire cbs es

due_sent :
    (now at : ℕ) (pending : Bool) (es : List Event)
    → IsQuiet es
    → due_after now (if pending then cancel_timer ∷ es else es) (if pending then some at else none)
      ≡ none
due_sent now at true es quiet = quiet now none
due_sent now at false es quiet = quiet now none

due_wait :
    (now wait at : ℕ) (pending : Bool)
    → now + wait ≡ at
    → due_after now
        (if pending then [] else call_later wait ∷ [])
        (if pending then some at else none)
      ≡ some at
due_wait now wait at true h = refl
due_wait now wait at false h = ap some h

wait-quiet :
    (pending : Bool) (wait : ℕ) → has_frame (if pending then [] else call_later wait ∷ []) ≡ false
wait-quiet true wait = refl
wait-quiet false wait = refl

due_off : (u : Universe) → u.send_timer ≡ false → due_of u ≡ none
due_off u h = ap (λ (b : Bool). if b then some (u.last_send_time + u.frame_interval) else none) h

-- `_schedule_send` keeps the due time of the timer, and hands out a frame only an interval after the
-- last send.
pub schedule_send-due :
    (now : ℕ) (u : Universe)
    → u.has_hass ≡ true
    → u.last_send_time ≤ now
    → (due_after now (schedule_send now u).events (due_of u) ≡ due_of (schedule_send now u).after)
      × (((u.last_send_time + u.frame_interval ≤ now)
            × ((schedule_send now u).after.last_send_time ≡ now))
          ⊎ (((schedule_send now u).after.last_send_time ≡ u.last_send_time)
              × (has_frame (schedule_send now u).events ≡ false)))
schedule_send-due now u hass past = elim (schedule_send_or_wait now u hass past) [
  | inl (ready, timer, time, events) ↦
      let (_, _, _, _, quiet) = do_send-kept now u in
      (
        ap (λ es. due_after now es (due_of u)) events
            ∙ due_sent now (u.last_send_time + u.frame_interval) u.send_timer (do_send now u).events
                quiet
            ∙ sym (due_off (schedule_send now u).after timer),
        inl (ready, time),
      )
  | inr (early, after, raised, events) ↦
      let wait : ℕ = u.frame_interval + u.last_send_time - now in
      (
        ap (λ es. due_after now es (due_of u)) events
            ∙ due_wait now wait (u.last_send_time + u.frame_interval) u.send_timer
                (omega (arith, early))
            ∙ sym (ap due_of after),
        inr (ap (λ w. w.last_send_time) after, ap has_frame events ∙ wait-quiet u.send_timer wait),
      )
]
