-- ===== src/Universe/Quiet.antt =====
-- Calls that set no timer, and what two of them in turn leave, for `DmxUniverse` of custom_components/dmx/io/dmx_io.py.
use ha_artnet_led.Base.{
  ℕ, zero, suc, ◌+◌, ◌≡◌, refl, ◌∙◌, Bool, true, false, List, [], ◌∷◌, ◌++◌, Option, some, none,
  if◌then◌else◌, Option-cases, inl, inr, subst, sym, arith,
}
use ha_artnet_led.Base.Result.{Exc}
use ha_artnet_led.Base.Bytes.{Bytes}
use ha_artnet_led.Base.Dict.{nat_eq}
use ha_artnet_led.Universe.State.{
  Universe, Event, call_callback, controller_send, sacn_send, sacn_add, sacn_terminate,
  cancel_timer, call_later, fire,
}
use ha_artnet_led.Universe.Send.{Done, then_run, each, sacn_of, send_events}

-- When the pending timer of the event loop is due after calls at a time, if one is pending.
abbrev pub due_after : ℕ → List Event → Option ℕ → Option ℕ
due_after now [] due = due
due_after now (cancel_timer ∷ es) due = due_after now es none
due_after now (call_later delay ∷ es) due = due_after now es (some (now + delay))
due_after now (call_callback cb ∷ es) due = due_after now es due
due_after now (controller_send a b ∷ es) due = due_after now es due
due_after now (sacn_send n b ∷ es) due = due_after now es due
due_after now (sacn_add n ∷ es) due = due_after now es due
due_after now (sacn_terminate n ∷ es) due = due_after now es due

pub due_after-append :
    (now : ℕ) (es fs : List Event) (due : Option ℕ)
    → due_after now (es ++ fs) due ≡ due_after now fs (due_after now es due)
due_after-append now [] fs due = refl
due_after-append now (cancel_timer ∷ es) fs due = due_after-append now es fs none
due_after-append now (call_later delay ∷ es) fs due =
    due_after-append now es fs (some (now + delay))
due_after-append now (call_callback cb ∷ es) fs due = due_after-append now es fs due
due_after-append now (controller_send a b ∷ es) fs due = due_after-append now es fs due
due_after-append now (sacn_send n b ∷ es) fs due = due_after-append now es fs due
due_after-append now (sacn_add n ∷ es) fs due = due_after-append now es fs due
due_after-append now (sacn_terminate n ∷ es) fs due = due_after-append now es fs due

abbrev pub IsQuiet : List Event → Type 0
IsQuiet es = (now : ℕ) (due : Option ℕ) → due_after now es due ≡ due

pub fire-IsQuiet : (cbs : List ℕ) → IsQuiet (fire cbs)
fire-IsQuiet [] now due = refl
fire-IsQuiet (cb ∷ cbs) now due = fire-IsQuiet cbs now due

pub if-IsQuiet : (c : Bool) (es : List Event) → IsQuiet es → IsQuiet (if c then es else [])
if-IsQuiet true es h now due = h now due
if-IsQuiet false es h now due = refl

sends-IsQuiet :
    (c : Bool) (o : Option ℕ) (u : Universe) (bytes sacn_bytes : Bytes)
    → IsQuiet (
        (if c then controller_send u.port_address bytes ∷ [] else [])
        ++ each (sacn_of o) (λ n. sacn_send n sacn_bytes))
sends-IsQuiet true none u b s now due = refl
sends-IsQuiet true (some zero) u b s now due = refl
sends-IsQuiet true (some (suc n)) u b s now due = refl
sends-IsQuiet false none u b s now due = refl
sends-IsQuiet false (some zero) u b s now due = refl
sends-IsQuiet false (some (suc n)) u b s now due = refl

pub send_events-IsQuiet :
    (u : Universe) (bytes sacn_bytes : Bytes) → IsQuiet (send_events u bytes sacn_bytes)
send_events-IsQuiet u b s = sends-IsQuiet u.has_controller u.sacn_universe u b s

-- Two universes with the same timer and times.
pub record SameTimer (u w : Universe) : Type 0 where
  pub interval : w.frame_interval ≡ u.frame_interval
  pub hass : w.has_hass ≡ u.has_hass
  pub timer : w.send_timer ≡ u.send_timer
  pub time : w.last_send_time ≡ u.last_send_time

pub same : {u : Universe} → SameTimer u u
same = record { interval = refl; hass = refl; timer = refl; time = refl }

pub join : {u v w : Universe} → SameTimer u v → SameTimer v w → SameTimer u w
join a b = record {
  interval = b.interval ∙ a.interval;
  hass = b.hass ∙ a.hass;
  timer = b.timer ∙ a.timer;
  time = b.time ∙ a.time;
}

-- A method that leaves the timer and the times alone.
pub record Untimed (u : Universe) (d : Done) : Type 0 where
  pub kept : SameTimer u d.after
  pub quiet : IsQuiet d.events

pub then_run-Untimed :
    (u : Universe) (d : Done) (f : Universe → Done)
    → Untimed u d
    → ((w : Universe) → Untimed w (f w))
    → Untimed u (then_run d f)
then_run-Untimed u d f a b = elim (Option-cases d.raised) [
  | inr (x, raised) ↦ subst (λ r. Untimed u r) (sym (stopped d f x raised)) a
  | inl none_raised ↦
      let w : Universe = d.after in
      let whole : Untimed u (record {
        after = (f w).after;
        events = d.events ++ (f w).events;
        raised = (f w).raised;
      }) =
        record {
          kept = join a.kept (b w).kept;
          quiet = λ now due.
              due_after-append now d.events (f w).events due
              ∙ (b w).quiet now (due_after now d.events due)
              ∙ a.quiet now due;
        } in
      subst (λ r. Untimed u r) (sym (went_on d f none_raised)) whole
]
  where
    stopped : (d : Done) (f : Universe → Done) (x : Exc) → d.raised ≡ some x → then_run d f ≡ d
    stopped d f x h = ground (arith, h)

    went_on :
        (d : Done) (f : Universe → Done)
        → d.raised ≡ none
        → then_run d f ≡ record {
          after = (f d.after).after;
          events = d.events ++ (f d.after).events;
          raised = (f d.after).raised;
        }
    went_on d f h = ground (arith, h)
