-- ===== src/Universe/Untimed.antt =====
-- The methods of `DmxUniverse` that leave its timer alone, of custom_components/dmx/io/dmx_io.py.
use ha_artnet_led.Base.{
  ℕ, ◌≡◌, refl, Bool, true, false, List, [], ◌∷◌, ◌++◌, some, if◌then◌else◌, inl, inr, replicate,
  subst, sym, arith, not, ◌&&◌,
}
use ha_artnet_led.Base.Result.{Result-cases}
use ha_artnet_led.Base.Dict.{Dict, nat_eq, insert}
use ha_artnet_led.Universe.State.{
  Universe, sacn_add, sacn_terminate, set_constant_value, register_channel_listener, registered,
  elem, is_locked, differs, write_channels, collect_callbacks, fire,
}
use ha_artnet_led.Universe.Send.{
  Done, done, then_run, sacn_of, sacn_frame, frame_length, write_frame, send_events, send_values,
  send_universe_data, restore_constants, update_value, apply_updates, set_output_enabled,
}
use ha_artnet_led.Universe.Quiet.{
  fire-IsQuiet, if-IsQuiet, send_events-IsQuiet, SameTimer, same, join, Untimed, then_run-Untimed,
}

-- A send of a universe with the values in `d`.
send_values-Untimed :
    (u : Universe) (d : Dict ℕ ℕ) → u.channel_values ≡ d → Untimed u (send_values u)
send_values-Untimed u [] e =
    let sent : send_values u ≡ done u (send_events u (replicate 2 0) (0 ∷ replicate 24 0)) =
      ground (arith, e) in
    subst (λ r. Untimed u r) (sym sent)
      (record { kept = same; quiet = send_events-IsQuiet u (replicate 2 0) (0 ∷ replicate 24 0) })
send_values-Untimed u (x ∷ d) e =
    elim (Result-cases
      (write_frame (x ∷ d) (replicate (frame_length u.use_partial_universe (x ∷ d)) 0))) [
        | inl (bytes, w) ↦
            let sent : send_values u ≡ done u (send_events u bytes (sacn_frame bytes)) =
              ground (arith, e, w) in
            subst (λ r. Untimed u r) (sym sent)
              (record { kept = same; quiet = send_events-IsQuiet u bytes (sacn_frame bytes) })
        | inr (x', w) ↦
            let sent : send_values u ≡ record { after = u; events = []; raised = some x' } =
              ground (arith, e, w) in
            subst (λ r. Untimed u r) (sym sent) (record { kept = same; quiet = λ now due. refl })
      ]

if-Untimed :
    (u : Universe) (c : Bool) (a b : Done)
    → Untimed u a
    → Untimed u b
    → Untimed u (if c then a else b)
if-Untimed u true a b h k = h
if-Untimed u false a b h k = k

pub send_universe_data-Untimed : (u : Universe) → Untimed u (send_universe_data u)
unfolding send_universe_data
send_universe_data-Untimed u =
    let w : Universe = record u {
      channel_values = restore_constants u.constant_values u.channel_values;
    } in
    let sent : Untimed w (send_values w) = send_values-Untimed w w.channel_values refl in
    if-Untimed u u.output_enabled _ _
      (record {
        kept = record {
          interval = sent.kept.interval;
          hass = sent.kept.hass;
          timer = sent.kept.timer;
          time = sent.kept.time;
        };
        quiet = sent.quiet;
      })
      (record { kept = same; quiet = λ now due. refl })

if-SameTimer :
    (c : Bool) (u w : Universe) (f : Universe → Universe)
    → SameTimer u (f w)
    → SameTimer u (f u)
    → SameTimer u (f (if c then w else u))
if-SameTimer true u w f h k = h
if-SameTimer false u w f h k = k

write_channels-SameTimer :
    (chs : List ℕ) (value : ℕ) (sourced : Bool) (u : Universe)
    → SameTimer u (write_channels chs value sourced u).1
unfolding write_channels
write_channels-SameTimer [] value sourced u = same
write_channels-SameTimer (ch ∷ chs) value sourced u =
    let w : Universe = record u { channel_values = insert ch value u.channel_values } in
    let r : SameTimer w (write_channels chs value sourced w).1 =
      write_channels-SameTimer chs value sourced w in
    if-SameTimer (not (is_locked ch sourced u) && differs ch value u) u w
      (λ v. (write_channels chs value sourced v).1)
      (record { interval = r.interval; hass = r.hass; timer = r.timer; time = r.time })
      (write_channels-SameTimer chs value sourced u)

pub update_value-Untimed :
    (chs : List ℕ) (value : ℕ) (immediately sourced fires : Bool) (u : Universe)
    → Untimed u (update_value chs value immediately sourced fires u).1
unfolding update_value
update_value-Untimed chs value immediately sourced fires u =
    let r : List ℕ × Universe = write_channels chs value sourced u in
    let cbs : List ℕ = collect_callbacks r.0 r.1 [] in
    let fired : Untimed u (done r.1 (if fires then fire cbs else [])) = record {
      kept = write_channels-SameTimer chs value sourced u;
      quiet = if-IsQuiet fires (fire cbs) (fire-IsQuiet cbs);
    } in
    if-Untimed u immediately _ _
      (then_run-Untimed u (done r.1 (if fires then fire cbs else [])) send_universe_data fired
        send_universe_data-Untimed)
      fired

pub apply_updates-SameTimer :
    (d : Dict ℕ ℕ) (sourced : Bool) (u : Universe) (acc : List ℕ)
    → SameTimer u (apply_updates d sourced u acc).1
unfolding apply_updates
apply_updates-SameTimer [] sourced u acc = same
apply_updates-SameTimer ((ch, v) ∷ d) sourced u acc =
    let r = update_value-Untimed (ch ∷ []) v false sourced false u in
    join r.kept (apply_updates-SameTimer d sourced _ _)

pub set_output_enabled-Untimed :
    (enabled : Bool) (u : Universe) → Untimed u (set_output_enabled enabled u)
unfolding set_output_enabled
set_output_enabled-Untimed enabled u = switched (sacn_of u.sacn_universe) enabled u
  where
    quiet_kept : (b : Bool) (u : Universe) → SameTimer u (record u { output_enabled = b })
    quiet_kept b u = record { interval = refl; hass = refl; timer = refl; time = refl }

    switched :
        (ids : List ℕ) (enabled : Bool) (u : Universe)
        → Untimed u (elim ids [
          | [] ↦ done (record u { output_enabled = enabled }) []
          | n ∷ _ ↦
              if enabled
              then then_run
                  (done (record u { output_enabled = enabled }) (sacn_add n ∷ []))
                  send_universe_data
              else done (record u { output_enabled = enabled }) (sacn_terminate n ∷ [])
        ])
    switched [] b u = record { kept = quiet_kept b u; quiet = λ now due. refl }
    switched (n ∷ ids) true u =
        then_run-Untimed u (done (record u { output_enabled = true }) (sacn_add n ∷ []))
          send_universe_data (record { kept = quiet_kept true u; quiet = λ now due. refl })
          send_universe_data-Untimed
    switched (n ∷ ids) false u = record { kept = quiet_kept false u; quiet = λ now due. refl }

pub set_constant_value-SameTimer :
    (chs : List ℕ) (value : ℕ) (u : Universe) → SameTimer u (set_constant_value chs value u)
unfolding set_constant_value
set_constant_value-SameTimer [] value u = same
set_constant_value-SameTimer (ch ∷ chs) value u =
    let r = set_constant_value-SameTimer chs value (record u {
      constant_values = insert ch value u.constant_values;
      channel_values = insert ch value u.channel_values;
    }) in
    record { interval = r.interval; hass = r.hass; timer = r.timer; time = r.time }

pub register_channel_listener-SameTimer :
    (chs : List ℕ) (cb : ℕ) (u : Universe) → SameTimer u (register_channel_listener chs cb u)
unfolding register_channel_listener
register_channel_listener-SameTimer [] cb u = same
register_channel_listener-SameTimer (ch ∷ chs) cb u =
    let cbs : List ℕ = registered ch u.channel_callbacks in
    let cbs' : List ℕ = if elem cb cbs then cbs else cbs ++ (cb ∷ []) in
    let r =
      register_channel_listener-SameTimer chs cb
        (record u { channel_callbacks = insert ch cbs' u.channel_callbacks }) in
    record { interval = r.interval; hass = r.hass; timer = r.timer; time = r.time }
