-- ===== src/Fixture/Options.antt =====
-- A chosen option is the one that is shown for the bytes that the choice writes
-- (custom_components/dmx/entity/select.py).
use ha_artnet_led.Base.{
  ℕ, ◌≡◌, ◌≤◌, ◌<◌, refl, sym, ap, ◌∙◌, Bool, true, false, not, ◌&&◌, ◌||◌, [], ◌∷◌, ◌++◌, some,
  none, inl, inr, leb, Bool-cases, some-injective, arith, if◌then◌else◌,
}
use ha_artnet_led.Base.Result.{ok, >>=-returned}
use ha_artnet_led.Base.Action.{Done, ◌>>=◌, current, change, calls, value_of}
use ha_artnet_led.Base.Bytes.{Bytes}
use ha_artnet_led.Base.Dict.{Dict, lookup}
use ha_artnet_led.Base.Text.{Text}
use ha_artnet_led.Fixture.Channel.{
  Capability, start, center, end, hidden, menu_click_value, is_applicable, clicked, size_of,
  dmx_bytes_to_range_value, range_value_to_dmx_bytes,
}
use ha_artnet_led.Fixture.Range.{range_value-dmx_bytes}
use ha_artnet_led.Fixture.Select.{
  text_eq, DmxSelect, SelectEvent, write, apply_option, first_applicable, set_availability,
  update_current_option, update_option_to_dmx_value, update_value, or_start, written_value,
  write_capability, async_select_option,
}

-- Whether an option of another name applies to the value.
abbrev pub others_apply : Text → ℕ → Dict Text Capability → Bool
others_apply option value [] = false
others_apply option value ((name, c) ∷ types) =
    (not (text_eq.beq option name) && is_applicable value c) || others_apply option value types

-- The value that is written for a capability lies in its range.
written_value-is_applicable :
    (c : Capability)
    → c.dmx_range_start ≤ c.dmx_range_end
    → is_applicable (written_value c) c ≡ true
unfolding is_applicable menu_click_value
written_value-is_applicable c h =
    elim c.menu_click
      as (λ m.
        (leb c.dmx_range_start (
            or_start
              (elim m [ none ↦ none | some k ↦ some (clicked c.dmx_range_start c.dmx_range_end k) ])
              c)
          && leb
              (or_start
                (elim m [
                  | none ↦ none
                  | some k ↦ some (clicked c.dmx_range_start c.dmx_range_end k)
                ])
                c)
              c.dmx_range_end)
        ≡ true) [
          | none ↦ ground arith
          | some start ↦ ground arith
          | some center ↦ ground arith
          | some end ↦ ground arith
          | some hidden ↦ ground arith
        ]

first_applicable-option :
    (option : Text) (value : ℕ) (c : Capability) (types : Dict Text Capability)
    → lookup option types ≡ some c
    → is_applicable value c ≡ true
    → others_apply option value types ≡ false
    → first_applicable value types ≡ some option
unfolding first_applicable
first_applicable-option option value c [] there applies apart = absurd (cc)
first_applicable-option option value c ((name, d) ∷ types) there applies apart =
    elim (Bool-cases (text_eq.beq option name)) [
      | inl y ↦
          let here : (if text_eq.beq option name then some d else lookup option types) ≡ some d =
            rw y refl in
          let same : d ≡ c = some-injective (sym here ∙ there) in
          let named : option ≡ name = (text_eq.beq_iff option name).0 y in
          rw (same, applies) (ap some (sym named))
      | inr other ↦
          let later : (if text_eq.beq option name then some d else lookup option types)
              ≡ lookup option types =
            rw other refl in
          let (skip, rest) =
            split (is_applicable value d) (others_apply option value types) other apart in
          rw skip (first_applicable-option option value c types (sym later ∙ there) applies rest)
    ]
  where
    split :
        (b r : Bool)
        → text_eq.beq option name ≡ false
        → ((not (text_eq.beq option name) && b) || r) ≡ false
        → (b ≡ false) × (r ≡ false)
    split b r other h = ground (arith, other, h)

-- What the choice of a known option does, once its bytes are known.
chosen :
    (s : DmxSelect) (option : Text) (c : Capability) (bs : Bytes)
    → lookup option s.capability_types ≡ some c
    → range_value_to_dmx_bytes (written_value c) s.num_bytes s.range_bytes ≡ ok bs
    → async_select_option option s ≡ record {
      after = update_current_option option s;
      events = apply_option (lookup option s.switching_entities) ++ (write bs ∷ []);
      result = ok tt;
    }
unfolding async_select_option write_capability ◌>>=◌ current change calls value_of
    update_current_option set_availability
chosen s option c bs known bytes = rw (known, bytes) refl

shown :
    (s : DmxSelect) (bs : Bytes) (value : ℕ) (option : Text)
    → dmx_bytes_to_range_value bs s.range_bytes ≡ ok value
    → first_applicable value s.capability_types ≡ some option
    → ((update_value bs s).after.current_option ≡ option) × ((update_value bs s).result ≡ ok tt)
unfolding update_value ◌>>=◌ current change value_of update_option_to_dmx_value
    update_current_option set_availability
shown s bs value option read first = rw (read, first) (refl, refl)

-- A known option is chosen, whose range does not end before it starts, whose written value fits the
-- range of the channel, where the entity has at least the bytes of that range, and no other option
-- applies to the value. Then bytes are written, after the value of a switched entity is applied
-- again, and nothing is raised; and when those bytes come back as the values of the channels, the
-- option is the one that is shown, and nothing is raised either.
pub async_select_option-update_value :
    (s : DmxSelect) (option : Text) (c : Capability)
    → lookup option s.capability_types ≡ some c
    → c.dmx_range_start ≤ c.dmx_range_end
    → written_value c < size_of s.range_bytes
    → s.range_bytes ≤ s.num_bytes
    → others_apply option (written_value c) s.capability_types ≡ false
    → (bs : Bytes) × ((async_select_option option s).events
        ≡ apply_option (lookup option s.switching_entities) ++ (write bs ∷ []))
      × ((async_select_option option s).result ≡ ok tt)
      × ((update_value bs (async_select_option option s).after).after.current_option ≡ option)
      × ((update_value bs (async_select_option option s).after).result ≡ ok tt)
unfolding update_current_option set_availability
async_select_option-update_value s option c known ordered fits enough apart =
    let (bs, bytes, read) =
      >>=-returned (λ bs. dmx_bytes_to_range_value bs s.range_bytes)
        (range_value_to_dmx_bytes (written_value c) s.num_bytes s.range_bytes)
        (range_value-dmx_bytes (written_value c) s.num_bytes s.range_bytes fits enough) in
    let done = chosen s option c bs known bytes in
    let first =
      first_applicable-option option (written_value c) c s.capability_types known
        (written_value-is_applicable c ordered) apart in
    let (same, returned) =
      shown (update_current_option option s) bs (written_value c) option read first in
    (
      bs,
      ap (λ (d : Done DmxSelect SelectEvent (Unit {0})). d.events) done,
      ap (λ (d : Done DmxSelect SelectEvent (Unit {0})). d.result) done,
      ap
            (λ (d : Done DmxSelect SelectEvent (Unit {0})).
              (update_value bs d.after).after.current_option)
            done
          ∙ same,
      ap (λ (d : Done DmxSelect SelectEvent (Unit {0})). (update_value bs d.after).result) done
          ∙ returned,
    )
