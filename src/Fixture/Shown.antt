-- ===== src/Fixture/Shown.antt =====
-- Which number entities of a select can be used (custom_components/dmx/entity/select.py).
use ha_artnet_led.Base.{
  ℕ, ◌≡◌, ◌⊎◌, refl, sym, ap, ◌∙◌, subst, Bool, true, false, ◌||◌, List, [], ◌∷◌, Option, some,
  none, ◌==◌, inl, inr, Bool-cases, some-injective, arith, if◌then◌else◌,
}
use ha_artnet_led.Base.Result.{ok, ok-injective}
use ha_artnet_led.Base.Action.{
  Holds, IsJoined, >>=-Holds, current-Holds, value_of-Holds, change, calls,
}
use ha_artnet_led.Base.Dict.{Dict, lookup, lookup-insert}
use ha_artnet_led.Base.Text.{Text}
use ha_artnet_led.Fixture.Channel.{Capability, Channel}
use ha_artnet_led.Fixture.Select.{
  text_eq, DmxSelect, SelectEvent, SelectOperation, values_changed, option_selected, is_entity,
  flagged, set_availability, update_current_option, first_applicable, show_option,
  update_option_to_dmx_value, update_value, write_capability, async_select_option, disable_all,
  make_select, first_named, link_entity, link_channels, link_options, link_switching_entities,
  operate, operate_all,
}

-- An entity of one of the options, and one of the current option.
abbrev pub IsManaged : ℕ → DmxSelect → Type 0
IsManaged e s =
    (name : Text) × ((lookup name s.capability_entities ≡ some e)
      ⊎ (lookup name s.switching_entities ≡ some e))

abbrev pub is_current : ℕ → DmxSelect → Bool
is_current e s =
    is_entity e (lookup s.current_option s.capability_entities)
    || is_entity e (lookup s.current_option s.switching_entities)

-- The entities that can be used are those of the current option.
pub record IsShown (s : DmxSelect) : Type 0 where
  pub shown : (e : ℕ) → IsManaged e s → s.available e ≡ is_current e s

-- While the switched entities are looked up, those of the current option may still be hidden.
record IsHidden (s : DmxSelect) : Type 0 where
  hidden :
      (e : ℕ)
      → IsManaged e s
      → is_entity e (lookup s.current_option s.capability_entities) ≡ false
      → s.available e ≡ false

set_availability-IsShown : (s : DmxSelect) → IsHidden s → IsShown (set_availability true s)
unfolding set_availability
set_availability-IsShown s w = record { shown = λ e m. ground (arith, w.hidden e m) }

update_current_option-IsShown :
    (option : Text) (s : DmxSelect) → IsShown s → IsShown (update_current_option option s)
unfolding update_current_option set_availability
update_current_option-IsShown option s w = record { shown = λ e m. ground (arith, w.shown e m) }

show_option-IsShown :
    (option : Option Text) (s : DmxSelect) → IsShown s → IsShown (show_option option s)
show_option-IsShown none s w = w
show_option-IsShown (some option) s w = update_current_option-IsShown option s w

-- The operations keep it, also where they raise.
abbrev KeepsShown : DmxSelect → DmxSelect → List SelectEvent → Type 0
KeepsShown s t es = IsShown s → IsShown t

keeps_shown : IsJoined KeepsShown
keeps_shown = record { stay = λ s w. w; join = λ s t u es fs h k w. k (h w) }

calls-KeepsShown : (es : List SelectEvent) → Holds KeepsShown (calls es)
unfolding calls
calls-KeepsShown es = record { at = λ s w. w }

change-KeepsShown :
    (f : DmxSelect → DmxSelect)
    → ((s : DmxSelect) → IsShown s → IsShown (f s))
    → Holds KeepsShown (change f)
unfolding change
change-KeepsShown f h = record { at = h }

operate-KeepsShown : (o : SelectOperation) → Holds KeepsShown (operate o)
unfolding update_value update_option_to_dmx_value async_select_option write_capability
operate-KeepsShown (values_changed values) =
    >>=-Holds keeps_shown _ _ (current-Holds keeps_shown) (λ s.
      >>=-Holds keeps_shown _ _ (value_of-Holds keeps_shown _) (λ value.
        change-KeepsShown _
          (λ t. show_option-IsShown (first_applicable value t.capability_types) t)))
operate-KeepsShown (option_selected option) =
    >>=-Holds keeps_shown _ _ (current-Holds keeps_shown) (λ s.
      >>=-Holds keeps_shown _ _ (change-KeepsShown _ (update_current_option-IsShown option)) (λ _.
        >>=-Holds keeps_shown _ _ (calls-KeepsShown _) (λ _.
          >>=-Holds keeps_shown _ _ (value_of-Holds keeps_shown _) (λ c.
            >>=-Holds keeps_shown _ _ (current-Holds keeps_shown) (λ t.
              >>=-Holds keeps_shown _ _ (value_of-Holds keeps_shown _)
                (λ values. calls-KeepsShown _))))))

operate_all-IsShown :
    (os : List SelectOperation) (s : DmxSelect) → IsShown s → IsShown (operate_all os s)
unfolding operate_all
operate_all-IsShown [] s w = w
operate_all-IsShown (o ∷ os) s w =
    operate_all-IsShown os (operate o s).after ((operate-KeepsShown o).at s w)

-- The construction hides every entity of an option.
disable_all-hides :
    (d : Dict Text ℕ) (available : ℕ → Bool) (name : Text) (e : ℕ)
    → (available e ≡ false) ⊎ (lookup name d ≡ some e)
    → disable_all d available e ≡ false
disable_all-hides [] available name e (inl h) = h
disable_all-hides [] available name e (inr h) = absurd (cc)
disable_all-hides ((n, x) ∷ d) available name e (inl h) =
    disable_all-hides d (flagged false (some x) available) name e (inl (ground (arith, h)))
disable_all-hides ((n, x) ∷ d) available name e (inr h) = elim (Bool-cases (text_eq.beq name n)) [
  | inl y ↦
      let first : (if text_eq.beq name n then some x else lookup name d) ≡ some x = rw y refl in
      let same : x ≡ e = some-injective (sym first ∙ h) in
      disable_all-hides d (flagged false (some x) available) name e (inl (ground (arith, same)))
  | inr other ↦
      let later : (if text_eq.beq name n then some x else lookup name d) ≡ lookup name d =
        rw other refl in
      disable_all-hides d (flagged false (some x) available) name e (inr (sym later ∙ h))
]

was-IsManaged :
    (option : Text) (x e : ℕ) (s : DmxSelect)
    → (e == x) ≡ false
    → IsManaged e (link_entity option (some x) s)
    → IsManaged e s
was-IsManaged option x e s different (name, inl there) = (name, inl there)
was-IsManaged option x e s different (name, inr there) =
    let linked : Option ℕ =
      if text_eq.beq name option then some x else lookup name s.switching_entities in
    let found : linked ≡ some e = sym (lookup-insert option name x s.switching_entities) ∙ there in
    elim (Bool-cases (text_eq.beq name option)) [
      | inl y ↦
          let here : linked ≡ some x = rw y refl in
          let same : x ≡ e = some-injective (sym here ∙ found) in
          absurd (ground (arith, different, same))
      | inr other ↦
          let before : linked ≡ lookup name s.switching_entities = rw other refl in
          (name, inr (sym before ∙ found))
    ]

link_entity-IsHidden :
    (option : Text) (found : Option ℕ) (s : DmxSelect)
    → IsHidden s
    → IsHidden (link_entity option found s)
link_entity-IsHidden option none s w = w
link_entity-IsHidden option (some x) s w = record {
  hidden = λ e m not_current. elim (Bool-cases (e == x)) [
    | inl y ↦ rw y refl
    | inr n ↦ rw n (w.hidden e (was-IsManaged option x e s n m) not_current)
  ];
}

link_channels-IsHidden :
    (entities : List (ℕ × Text)) (option : Text) (names : List (Option Text)) (s : DmxSelect)
    → IsHidden s
    → IsHidden (link_channels entities option names s)
unfolding link_channels
link_channels-IsHidden entities option [] s w = w
link_channels-IsHidden entities option (none ∷ names) s w =
    link_channels-IsHidden entities option names s w
link_channels-IsHidden entities option (some name ∷ names) s w =
    link_channels-IsHidden entities option names _
      (link_entity-IsHidden option (first_named name entities) s w)

link_options-IsHidden :
    (entities : List (ℕ × Text)) (types : Dict Text Capability) (s : DmxSelect)
    → IsHidden s
    → IsHidden (link_options entities types s)
unfolding link_options
link_options-IsHidden entities [] s w = w
link_options-IsHidden entities ((option, c) ∷ types) s w =
    link_options-IsHidden entities types _
      (link_channels-IsHidden entities option c.switch_channels s w)

-- Before the linking, where no entity is switched yet.
record IsNew (s : DmxSelect) : Type 0 where
  unlinked : s.switching_entities ≡ []
  hides :
      (e : ℕ) (name : Text)
      → lookup name s.capability_entities ≡ some e
      → is_entity e (lookup s.current_option s.capability_entities) ≡ false
      → s.available e ≡ false

update_current_option-IsNew :
    (option : Option Text) (s : DmxSelect)
    → ((e : ℕ) (name : Text) → lookup name s.capability_entities ≡ some e → s.available e ≡ false)
    → s.switching_entities ≡ []
    → IsNew (show_option option s)
unfolding update_current_option set_availability
update_current_option-IsNew none s h none_linked = record {
  unlinked = none_linked;
  hides = λ e name there not_current. h e name there;
}
update_current_option-IsNew (some option) s h none_linked = record {
  unlinked = none_linked;
  hides = λ e name there not_current. rw none_linked (ground (arith, h e name there, not_current));
}

IsNew-IsHidden : (s : DmxSelect) → IsNew s → IsHidden s
IsNew-IsHidden s w = record {
  hidden = λ e (name, place) not_current. elim place [
    | inl there ↦ w.hides e name there not_current
    | inr there ↦
        absurd (let gone : none ≡ some e = sym (ap (lookup name) w.unlinked) ∙ there in cc)
  ];
}

make_select-IsNew :
    (types : Dict Text Capability) (entities : Dict Text ℕ) (num_bytes : ℕ) (channel : Channel)
    (available : ℕ → Bool) (s : DmxSelect)
    → make_select types entities num_bytes channel available ≡ ok s
    → IsNew s
unfolding make_select update_option_to_dmx_value
make_select-IsNew [] entities num_bytes channel available s e = absurd (cc)
make_select-IsNew ((name, c) ∷ types) entities num_bytes channel available s made =
    subst (λ (x : DmxSelect). IsNew x) (ok-injective made)
      (update_current_option-IsNew (first_applicable channel.default_value ((name, c) ∷ types))
        (record {
          capability_types = (name, c) ∷ types;
          capability_entities = entities;
          switching_entities = [];
          current_option = name;
          num_bytes = num_bytes;
          range_bytes = channel.range_bytes;
          available = disable_all entities available;
        })
        (λ e n there. disable_all-hides entities available n e (inr there)) refl)

-- Once a select is made and linked, and whatever values of its channels are shown and whatever options
-- are chosen after that, known or not: a number entity that belongs to an option, or that an option
-- switches on, is available exactly while that option is the current one.
pub available_as_current :
    (types : Dict Text Capability) (capability_entities : Dict Text ℕ) (num_bytes : ℕ)
    (channel : Channel) (available : ℕ → Bool) (entities : List (ℕ × Text))
    (os : List SelectOperation) (s : DmxSelect) (e : ℕ)
    → make_select types capability_entities num_bytes channel available ≡ ok s
    → IsManaged e (operate_all os (link_switching_entities entities s))
    → (operate_all os (link_switching_entities entities s)).available e
      ≡ is_current e (operate_all os (link_switching_entities entities s))
unfolding link_switching_entities
available_as_current types capability_entities num_bytes channel available entities os s e made m =
    let new = make_select-IsNew types capability_entities num_bytes channel available s made in
    let hidden = link_options-IsHidden entities s.capability_types s (IsNew-IsHidden s new) in
    (operate_all-IsShown os _
        (set_availability-IsShown (link_options entities s.capability_types s) hidden)).shown
      e m
