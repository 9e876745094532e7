-- ===== src/Sacn/Packet/Accepts.antt =====
-- `deserialize` on any input: what it accepts, and how it fails.
use ha_artnet_led.Base.{
  ℕ, ◌+◌, ◌*◌, ◌≤◌, ◌≡◌, refl, ap, ◌∙◌, [], ◌∷◌, length, arith, Bool, true, not, ltb, ◌==◌, drop,
  length-take, length-drop, length-replicate,
}
use ha_artnet_led.Base.Result.{Result, ok, err, Exc, ◌>>=◌, raise_if}
use ha_artnet_led.Base.Bytes.{Bytes, slice, unpack_b, unpack_h, unpack_i, rstrip_nul}
use ha_artnet_led.Base.Text.{utf8_decode}
use ha_artnet_led.Sacn.Packet.{
  SacnPacket, deserialize, post_init, bytes_eq, acn_packet_identifier, root_vector, framing_vector,
  dmp_vector,
}

-- What the constructor guarantees of the packet that it returns.
pub record IsConstructed (p : SacnPacket) : Type 0 where
  pub name_some : 1 ≤ length p.source_name
  pub name_short : length p.source_name ≤ 63
  pub priority_low : p.priority ≤ 200
  pub universe_pos : 1 ≤ p.universe
  pub universe_low : p.universe ≤ 63999
  pub sequence_low : p.sequence_number ≤ 255
  pub cid_length : length p.cid ≡ 16
  pub data_some : 1 ≤ length p.dmx_data
  pub data_short : length p.dmx_data ≤ 513

pub post_init-IsConstructed : (q p : SacnPacket) → post_init q ≡ ok p → IsConstructed p
unfolding post_init
post_init-IsConstructed q p h = ground (arith, length-replicate {0} {A = ℕ} 513 0)

pub post_init_error : (q : SacnPacket) (x : Exc) → post_init q ≡ err x → x ≡ Exc.assertion_error
unfolding post_init
post_init_error q x h = ground arith

-- A field inside the first 125 bytes is never too short for its format.
module _ (i : ℕ) (b : Bytes) where
  length-slice : (n : ℕ) → i + n ≤ length b → length (slice i n b) ≡ n
  unfolding slice
  length-slice n h = omega (arith, length-take n (drop i b), length-drop i b)

  pub unpack_b-slice : i + 1 ≤ length b → (v : ℕ) × (unpack_b (slice i 1 b) ≡ ok v)
  unpack_b-slice h = go (slice i 1 b) (length-slice 1 h)
    where
      go : (s : Bytes) → length s ≡ 1 → (v : ℕ) × (unpack_b s ≡ ok v)
      go [] e = absurd (omega arith)
      go (x ∷ []) e = (x, unfold unpack_b in refl)
      go (x ∷ y ∷ s) e = absurd (omega arith)

  pub unpack_h-slice : i + 2 ≤ length b → (v : ℕ) × (unpack_h (slice i 2 b) ≡ ok v)
  unpack_h-slice h = go (slice i 2 b) (length-slice 2 h)
    where
      go : (s : Bytes) → length s ≡ 2 → (v : ℕ) × (unpack_h s ≡ ok v)
      go [] e = absurd (omega arith)
      go (x ∷ []) e = absurd (omega arith)
      go (x ∷ y ∷ []) e = (x * 256 + y, unfold unpack_h in refl)
      go (x ∷ y ∷ z ∷ s) e = absurd (omega arith)

  pub unpack_i-slice : i + 4 ≤ length b → (v : ℕ) × (unpack_i (slice i 4 b) ≡ ok v)
  unpack_i-slice h = go (slice i 4 b) (length-slice 4 h)
    where
      go : (s : Bytes) → length s ≡ 4 → (v : ℕ) × (unpack_i s ≡ ok v)
      go [] e = absurd (omega arith)
      go (x ∷ []) e = absurd (omega arith)
      go (x ∷ y ∷ []) e = absurd (omega arith)
      go (x ∷ y ∷ z ∷ []) e = absurd (omega arith)
      go (x ∷ y ∷ z ∷ w ∷ []) e = (x * 16777216 + y * 65536 + z * 256 + w, unfold unpack_i in refl)
      go (x ∷ y ∷ z ∷ w ∷ v ∷ s) e = absurd (omega arith)

checked : (a b : ℕ) (u : Unit {0}) → raise_if (not (a == b)) Exc.value_error ≡ ok u → a ≡ b
checked a b u h = ground arith

pub not_short : (n : ℕ) (u : Unit {0}) → raise_if (ltb n 126) Exc.value_error ≡ ok u → 126 ≤ n
not_short n u h = ground arith

not_raised : (c : Bool) (u : Unit {0}) → raise_if (not c) Exc.value_error ≡ ok u → c ≡ true
not_raised c u h = ground arith

-- The parts of a bind that returned.
inverse :
    {A B C : Type 0} (m : Result A) {f : A → Result B} {b : B}
    → (m >>= f) ≡ ok b
    → ((a : A) → m ≡ ok a → f a ≡ ok b → C)
    → C
inverse (ok a) h k = k a refl h
inverse (err e) h k = absurd (cc)

-- A datagram that `deserialize` accepts has at least 126 bytes, the packet identifier and the three
-- vectors in their places, and gives a packet within the bounds that the constructor asserts.
pub deserialize_sound :
    (b : Bytes) (p : SacnPacket)
    → deserialize b ≡ ok p
    → (126 ≤ length b)
      × (bytes_eq (slice 4 12 b) acn_packet_identifier ≡ true)
      × (unpack_i (slice 18 4 b) ≡ ok root_vector)
      × (unpack_i (slice 40 4 b) ≡ ok framing_vector)
      × (unpack_b (slice 117 1 b) ≡ ok dmp_vector)
      × IsConstructed p
unfolding deserialize
deserialize_sound b p h = inverse (raise_if (ltb (length b) 126) Exc.value_error) h λ v1 e_long h1.
    inverse (unpack_h (slice 0 2 b)) h1 λ _ _ h2. inverse (unpack_h (slice 2 2 b)) h2 λ _ _ h3.
      inverse (raise_if (not (bytes_eq (slice 4 12 b) acn_packet_identifier)) Exc.value_error) h3
        λ v4 e_ident h4. inverse (unpack_h (slice 16 2 b)) h4 λ _ _ h5.
          inverse (unpack_i (slice 18 4 b)) h5 λ root e_root h6.
            inverse (raise_if (not (root == root_vector)) Exc.value_error) h6 λ v7 e_is_root h7.
              inverse (unpack_h (slice 38 2 b)) h7 λ _ _ h8.
                inverse (unpack_i (slice 40 4 b)) h8 λ framing e_framing h9.
                  inverse (raise_if (not (framing == framing_vector)) Exc.value_error) h9
                    λ v10 e_is_framing h10.
                      inverse (utf8_decode (rstrip_nul (slice 44 64 b))) h10 λ _ _ h11.
                        inverse (unpack_b (slice 108 1 b)) h11 λ _ _ h12.
                          inverse (unpack_h (slice 109 2 b)) h12 λ _ _ h13.
                            inverse (unpack_b (slice 111 1 b)) h13 λ _ _ h14.
                              inverse (unpack_b (slice 112 1 b)) h14 λ _ _ h15.
                                inverse (unpack_h (slice 113 2 b)) h15 λ _ _ h16.
                                  inverse (unpack_h (slice 115 2 b)) h16 λ _ _ h17.
                                    inverse (unpack_b (slice 117 1 b)) h17 λ dmp e_dmp h18.
                                      inverse (raise_if (not (dmp == dmp_vector)) Exc.value_error)
                                        h18
                                        λ v19 e_is_dmp h19.
                                          inverse (unpack_b (slice 118 1 b)) h19 λ _ _ h20.
                                            inverse (unpack_h (slice 119 2 b)) h20 λ _ _ h21.
                                              inverse (unpack_h (slice 121 2 b)) h21 λ _ _ h22.
                                                inverse (unpack_h (slice 123 2 b)) h22 λ _ _ h23. (
                                                  not_short (length b) _ e_long,
                                                  not_raised _ _ e_ident,
                                                  e_root
                                                      ∙ ap ok
                                                          (checked root root_vector _ e_is_root),
                                                  e_framing
                                                      ∙ ap ok (
                                                          checked framing framing_vector _
                                                            e_is_framing),
                                                  e_dmp ∙ ap ok (checked dmp dmp_vector _ e_is_dmp),
                                                  post_init-IsConstructed _ p h23,
                                                )
