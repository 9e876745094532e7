-- ===== src/Sacn/Packet/Fails.antt =====
-- How `deserialize` fails on any input.
use ha_artnet_led.Base.{◌≤◌, ◌≡◌, refl, length, arith, Bool, true, false, not, ltb, ◌==◌}
use ha_artnet_led.Base.Result.{Result, ok, err, Exc, ◌>>=◌, ◌>>◌, raise_if}
use ha_artnet_led.Base.Bytes.{Bytes, slice}
use ha_artnet_led.Base.Text.{utf8_decode}
use ha_artnet_led.Base.Text.Errors.{utf8_decode_error}
use ha_artnet_led.Sacn.Packet.{
  SacnPacket, deserialize, post_init, bytes_eq, acn_packet_identifier, root_vector, framing_vector,
  dmp_vector,
}
use ha_artnet_led.Sacn.Packet.Accepts.{
  post_init_error, unpack_b-slice, unpack_h-slice, unpack_i-slice,
}

-- A check of `deserialize`, the decoder of the source name, or an assertion of the constructor.
pub data Expected : Exc → Type 0 where
  value : Expected Exc.value_error
  unicode : Expected Exc.unicode_error
  assertion : Expected Exc.assertion_error

record Fails {A : Type 0} (m : Result A) : Type 0 where
  apply : (x : Exc) → m ≡ err x → Expected x

bind :
    {A B : Type 0} {m : Result A} {f : A → Result B}
    → Fails m
    → ((a : A) → m ≡ ok a → Fails (f a))
    → Fails (m >>= f)
bind {m = ok a} hm hf = hf a refl
bind {B = B} {m = err y} hm hf = record {
  apply = λ x e. let e' : y ≡ x = cc in rw (← e') (hm.apply y refl);
}

guarded :
    {A : Type 0} (c : Bool) {k : Result A}
    → (c ≡ false → Fails k)
    → Fails (raise_if c Exc.value_error >> k)
guarded true hk = record {
  apply = λ x e. let e' : Exc.value_error ≡ x = cc in rw (← e') Expected.value;
}
guarded false hk = hk refl

never : {A : Type 0} {m : Result A} → (v : A) × (m ≡ ok v) → Fails m
never (v, e) = record { apply = λ x h. cc }

decodes : (b : Bytes) → Fails (utf8_decode b)
decodes b = record { apply = λ x h. rw (utf8_decode_error b x h) Expected.unicode }

constructs : (q : SacnPacket) → Fails (post_init q)
constructs q = record { apply = λ x h. rw (post_init_error q x h) Expected.assertion }

deserialize-Fails : (b : Bytes) → Fails (deserialize b)
unfolding deserialize
deserialize-Fails b = guarded (ltb (length b) 126) λ long.
    let enough : 126 ≤ length b = ground arith in
    bind (never (unpack_h-slice 0 b (omega arith))) λ _ _.
      bind (never (unpack_h-slice 2 b (omega arith))) λ _ _.
        guarded (not (bytes_eq (slice 4 12 b) acn_packet_identifier)) λ _.
          bind (never (unpack_h-slice 16 b (omega arith))) λ _ _.
            bind (never (unpack_i-slice 18 b (omega arith))) λ root _.
              guarded (not (root == root_vector)) λ _.
                bind (never (unpack_h-slice 38 b (omega arith))) λ _ _.
                  bind (never (unpack_i-slice 40 b (omega arith))) λ framing _.
                    guarded (not (framing == framing_vector)) λ _. bind (decodes _) λ _ _.
                      bind (never (unpack_b-slice 108 b (omega arith))) λ _ _.
                        bind (never (unpack_h-slice 109 b (omega arith))) λ _ _.
                          bind (never (unpack_b-slice 111 b (omega arith))) λ _ _.
                            bind (never (unpack_b-slice 112 b (omega arith))) λ _ _.
                              bind (never (unpack_h-slice 113 b (omega arith))) λ _ _.
                                bind (never (unpack_h-slice 115 b (omega arith))) λ _ _.
                                  bind (never (unpack_b-slice 117 b (omega arith))) λ dmp _.
                                    guarded (not (dmp == dmp_vector)) λ _.
                                      bind (never (unpack_b-slice 118 b (omega arith))) λ _ _.
                                        bind (never (unpack_h-slice 119 b (omega arith))) λ _ _.
                                          bind (never (unpack_h-slice 121 b (omega arith))) λ _ _.
                                            bind (never (unpack_h-slice 123 b (omega arith)))
                                              λ _ _. constructs _

-- On any input `deserialize` raises, if it raises, a ValueError of its own checks, a decoding error
-- of the source name, or an AssertionError: once the length guard has passed, no field is too short
-- for its format.
pub deserialize_errors : (b : Bytes) (x : Exc) → deserialize b ≡ err x → Expected x
deserialize_errors b x h = (deserialize-Fails b).apply x h
