-- ===== src/Sacn/Packet/Channels.antt =====
-- `set_dmx_channel`: one channel is written, and the data grow with zeros where they were shorter.
use ha_artnet_led.Base.{
  ℕ, zero, suc, ◌+◌, ◌-◌, ◌≤◌, ◌≡◌, ◌≢◌, refl, ap, ◌∙◌, sym, [], ◌∷◌, ◌++◌, length, arith, max,
  some, get_elem?, get_or, set, replicate, length-append, length-replicate, length-set,
  get_elem?-set_self, le→leb,
}
use ha_artnet_led.Base.Result.{ok}
use ha_artnet_led.Base.Bytes.{Bytes}
use ha_artnet_led.Sacn.Packet.{SacnPacket, set_dmx_channel}

get_or-replicate : (n j : ℕ) → get_or {A = ℕ} (replicate n 0) j 0 ≡ 0
get_or-replicate zero j = refl
get_or-replicate (suc n) zero = refl
get_or-replicate (suc n) (suc j) = get_or-replicate n j

get_or-append_zeros : (d : Bytes) (n j : ℕ) → get_or (d ++ replicate n 0) j 0 ≡ get_or d j 0
get_or-append_zeros [] n j = get_or-replicate n j
get_or-append_zeros (x ∷ d) n zero = refl
get_or-append_zeros (x ∷ d) n (suc j) = get_or-append_zeros d n j

get_or-set_ne : (d : Bytes) (i j v : ℕ) → i ≢ j → get_or (set d i v) j 0 ≡ get_or d j 0
get_or-set_ne [] i j v h = refl
get_or-set_ne (x ∷ d) zero zero v h = absurd (h refl)
get_or-set_ne (x ∷ d) zero (suc j) v h = refl
get_or-set_ne (x ∷ d) (suc i) zero v h = refl
get_or-set_ne (x ∷ d) (suc i) (suc j) v h = get_or-set_ne d i j v (λ e. h (ap suc e))

-- For a channel from 1 to 512 and a value up to 255 the call succeeds; the channel then has the
-- value, every other byte reads as before (0 where there was none), and the data are as long as
-- before or just long enough for the channel.
pub set_dmx_channel_writes :
    (p : SacnPacket) (channel value : ℕ)
    → 1 ≤ channel
    → channel ≤ 512
    → value ≤ 255
    → (q : SacnPacket) × (set_dmx_channel p channel value ≡ ok q)
      × (get_elem? q.dmx_data channel ≡ some value)
      × (length q.dmx_data ≡ max (length p.dmx_data) (channel + 1))
      × ((j : ℕ) → j ≢ channel → get_or q.dmx_data j 0 ≡ get_or p.dmx_data j 0)
unfolding set_dmx_channel
set_dmx_channel_writes p channel value lo hi small =
    let pad = channel + 1 - length p.dmx_data in
    let grown = p.dmx_data ++ replicate pad 0 in
    let long : length grown ≡ max (length p.dmx_data) (channel + 1) =
      omega
        (arith, length-append p.dmx_data (replicate pad 0), length-replicate {0} {A = ℕ} pad 0) in
    (
      record p { dmx_data = set grown channel value },
      rw (le→leb 1 channel lo, le→leb channel 512 hi, le→leb value 255 small),
      get_elem?-set_self grown channel value (omega arith),
      length-set grown channel value ∙ long,
      λ j ne.
          get_or-set_ne grown channel j value (λ e. ne (sym e))
          ∙ get_or-append_zeros p.dmx_data pad j,
    )
