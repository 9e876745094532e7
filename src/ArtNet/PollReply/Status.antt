-- ===== src/ArtNet/PollReply/Status.antt =====
-- What arrives of the status bytes of `ArtPollReply`.
use ha_artnet_led.Base.{ℕ, ◌+◌, ◌*◌, ◌≡◌, refl, Bool, true, false, not, ◌&&◌, bit, ltb, arith}
use ha_artnet_led.Base.Result.{ok}
use ha_artnet_led.ArtNet.Flags.RoundTrip.{flag-digit, last-digit, bit_le}
use ha_artnet_led.ArtNet.Codec.{next}
use ha_artnet_led.ArtNet.PollReply.{
  ArtPollReply, IndicatorState, indicator_unknown, locate_identify, mute_mode, normal_mode,
  Authority, authority_unknown, front_panel, programmatic, indicator_value, authority_value,
  status_1, status_2, status_3,
}
use ha_artnet_led.ArtNet.PollReply.Read.{read_status_1, set_status_2, read_status_3}

-- The indicator and the authority that arrive: their values lose the low bit.
abbrev pub arriving_indicator : IndicatorState → IndicatorState
arriving_indicator indicator_unknown = indicator_unknown
arriving_indicator locate_identify = indicator_unknown
arriving_indicator mute_mode = mute_mode
arriving_indicator normal_mode = mute_mode

abbrev pub arriving_authority : Authority → Authority
arriving_authority authority_unknown = authority_unknown
arriving_authority front_panel = authority_unknown
arriving_authority programmatic = programmatic

abbrev pub xor : Bool → Bool → Bool
xor true b = not b
xor false b = b

status_1_parts :
    (i : IndicatorState) (a : Authority) (boot rdm ubea : Bool) (s : ArtPollReply) (k : ℕ)
    → read_status_1
        (indicator_value i * 64
          + authority_value a * 16
          + bit boot * 4
          + bit (ltb (bit rdm) 1)
          + bit ubea)
        s
        k
      ≡ next tt
          (record s {
            indicator_state = arriving_indicator i;
            authority = arriving_authority a;
            boot_process = boot;
            supports_rdm = not rdm && ubea;
            ubea_present = xor (not rdm) ubea;
          })
          k
unfolding read_status_1
status_1_parts i a boot rdm ubea s k = ground arith

status_2_parts :
    (r s : ArtPollReply)
    → set_status_2 (status_2 r) s ≡ record s {
      supports_web_browser_configuration = r.supports_web_browser_configuration;
      dhcp_configured = r.dhcp_configured;
      dhcp_capable = r.dhcp_capable;
      supports_15_bit_port_address = r.supports_15_bit_port_address;
      supports_switching_to_sacn = r.supports_switching_to_sacn;
      squawking = r.squawking;
      supports_switching_of_output_style = r.supports_switching_of_output_style;
      supports_rdm_through_artnet = r.supports_rdm_through_artnet;
    }
unfolding status_2 set_status_2
status_2_parts r s =
    let b0 = bit_le r.supports_web_browser_configuration in
    let b1 = bit_le r.dhcp_configured in
    let b2 = bit_le r.dhcp_capable in
    let b3 = bit_le r.supports_15_bit_port_address in
    let b4 = bit_le r.supports_switching_to_sacn in
    let b5 = bit_le r.squawking in
    let b6 = bit_le r.supports_switching_of_output_style in
    let b7 = bit_le r.supports_rdm_through_artnet in
    rw
      (
        last-digit (status_2 r) r.supports_web_browser_configuration (omega arith),
        flag-digit (status_2 r) 2 r.dhcp_configured (omega arith),
        flag-digit (status_2 r) 4 r.dhcp_capable (omega arith),
        flag-digit (status_2 r) 8 r.supports_15_bit_port_address (omega arith),
        flag-digit (status_2 r) 16 r.supports_switching_to_sacn (omega arith),
        flag-digit (status_2 r) 32 r.squawking (omega arith),
        flag-digit (status_2 r) 64 r.supports_switching_of_output_style (omega arith),
        flag-digit (status_2 r) 128 r.supports_rdm_through_artnet (omega arith),
      )
      refl

status_3_parts :
    (r s : ArtPollReply) (n k : ℕ)
    → status_3 r ≡ ok n
    → read_status_3 n s k
      ≡ next tt
          (record s {
            failsafe_state = r.failsafe_state;
            supports_failover = r.supports_failover;
            supports_llrp = r.supports_llrp;
            supports_switching_port_direction = false;
          })
          k
unfolding status_3 read_status_3
status_3_parts r s n k h = ground arith

-- Of the status bytes of a reply that are read into another object, the second arrives whole. In the
-- first, the indicator and the authority lose the low bit of their values, RDM arrives as supported
-- only where it is not and the UBEA is present, and the UBEA arrives as present only where RDM and
-- the UBEA are both reported or both not. In the third, for a known failsafe state, all arrives but
-- the switching of port directions, which always arrives as not supported.
pub status_bytes_arrive :
    (r s : ArtPollReply) (n k : ℕ)
    → status_3 r ≡ ok n
    → (read_status_1 (status_1 r) s k
        ≡ next tt
            (record s {
              indicator_state = arriving_indicator r.indicator_state;
              authority = arriving_authority r.authority;
              boot_process = r.boot_process;
              supports_rdm = not r.supports_rdm && r.ubea_present;
              ubea_present = xor (not r.supports_rdm) r.ubea_present;
            })
            k)
      × (set_status_2 (status_2 r) s ≡ record s {
        supports_web_browser_configuration = r.supports_web_browser_configuration;
        dhcp_configured = r.dhcp_configured;
        dhcp_capable = r.dhcp_capable;
        supports_15_bit_port_address = r.supports_15_bit_port_address;
        supports_switching_to_sacn = r.supports_switching_to_sacn;
        squawking = r.squawking;
        supports_switching_of_output_style = r.supports_switching_of_output_style;
        supports_rdm_through_artnet = r.supports_rdm_through_artnet;
      })
      × (read_status_3 n s k
          ≡ next tt
              (record s {
                failsafe_state = r.failsafe_state;
                supports_failover = r.supports_failover;
                supports_llrp = r.supports_llrp;
                supports_switching_port_direction = false;
              })
              k)
unfolding status_1
status_bytes_arrive r s n k h = (
  status_1_parts r.indicator_state r.authority r.boot_process r.supports_rdm r.ubea_present s k,
  status_2_parts r s,
  status_3_parts r s n k h,
)
