-- ===== src/Ptp/Stamp.antt =====
-- The time that a message carries.
use wireless_tsn_configurato.Base.{ℕ, ◌+◌, ◌*◌, ◌/◌, ◌%◌, ◌^◌, ◌<◌, ◌≡◌, refl, arith, length}
use wireless_tsn_configurato.Ptp.{
  big_endian, hdr_time_bytes, hdr_time_ns, delay_req, ptp_type, ptp_version, ptp_domain, Packet,
}

four_digits :
    (n : ℕ)
    → n < 2 ^ 32
    → (((0 * 2 ^ 8 + n / 2 ^ 24 % 256) * 2 ^ 8 + n / 2 ^ 16 % 256) * 2 ^ 8 + n / 2 ^ 8 % 256)
          * 2 ^ 8
        + n % 256
      ≡ n
four_digits n h = omega arith

six_digits :
    (n : ℕ)
    → n < 2 ^ 48
    → (((((0 * 2 ^ 8 + n / 2 ^ 40 % 256) * 2 ^ 8 + n / 2 ^ 32 % 256) * 2 ^ 8 + n / 2 ^ 24 % 256)
                  * 2 ^ 8
                + n / 2 ^ 16 % 256)
              * 2 ^ 8
            + n / 2 ^ 8 % 256)
          * 2 ^ 8
        + n % 256
      ≡ n
six_digits n h = omega arith

-- The question for the delay has 44 bytes, its type, version and domain where they are looked for,
-- and the time of 64 bits that is written into it is the time that is read from it.
pub hdr_time_ns-delay_req :
    (domain ns : ℕ)
    → ns < 2 ^ 64
    → let p : Packet = record { buf = delay_req domain ns; len = 44 } in
      (length p.buf ≡ p.len)
      × (ptp_type p ≡ 0x1)
      × (ptp_version p ≡ 2)
      × (ptp_domain p ≡ domain)
      × (hdr_time_ns p ≡ ns)
unfolding delay_req hdr_time_bytes hdr_time_ns big_endian
hdr_time_ns-delay_req domain ns h = (
  refl,
  refl,
  refl,
  refl,
  rw (six_digits (ns / 1000000000) (omega arith), four_digits (ns % 1000000000) (omega arith))
      (omega arith),
)
