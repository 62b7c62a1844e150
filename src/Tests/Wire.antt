-- ===== src/Tests/Wire.antt =====
-- The theorems about frames and about the endpoint that sends and receives them, at concrete inputs.
use wireless_tsn_configurato.Base.{
  ℕ, ◌≡◌, ◌≤◌, ◌<◌, ◌⊎◌, refl, some, none, drop, List, [], ◌∷◌, ◌++◌, ◌-◌, ◌^◌, ◌/◌, ◌%◌, arith,
  length, take, All, replicate, false, true,
}
use wireless_tsn_configurato.Base.Text.{codes}
use wireless_tsn_configurato.Frame.{
  pack, unpack, crc_bit, crc_bits, crc_from, crc16, bytes16, read16, max_payload,
}
use wireless_tsn_configurato.Endpoint.{
  build_tagged_pcp, Net, handle_cfg, receive, int16_arg, until_nul, command, tsn_cfg,
  report_applied,
}
use wireless_tsn_configurato.Decimal.{show_ℤ, show_ℕ}
use wireless_tsn_configurato.Endpoint.Applied.{handle_cfg_again}
use wireless_tsn_configurato.Endpoint.Egress.{be16, word_sum, ip_of, build_tagged_pcp-headers}
use wireless_tsn_configurato.Endpoint.Preempt.{marker, four_digits}
use wireless_tsn_configurato.Frame.Wire.{unpack-pack, pack-unpack}

-- A command that turns the relay on, and one byte behind it.
abbrev relay : List ℕ
relay = 0xA5 ∷ 0 ∷ 3 ∷ 1 ∷ 0 ∷ 1 ∷ 0xF4 ∷ 0x10 ∷ 9 ∷ []

relay_packed : pack 0 3 (1 ∷ []) ≡ some (take 8 relay)
unfolding pack crc_bit crc_bits crc_from crc16 bytes16
relay_packed = refl

relay_bytes : All (λ b. b < 256) relay
relay_bytes = ground arith

-- The value that the catalogue of sums gives for this one.
crc_check : crc16 (codes "123456789") ≡ 0x29B1
unfolding crc_bit crc_bits crc_from crc16
crc_check = refl

relay_unpacked : unpack relay ≡ some (0, 3, 1 ∷ [])
unfolding unpack crc_bit crc_bits crc_from crc16 read16
relay_unpacked = refl

unpack-pack_example :
    ((1 ≤ max_payload)
      × ((frame : List ℕ) × (pack 0 3 (1 ∷ []) ≡ some frame)
          × (length frame ≡ 8)
          × ((rest : List ℕ) → unpack (frame ++ rest) ≡ some (0, 3, 1 ∷ []))))
    ⊎ ((max_payload < 1) × (pack 0 3 (1 ∷ []) ≡ none))
unpack-pack_example = unpack-pack 0 3 (1 ∷ [])

pack-unpack_example : (1 ≤ max_payload) × (pack 0 3 (1 ∷ []) ≡ some (take 8 relay))
pack-unpack_example = pack-unpack relay 0 3 (1 ∷ []) relay_bytes relay_unpacked

-- An endpoint after its start, with both sockets open.
abbrev pub started : Net
started = record {
  payload = [];
  valid = false;
  vlan_id = 0;
  pcp = 0;
  preempt = 0;
  raw_sock = true;
  sock = true;
}

-- PCP 5 on VLAN 100, without gates.
abbrev pushed : List ℕ
pushed = 5 ∷ 2 ∷ 100 ∷ 0 ∷ 0 ∷ replicate 16 0

-- The relay's command, as the endpoint hands it on.
relay_received : receive started relay ≡ (started, [], some (codes "relay", codes "1"))
unfolding receive command int16_arg until_nul show_ℤ unpack crc_bit crc_bits crc_from crc16 read16
relay_received = refl

pushed_kept : tsn_cfg (handle_cfg started pushed).0 ≡ some pushed
unfolding tsn_cfg handle_cfg report_applied
pushed_kept = refl

handle_cfg_again_example :
    handle_cfg (handle_cfg started pushed).0 pushed ≡ ((handle_cfg started pushed).0, [])
handle_cfg_again_example = handle_cfg_again started pushed

build_tagged_pcp-headers_example :
    let full = build_tagged_pcp 100 relay 5 in
    (be16 full 0 % 4096 ≡ 100)
    × (be16 full 0 / 8192 ≡ 5)
    × (be16 full 2 ≡ 0x0800)
    × (word_sum (ip_of full) % (2 ^ 16 - 1) ≡ 0)
    × (be16 full 6 ≡ 37)
    × (be16 full 24 ≡ 4000)
    × (be16 full 26 ≡ 4001)
    × (be16 full 28 ≡ 17)
    × (drop 32 full ≡ relay)
build_tagged_pcp-headers_example =
    build_tagged_pcp-headers 100 5 relay (omega arith) (omega arith) (omega arith)

first_marker : marker 1 ≡ codes "PREEMPTIBLE 0001"
unfolding marker four_digits show_ℕ
first_marker = refl

abbrev on_vlan : Net
on_vlan = record started { vlan_id = 100; pcp = 5; preempt = 1 }
