-- ===== src/Transport/Packet/Tests.antt =====
-- Headers of concrete packets, and the theorem about them at such a packet.
use teamspeak_js.Common.{◌≡◌, refl, true, [], ◌∷◌, some, arith}
use teamspeak_js.Transport.Packet.{
  Packet, packet_type, is_unencrypted, uint16_bytes, get_uint16, build_c2s_header, parse_s2c_header,
  parse_c2s_header,
}
use teamspeak_js.Transport.Packet.Header.{parse_c2s_header-build_c2s_header}

-- An unencrypted ping.
abbrev sample : Packet
sample = record {
  type_flagged = 0x84;
  id = 513;
  client_id = 7;
  generation_id = 1;
  payload = [];
  received_at = 0;
}

sample_reads :
    (build_c2s_header sample ≡ 2 ∷ 1 ∷ 0 ∷ 7 ∷ 0x84 ∷ [])
    × (packet_type sample ≡ 4)
    × (is_unencrypted sample ≡ true)
    × (parse_s2c_header (2 ∷ 1 ∷ 0x84 ∷ []) ≡ some (record { id = 513; type_flagged = 0x84 }))
    × (get_uint16 (uint16_bytes 513) ≡ some 513)
unfolding build_c2s_header packet_type is_unencrypted parse_s2c_header get_uint16 uint16_bytes
sample_reads = (refl, refl, refl, refl, refl)

parse_c2s_header-build_c2s_header_example :
    parse_c2s_header (build_c2s_header sample)
    ≡ some (record { id = 513; client_id = 7; type_flagged = 0x84 })
parse_c2s_header-build_c2s_header_example =
    parse_c2s_header-build_c2s_header sample (omega arith) (omega arith) (omega arith)
