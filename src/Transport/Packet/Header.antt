-- ===== src/Transport/Packet/Header.antt =====
-- src/client/transport/packet.ts: building a header and reading it.
use teamspeak_js.Common.{◌<◌, ◌≡◌, some, arith}
use teamspeak_js.Transport.Packet.{Packet, build_c2s_header, parse_c2s_header}

-- The server reads from a client's header the ids and the type byte that the client wrote.
pub parse_c2s_header-build_c2s_header :
    (p : Packet)
    → p.id < 0x10000
    → p.client_id < 0x10000
    → p.type_flagged < 256
    → parse_c2s_header (build_c2s_header p)
      ≡ some (record { id = p.id; client_id = p.client_id; type_flagged = p.type_flagged })
unfolding parse_c2s_header build_c2s_header
parse_c2s_header-build_c2s_header p hi hc ht = ground arith
