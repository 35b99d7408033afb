-- ===== src/Packet/Examples.antt =====
-- A DNS query as a packet: runs, and the theorems at it.
use paws.Base.{◌≡◌, refl, true, some, [], ◌∷◌, arith, ℕ_discrete, take}
use paws.Base.Bytes.{Bytes, little, index, slice}
use paws.Packet.{
  UdpPacket, field16, word32, parse_udp_packet, build_udp_packet, tun_dns_query_from_packet,
  ip_checksum, ip_header, built_checksum,
}
use paws.Packet.Parsing.{IsWithin, parse_udp_packet-IsWithin}
use paws.Packet.Building.{parse-build, checksum_verifies}

-- 172.19.0.1:40000 to 172.19.0.2:53, as a little-endian target reads the addresses.
abbrev query : UdpPacket
query = record {
  src_ip = 0x010013ac;
  src_port = 40000;
  dst_ip = 0x020013ac;
  dst_port = 53;
  payload = 1 ∷ 2 ∷ 3 ∷ [];
}

abbrev packed : Bytes
packed =
    build_udp_packet little query.src_ip query.src_port query.dst_ip query.dst_port query.payload

packed_bytes : take 12 packed ≡ 0x45 ∷ 0 ∷ 0 ∷ 31 ∷ 0 ∷ 0 ∷ 0x40 ∷ 0 ∷ 64 ∷ 17 ∷ 0xe2 ∷ 0xa4 ∷ []
unfolding build_udp_packet ip_checksum ℕ_discrete
packed_bytes = refl

hijacked : tun_dns_query_from_packet little true packed ≡ some (some query)
unfolding tun_dns_query_from_packet parse_udp_packet field16 word32 build_udp_packet index slice
    ip_checksum ℕ_discrete
hijacked = refl

parse-build_example : parse_udp_packet little packed ≡ some (some query)
parse-build_example =
    parse-build little 0x010013ac 40000 0x020013ac 53 (1 ∷ 2 ∷ 3 ∷ []) (omega arith) (omega arith)
      (omega arith) (omega arith) (omega arith)

parse_udp_packet-IsWithin_example : IsWithin packed query
unfolding build_udp_packet ip_checksum ℕ_discrete
parse_udp_packet-IsWithin_example =
    parse_udp_packet-IsWithin little packed query (omega arith) parse-build_example

checksum_verifies_example : ip_checksum (ip_header little 31 (built_checksum little 31 1 2) 1 2) ≡ 0
checksum_verifies_example = checksum_verifies little 31 1 2
