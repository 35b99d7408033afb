-- ===== src/Packet/Parsing.antt =====
-- crates/paws_vpn/src/packet.rs: what parsing accepts.
use paws.Base.{
  ℕ, ◌+◌, ◌-◌, ◌*◌, ◌≡◌, ◌≤◌, ◌<◌, ◌^◌, ◌%◌, some, Option-cases, inl, inr, arith, length,
}
use paws.Base.Bytes.{Bytes, index, slice, Endian, AreBytes, index-lt_256, length-take-drop}
use paws.Packet.{UdpPacket, field16, parse_datagram, parse_ipv4, parse_udp_packet}

-- What a parsed packet promises of the bytes: the ports fit 16 bits, and the payload with the two
-- headers fits the input.
abbrev pub IsWithin : Bytes → UdpPacket → Type 0
IsWithin bs p = (p.src_port < 2 ^ 16) × (p.dst_port < 2 ^ 16) × (28 + length p.payload ≤ length bs)

field16-lt : (bs : Bytes) (i w : ℕ) → AreBytes bs → field16 bs i ≡ some w → w < 2 ^ 16
unfolding field16
field16-lt bs i w v h = elim (Option-cases (index bs i)) [
  | inl none_ ↦ ground arith
  | inr (hi, p) ↦ elim (Option-cases (index bs (i + 1))) [
    | inl none_ ↦ ground arith
    | inr (lo, q) ↦ ground (arith, index-lt_256 bs i hi v p, index-lt_256 bs (i + 1) lo v q)
  ]
]

parse_datagram-IsWithin :
    (e : Endian) (bs : Bytes) (ihl total_len : ℕ) (p : UdpPacket)
    → AreBytes bs
    → 20 ≤ ihl
    → total_len ≤ length bs
    → parse_datagram e bs ihl total_len ≡ some (some p)
    → IsWithin bs p
unfolding parse_datagram slice
parse_datagram-IsWithin e bs ihl total_len p v h l parsed = elim (Option-cases (field16 bs ihl)) [
  | inl panics ↦ absurd (ground arith)
  | inr (src_port, r) ↦ elim (Option-cases (field16 bs (ihl + 2))) [
    | inl panics ↦ absurd (ground arith)
    | inr (dst_port, s) ↦ elim (Option-cases (field16 bs (ihl + 4))) [
      | inl panics ↦ absurd (ground arith)
      | inr (udp_len, t) ↦ ground (
        arith,
        field16-lt bs ihl src_port v r,
        field16-lt bs (ihl + 2) dst_port v s,
        length-take-drop bs (ihl + 8) (udp_len - 8),
      )
    ]
  ]
]

parse_ipv4-IsWithin :
    (e : Endian) (bs : Bytes) (ihl : ℕ) (p : UdpPacket)
    → AreBytes bs
    → parse_ipv4 e bs ihl ≡ some (some p)
    → IsWithin bs p
unfolding parse_ipv4
parse_ipv4-IsWithin e bs ihl p v parsed = elim (Option-cases (field16 bs 2)) [
  | inl panics ↦ absurd (ground arith)
  | inr (total_len, r) ↦ ground (arith, parse_datagram-IsWithin e bs ihl total_len p v)
]

-- A packet that is parsed from bytes has 16-bit ports, and its payload with the 28 bytes of the two
-- headers is no longer than the input.
pub parse_udp_packet-IsWithin :
    (e : Endian) (bs : Bytes) (p : UdpPacket)
    → AreBytes bs
    → parse_udp_packet e bs ≡ some (some p)
    → IsWithin bs p
unfolding parse_udp_packet
parse_udp_packet-IsWithin e bs p v parsed = elim (Option-cases (index bs 0)) [
  | inl panics ↦ absurd (ground arith)
  | inr (version_ihl, r) ↦ ground (arith, parse_ipv4-IsWithin e bs (version_ihl % 2 ^ 4 * 4) p v)
]
