-- ===== src/Packet.antt =====
-- crates/paws_vpn/src/packet.rs: IPv4 UDP packets between the TUN descriptor and the runtime.
-- A `none` of the outer `Checked` is a panic. `parse_udp_packet` borrows its payload from the input.
pub mod Parsing
pub mod Building
mod Examples
use paws.Base.{
  ℕ, zero, suc, ◌+◌, ◌-◌, ◌*◌, ◌/◌, ◌%◌, ◌^◌, ◌<◌, Bool, true, false, not, ◌||◌, Option, none, some,
  List, [], ◌∷◌, ◌++◌, ltb, ◌==◌, nat_eq, if◌then◌else◌, length,
}
use paws.Base.Bytes.{
  Bytes, Checked, ◌>>=◌, index, slice, be16, high_byte, low_byte, Endian, to_ne_bytes,
  from_ne_bytes,
}

pub record UdpPacket : Type 0 where
  pub src_ip : ℕ
  pub src_port : ℕ
  pub dst_ip : ℕ
  pub dst_port : ℕ
  pub payload : Bytes

-- A 16-bit field in network order.
unfoldable pub field16 : Bytes → ℕ → Checked ℕ
field16 data_ i = do hi ← index data_ i; lo ← index data_ (i + 1); some (be16 hi lo)

unfoldable pub word32 : Endian → Bytes → ℕ → Checked ℕ
word32 e data_ i = do
  b0 ← index data_ i
  b1 ← index data_ (i + 1)
  b2 ← index data_ (i + 2)
  b3 ← index data_ (i + 3)
  some (from_ne_bytes e b0 b1 b2 b3)

-- From the length of the UDP header on.
parse_datagram : Endian → Bytes → ℕ → ℕ → Checked (Option UdpPacket)
parse_datagram e data_ ihl total_len = do
  src_ip ← word32 e data_ 12
  dst_ip ← word32 e data_ 16
  src_port ← field16 data_ ihl
  dst_port ← field16 data_ (ihl + 2)
  udp_len ← field16 data_ (ihl + 4)
  if ltb udp_len 8 || ltb total_len (ihl + udp_len) then some none else do
    payload ← slice data_ (ihl + 8) (ihl + udp_len)
    some (
        some (record {
          src_ip = src_ip;
          src_port = src_port;
          dst_ip = dst_ip;
          dst_port = dst_port;
          payload = payload;
        }))

-- From the length of the IP header on.
parse_ipv4 : Endian → Bytes → ℕ → Checked (Option UdpPacket)
parse_ipv4 e data_ ihl = if ltb ihl 20 || ltb (length data_) (ihl + 8) then some none else do
  total_len ← field16 data_ 2
  if ltb total_len (ihl + 8) || ltb (length data_) total_len then some none else do
    fragment_field ← field16 data_ 6
    if not (fragment_field % 2 ^ 14 == 0) then some none else parse_datagram e data_ ihl total_len

pub parse_udp_packet : Endian → Bytes → Checked (Option UdpPacket)
unfolding parse_ipv4 parse_datagram
parse_udp_packet e data_ = if ltb (length data_) 28 then some none else do
  version_ihl ← index data_ 0
  if not (version_ihl / 2 ^ 4 == 4) then some none else do
    protocol ← index data_ 9
    if not (protocol == 17) then some none else parse_ipv4 e data_ (version_ihl % 2 ^ 4 * 4)

unfoldable pub to_dns_query : Option UdpPacket → Option UdpPacket
to_dns_query none = none
to_dns_query (some packet) = if packet.dst_port == 53 then some packet else none

pub tun_dns_query_from_packet : Endian → Bool → Bytes → Checked (Option UdpPacket)
unfolding to_dns_query
tun_dns_query_from_packet e dns_hijacking data_ =
    if not dns_hijacking
    then some none
    else do packet ← parse_udp_packet e data_; some (to_dns_query packet)

-- The sum of the 16-bit words, in a `u32` that wraps.
unfoldable pub sum_words : ℕ → Bytes → ℕ
sum_words sum [] = sum
sum_words sum (hi ∷ []) = (sum + hi * 256) % 2 ^ 32
sum_words sum (hi ∷ lo ∷ rest) = sum_words ((sum + (hi * 256 + lo)) % 2 ^ 32) rest

-- `while sum >> 16 != 0`; four rounds are enough for a `u32`.
unfoldable pub fold_carries : ℕ → ℕ → ℕ
fold_carries zero sum = sum
fold_carries (suc fuel) sum =
    let rest = fold_carries fuel (sum % 2 ^ 16 + sum / 2 ^ 16) in
    if sum / 2 ^ 16 == 0 then sum else rest

abbrev pub carry_fuel : ℕ
carry_fuel = 4

-- `!sum as u16`
pub ip_checksum : Bytes → ℕ
unfolding sum_words fold_carries
ip_checksum header = (2 ^ 32 - 1 - fold_carries carry_fuel (sum_words 0 header)) % 2 ^ 16

-- The 20 bytes of the IP header of a packet of `total_len` bytes, with this checksum.
abbrev pub ip_header : Endian → ℕ → ℕ → ℕ → ℕ → Bytes
ip_header e total_len checksum src_ip dst_ip =
    let src = to_ne_bytes e src_ip in
    let dst = to_ne_bytes e dst_ip in
    0x45
    ∷ 0
    ∷ high_byte total_len
    ∷ low_byte total_len
    ∷ 0
    ∷ 0
    ∷ 0x40
    ∷ 0
    ∷ 64
    ∷ 17
    ∷ high_byte checksum
    ∷ low_byte checksum
    ∷ src.b0
    ∷ src.b1
    ∷ src.b2
    ∷ src.b3
    ∷ dst.b0
    ∷ dst.b1
    ∷ dst.b2
    ∷ dst.b3
    ∷ []

-- The checksum is taken while its own field is still zero.
abbrev pub built_checksum : Endian → ℕ → ℕ → ℕ → ℕ
built_checksum e total_len src_ip dst_ip = ip_checksum (ip_header e total_len 0 src_ip dst_ip)

-- The buffer starts as zeros, so the bytes that no line writes are zero.
pub build_udp_packet : Endian → ℕ → ℕ → ℕ → ℕ → Bytes → Bytes
build_udp_packet e src_ip src_port dst_ip dst_port payload =
    let udp_len = 8 + length payload in
    let total_len = 20 + udp_len in
    ip_header e total_len (built_checksum e total_len src_ip dst_ip) src_ip dst_ip
    ++ (high_byte src_port
        ∷ low_byte src_port
        ∷ high_byte dst_port
        ∷ low_byte dst_port
        ∷ high_byte udp_len
        ∷ low_byte udp_len
        ∷ 0
        ∷ 0
        ∷ payload)
