-- ===== src/Packet/Building.antt =====
-- The packets that the runtime builds: they parse back, and their header checksum verifies.
use paws.Base.{ℕ, zero, suc, ◌+◌, ◌-◌, ◌/◌, ◌%◌, ◌^◌, ◌≡◌, ◌≤◌, ◌<◌, refl, ap, some, arith, length}
use paws.Base.Bytes.{Bytes, index, slice, Endian, little, big, take-length}
use paws.Packet.{
  field16, word32, parse_datagram, parse_ipv4, parse_udp_packet, build_udp_packet, ip_header,
  ip_checksum, sum_words, fold_carries, carry_fuel, built_checksum,
}

-- What is built parses back to the same addresses, ports and payload, in either byte order, as long
-- as the payload fits one IPv4 packet.
pub parse-build :
    (e : Endian) (src_ip src_port dst_ip dst_port : ℕ) (payload : Bytes)
    → src_ip < 2 ^ 32
    → dst_ip < 2 ^ 32
    → src_port < 2 ^ 16
    → dst_port < 2 ^ 16
    → length payload ≤ 65507
    → parse_udp_packet e (build_udp_packet e src_ip src_port dst_ip dst_port payload)
      ≡ some (
          some (record {
            src_ip = src_ip;
            src_port = src_port;
            dst_ip = dst_ip;
            dst_port = dst_port;
            payload = payload;
          }))
unfolding parse_udp_packet parse_ipv4 parse_datagram field16 word32 build_udp_packet index slice
parse-build little src_ip src_port dst_ip dst_port payload hs hd ps pd l =
    ground (arith, take-length payload)
parse-build big src_ip src_port dst_ip dst_port payload hs hd ps pd l =
    ground (arith, take-length payload)

-- One round of folding keeps the residue and the sign.
fold_round : (x : ℕ) → (x % 65536 + x / 65536) % 65535 ≡ x % 65535
fold_round x = omega arith

fold_carries-mod : (fuel x : ℕ) → fold_carries fuel x % 65535 ≡ x % 65535
unfolding fold_carries
fold_carries-mod zero x = refl
fold_carries-mod (suc fuel) x =
    ground (arith, fold_carries-mod fuel (x % 2 ^ 16 + x / 2 ^ 16), fold_round x)

fold_carries-pos : (fuel x : ℕ) → 0 < x → 0 < fold_carries fuel x
unfolding fold_carries
fold_carries-pos zero x h = h
fold_carries-pos (suc fuel) x h = ground (arith, fold_carries-pos fuel (x % 2 ^ 16 + x / 2 ^ 16))

-- Folding any `u32` ends by its test, within the rounds allowed, below 2 ^ 16, and the result is
-- congruent to the sum modulo 2 ^ 16 - 1.
pub fold_carries_ends :
    (sum : ℕ)
    → sum < 2 ^ 32
    → (fold_carries carry_fuel sum / 2 ^ 16 ≡ 0)
      × (fold_carries carry_fuel sum % 65535 ≡ sum % 65535)
unfolding fold_carries
fold_carries_ends sum h = (ground arith, fold_carries-mod 4 sum)

-- The header's sum with a checksum in place is its sum with the field zero, plus the checksum.
sum_words-header :
    (e : Endian) (total_len checksum src_ip dst_ip : ℕ)
    → checksum < 2 ^ 16
    → sum_words 0 (ip_header e total_len checksum src_ip dst_ip)
      ≡ sum_words 0 (ip_header e total_len 0 src_ip dst_ip) + checksum
unfolding sum_words
sum_words-header little total_len checksum src_ip dst_ip h = omega arith
sum_words-header big total_len checksum src_ip dst_ip h = omega arith

sum_words-bounds :
    (e : Endian) (total_len src_ip dst_ip : ℕ)
    → (0 < sum_words 0 (ip_header e total_len 0 src_ip dst_ip))
      × (sum_words 0 (ip_header e total_len 0 src_ip dst_ip) < 2 ^ 20)
unfolding sum_words
sum_words-bounds little total_len src_ip dst_ip = omega arith
sum_words-bounds big total_len src_ip dst_ip = omega arith

ip_checksum_lem :
    (bs : Bytes) → ip_checksum bs ≡ (2 ^ 32 - 1 - fold_carries carry_fuel (sum_words 0 bs)) % 2 ^ 16
unfolding ip_checksum
ip_checksum_lem bs = refl

-- A receiver that sums the header of a built packet, its checksum included, gets zero: the checksum
-- verifies for every length, source and destination, in either byte order.
pub checksum_verifies :
    (e : Endian) (total_len src_ip dst_ip : ℕ)
    → ip_checksum (ip_header e total_len (built_checksum e total_len src_ip dst_ip) src_ip dst_ip)
      ≡ 0
checksum_verifies e total_len src_ip dst_ip =
    let empty : Bytes = ip_header e total_len 0 src_ip dst_ip in
    let c : ℕ = ip_checksum empty in
    let s : ℕ = sum_words 0 empty in
    let (pos, small) = sum_words-bounds e total_len src_ip dst_ip in
    let c_lt : c < 2 ^ 16 = omega (arith, ip_checksum_lem empty) in
    omega (
      arith,
      ip_checksum_lem empty,
      ip_checksum_lem (ip_header e total_len c src_ip dst_ip),
      fold_carries_ends s (omega arith),
      fold_carries_ends (s + c) (omega arith),
      fold_carries-pos carry_fuel s pos,
      fold_carries-pos carry_fuel (s + c) (omega arith),
      ap (fold_carries carry_fuel) (sum_words-header e total_len c src_ip dst_ip c_lt),
    )
