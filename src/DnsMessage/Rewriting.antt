-- ===== src/DnsMessage/Rewriting.antt =====
-- crates/paws_vpn/src/dns.rs: what is written into a DNS message that is at hand, and the error
-- response made from a query.
use paws.Base.{
  ℕ, zero, suc, ◌+◌, ◌/◌, ◌%◌, ◌^◌, not, ◌||◌, Option, none, some, [], ◌∷◌, ltb, leb, ◌==◌, nat_eq,
  if◌then◌else◌, length, is_empty, min,
}
use paws.Base.Bytes.{Bytes, Endian}
use paws.Base.Outcome.{Outcome, panics, rejects, returns, ◌>>=◌, range, overwrite, u16_at}
use paws.DnsMessage.Names.{read_dns_name}
use paws.DnsMessage.{skip_questions}
use paws.Packet.{build_udp_packet}

-- After the first question's name.
abbrev pub question_end_of : Bytes → Bytes × ℕ → Outcome ℕ
question_end_of query (name, offset) =
    if leb (offset + 4) (length query) then returns (offset + 4) else rejects

-- It indexes the header without a test of the length, which its callers have made.
unfoldable pub parse_dns_question_end : Bytes → Outcome ℕ
parse_dns_question_end query = do
  qdcount ← u16_at query 4
  if qdcount == 0 then returns 12 else read_dns_name query 12 >>= question_end_of query

-- A `return` of a function without a result leaves the message as it is.
abbrev pub or_unchanged : Bytes → Outcome Bytes → Outcome Bytes
or_unchanged response rejects = returns response
or_unchanged response o = o

abbrev pub copy_question : Bytes → Bytes → ℕ → ℕ → Outcome Bytes
copy_question response query query_question_end response_question_end =
    if not (query_question_end == response_question_end) || ltb (length response) query_question_end
    then rejects
    else do
      question ← range query 12 query_question_end
      overwrite response 12 query_question_end question

unfoldable pub rewrite_dns_response_question : Bytes → Bytes → Outcome Bytes
rewrite_dns_response_question response query = or_unchanged response (do
  query_question_end ← parse_dns_question_end query
  response_question_end ← parse_dns_question_end response
  copy_question response query query_question_end response_question_end)

-- `u32::to_be_bytes`
abbrev pub be_bytes32 : ℕ → Bytes
be_bytes32 w = w / 2 ^ 24 % 256 ∷ w / 2 ^ 16 % 256 ∷ w / 2 ^ 8 % 256 ∷ w % 256 ∷ []

-- One answer with the time to live in place; `none` of the offset ends the loop.
unfoldable pub rewrite_ttl : ℕ → Bytes → ℕ → Outcome (Bytes × Option ℕ)
rewrite_ttl ttl response offset = do
  (name, next_offset) ← read_dns_name response offset
  if ltb (length response) (next_offset + 10) then rejects else do
    rewritten ← overwrite response (next_offset + 4) (next_offset + 8) (be_bytes32 ttl)
    rdlen ← u16_at rewritten (next_offset + 8)
    returns (
      rewritten,
      if ltb (length rewritten) (next_offset + 10 + rdlen)
          then none
          else some (next_offset + 10 + rdlen),
    )

unfoldable pub rewrite_ttls : ℕ → ℕ → Bytes → ℕ → Outcome Bytes
rewrite_ttls zero ttl response offset = returns response
rewrite_ttls (suc count) ttl response offset = elim (rewrite_ttl ttl response offset) [
  | panics ↦ panics
  | rejects ↦ returns response
  | returns (rewritten, none) ↦ returns rewritten
  | returns (rewritten, some next) ↦ rewrite_ttls count ttl rewritten next
]

unfoldable pub rewrite_dns_response_ttls : Bytes → ℕ → Outcome Bytes
rewrite_dns_response_ttls response ttl = or_unchanged response (
    if ltb (length response) 12 then rejects else do
      qdcount ← u16_at response 4
      ancount ← u16_at response 6
      offset ← skip_questions qdcount response 12
      rewrite_ttls ancount ttl response offset)

-- `unwrap_or(query.len().min(12))`
abbrev pub or_header : Bytes → Outcome ℕ → Outcome ℕ
or_header query rejects = returns (min (length query) 12)
or_header query o = o

-- The two bytes of the flags and the three counts that are set to zero.
abbrev pub set_error : ℕ → Bytes → Outcome Bytes
set_error code response = do
  r1 ← overwrite response 2 3 (0x81 ∷ [])
  r2 ← overwrite r1 3 4 ((0x80 + code) ∷ [])
  r3 ← overwrite r2 6 8 (0 ∷ 0 ∷ [])
  r4 ← overwrite r3 8 10 (0 ∷ 0 ∷ [])
  overwrite r4 10 12 (0 ∷ 0 ∷ [])

-- `DnsResponseCode::ServFail`
abbrev pub serv_fail : ℕ
serv_fail = 2

unfoldable pub build_dns_error_response : Bytes → ℕ → Outcome Bytes
build_dns_error_response query code = if ltb (length query) 12 then returns [] else do
  question_end ← or_header query (parse_dns_question_end query)
  response ← range query 0 question_end
  set_error code response

abbrev pub answer_packet : Endian → ℕ → ℕ → ℕ → ℕ → Bytes → Option Bytes
answer_packet e src_ip src_port dst_ip dst_port response =
    if is_empty response
    then none
    else some (build_udp_packet e dst_ip dst_port src_ip src_port response)

unfoldable pub build_dns_servfail_udp_packet :
    Endian → ℕ → ℕ → ℕ → ℕ → Bytes → Outcome (Option Bytes)
build_dns_servfail_udp_packet e src_ip src_port dst_ip dst_port query = do
  response ← build_dns_error_response query serv_fail
  returns (answer_packet e src_ip src_port dst_ip dst_port response)
