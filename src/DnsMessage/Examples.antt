-- ===== src/DnsMessage/Examples.antt =====
-- A query for `a.b` and its response: runs, and the theorems at them.
use paws.Base.{ℕ, ◌≤◌, ◌<◌, ◌≡◌, refl, text, [], ◌∷◌, length, ℕ_discrete, to_ascii_lowercase}
use paws.Base.Bytes.{Bytes}
use paws.Base.Assoc.{get}
use paws.Base.Outcome.{rejects, returns, Safe, byte_at, get_byte, range, u16_at, u32_at}
use paws.DnsTable.{v4}
use paws.DnsMessage.Names.{
  read_dns_name, read_labels, turn, read_part, jump, read_label, is_utf8, join_labels,
}
use paws.DnsMessage.Reading.{read_dns_name-Safe}
use paws.DnsMessage.{
  parse_dns_query, question_labels, question_tail, dns_cache_key, parse_dns_response_records,
  response_records, skip_questions, read_answers, read_answer, record_tail, answer_of,
  dns_records_from_answers, cname_sources, address_records, dns_response_host_for_address,
  follow_aliases,
}

abbrev pub query : Bytes
query = 7 ∷ 9 ∷ 1 ∷ 0 ∷ 0 ∷ 1 ∷ 0 ∷ 0 ∷ 0 ∷ 0 ∷ 0 ∷ 0 ∷ 1 ∷ 97 ∷ 1 ∷ 98 ∷ 0 ∷ 0 ∷ 1 ∷ 0 ∷ 1 ∷ []

-- One answer, whose name is a pointer to the question.
abbrev pub response : Bytes
response =
    7 ∷ 9 ∷ 0x81 ∷ 0x80 ∷ 0 ∷ 1 ∷ 0 ∷ 1 ∷ 0 ∷ 0 ∷ 0 ∷ 0 ∷ 1 ∷ 97 ∷ 1 ∷ 98 ∷ 0 ∷ 0 ∷ 1 ∷ 0 ∷ 1 ∷ 0xc0
    ∷ 12 ∷ 0 ∷ 1 ∷ 0 ∷ 1 ∷ 0 ∷ 0 ∷ 0 ∷ 60 ∷ 0 ∷ 4 ∷ 10 ∷ 0 ∷ 0 ∷ 1 ∷ []

pub key_of_query : dns_cache_key query ≡ returns (97 ∷ 46 ∷ 98 ∷ 0 ∷ 1 ∷ [])
unfolding dns_cache_key parse_dns_query question_labels question_tail byte_at get_byte range u16_at
    is_utf8 join_labels to_ascii_lowercase ℕ_discrete
key_of_query = refl

pub records_of_response :
    parse_dns_response_records response ≡ returns ((v4 0x0a000001, text "a.b", 60) ∷ [])
unfolding parse_dns_response_records response_records skip_questions read_answers read_answer
    record_tail answer_of dns_records_from_answers cname_sources address_records
    dns_response_host_for_address follow_aliases read_dns_name read_labels turn read_part jump
    read_label byte_at get_byte range u16_at u32_at is_utf8 join_labels get ℕ_discrete
records_of_response = refl

-- A pointer to itself is rejected after eight turns.
self_pointer : read_dns_name (0xc0 ∷ 0 ∷ []) 0 ≡ rejects
unfolding read_dns_name read_labels turn read_part jump get_byte ℕ_discrete
self_pointer = refl

read_dns_name-Safe_example :
    Safe (λ (x : Bytes × ℕ). (21 < x.1) × (x.1 ≤ length response)) (read_dns_name response 21)
read_dns_name-Safe_example = read_dns_name-Safe response 21
