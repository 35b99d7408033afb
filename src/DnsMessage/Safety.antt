-- ===== src/DnsMessage/Safety.antt =====
-- Reading DNS messages: every loop ends and every index is in range, on any bytes.
use paws.Base.{
  ℕ, zero, suc, ◌+◌, ◌-◌, ◌≤◌, ◌<◌, ◌≡◌, ◌⊎◌, Text, List, [], ◌∷◌, ◌++◌, ltb, nat_eq, if◌then◌else◌,
  length, arith, Option, none, some,
}
use paws.Base.Bytes.{Bytes}
use paws.Base.Outcome.{
  Outcome, panics, rejects, returns, ◌>>=◌, Safe, Returns, Safe-bind, Returns-bind, Safe-guard,
  u16_at-bind, u32_at-bind, get_byte, range, get_byte-Safe, range-Returns, u16_at-Returns,
}
use paws.DnsMessage.Names.{read_dns_name, is_utf8}
use paws.DnsMessage.Reading.{read_dns_name-Safe}
use paws.DnsMessage.{
  DnsQuery, DnsAnswer, question_labels, question_tail, parse_dns_query, skip_questions, first_name,
  answer_of, cname_of, record_tail, read_answer, read_answers, add_answer, or_else,
  response_records, parse_dns_response_records,
}

abbrev AfterLabels : ℕ → Bytes → List Bytes × ℕ → Type 0
AfterLabels offset query x = (offset < x.1) × (x.1 ≤ length query)

take_label-Safe :
    (query : Bytes) (offset len : ℕ) (rest : Bytes → Outcome (List Bytes × ℕ))
    → ((label : Bytes) → Safe (AfterLabels (offset + 1 + len) query) (rest label))
    → offset + 1 + len ≤ length query
    → Safe (AfterLabels offset query) (
        range query (offset + 1) (offset + 1 + len) >>= λ label.
        if is_utf8 label then rest label else rejects)
take_label-Safe query offset len rest safe fits =
    Returns-bind _ _ (range query (offset + 1) (offset + 1 + len)) _
      (range-Returns query (offset + 1) (offset + 1 + len) (omega arith) fits)
      λ label same. ground (arith, safe label)

-- The offset after the labels lies beyond where they start and within the message.
question_labels-Safe :
    (fuel : ℕ) (query : Bytes) (offset : ℕ) (labels : List Bytes)
    → length query - offset < fuel
    → Safe (AfterLabels offset query) (question_labels fuel query offset labels)
unfolding question_labels
question_labels-Safe zero query offset labels enough = absurd (omega arith)
question_labels-Safe (suc fuel) query offset labels enough =
    Safe-bind _ _ (get_byte query offset) _ (get_byte-Safe query offset) λ len inside. ground (
      arith,
      take_label-Safe query offset len
          (λ label. question_labels fuel query (offset + 1 + len) (labels ++ label ∷ []))
          (λ label.
            question_labels-Safe fuel query (offset + 1 + len) (labels ++ label ∷ [])
              (omega arith)),
    )

question_tail-Safe :
    (query : Bytes) (labels : List Bytes) (offset : ℕ)
    → 12 < offset
    → Safe
        (λ (q : DnsQuery). (12 < q.question_end) × (q.question_end ≤ length query))
        (question_tail query labels offset)
unfolding question_tail
question_tail-Safe query labels offset after =
    ground (arith, u16_at-Returns query offset, u16_at-Returns query (offset + 2))

-- Parsing a query never panics and always ends, on any bytes; the question that it finds ends after
-- the header and within the message.
pub parse_dns_query-Safe :
    (query : Bytes)
    → Safe
        (λ (q : DnsQuery). (12 < q.question_end) × (q.question_end ≤ length query))
        (parse_dns_query query)
unfolding parse_dns_query
parse_dns_query-Safe query = ground (
  arith,
  u16_at-Returns query 4,
  Safe-bind _ (λ (q : DnsQuery). (12 < q.question_end) × (q.question_end ≤ length query))
      (question_labels (length query + 1) query 12 []) (λ x. question_tail query x.0 x.1)
      (question_labels-Safe (length query + 1) query 12 [] (omega arith))
      (λ x after. question_tail-Safe query x.0 x.1 after.0),
)

pub skip_questions-Safe :
    (count : ℕ) (response : Bytes) (offset : ℕ)
    → offset ≤ length response
    → Safe
        (λ next. (offset ≤ next) × (next ≤ length response))
        (skip_questions count response offset)
unfolding skip_questions
skip_questions-Safe zero response offset inside = ground arith
skip_questions-Safe (suc count) response offset inside =
    Safe-bind _ _ (read_dns_name response offset) _ (read_dns_name-Safe response offset)
      λ x after. ground (arith, skip_questions-Safe count response (x.1 + 4))

first_name-Safe :
    (count : ℕ) (response : Bytes) → Safe (λ name. Unit {0}) (first_name count response)
first_name-Safe zero response = tt
first_name-Safe (suc count) response = ground (arith, read_dns_name-Safe response 12)

cname_of-Safe :
    (host : Text) (response : Bytes) (offset : ℕ)
    → Returns (λ answer. Unit {0}) (cname_of host (read_dns_name response offset))
cname_of-Safe host response offset = ground (arith, read_dns_name-Safe response offset)

answer_of-Returns :
    (response : Bytes) (host : Text) (record_type record_class ttl rdlen rdata_offset : ℕ)
    → rdata_offset + rdlen ≤ length response
    → Returns
        (λ answer. Unit {0})
        (answer_of response host record_type record_class ttl rdlen rdata_offset)
unfolding answer_of
answer_of-Returns response host record_type record_class ttl rdlen rdata_offset inside = ground (
  arith,
  cname_of-Safe host response rdata_offset,
  range-Returns response rdata_offset (rdata_offset + 4),
  range-Returns response rdata_offset (rdata_offset + 16),
)

-- The next record lies behind, within the message.
abbrev NextIsWithin : Bytes → ℕ → Option DnsAnswer × ℕ → Type 0
NextIsWithin response offset x = (offset < x.1) × (x.1 ≤ length response)

record_tail-Safe :
    (response : Bytes) (question_name name : Text) (next_offset : ℕ)
    → Safe (NextIsWithin response next_offset) (record_tail response question_name name next_offset)
unfolding record_tail
record_tail-Safe response question_name name next_offset =
    Safe-guard _ (ltb (length response) (next_offset + 10)) _ λ fits.
      u16_at-bind _ response next_offset _ (ground arith) λ record_type.
        u16_at-bind _ response (next_offset + 2) _ (ground arith) λ record_class.
          u32_at-bind _ response (next_offset + 4) _ (ground arith) λ ttl.
            u16_at-bind _ response (next_offset + 8) _ (ground arith) λ rdlen.
              Safe-guard _ (ltb (length response) (next_offset + 10 + rdlen)) _ λ inside.
                Returns-bind _ _
                  (answer_of response (or_else name question_name) record_type record_class ttl
                    rdlen (next_offset + 10))
                  _
                  (answer_of-Returns response (or_else name question_name) record_type record_class
                    ttl rdlen (next_offset + 10) (ground arith))
                  λ answer _. (omega arith, ground arith)

read_answer-Safe :
    (response : Bytes) (question_name : Text) (offset : ℕ)
    → Safe (NextIsWithin response offset) (read_answer response question_name offset)
unfolding read_answer
read_answer-Safe response question_name offset =
    Safe-bind _ _ (read_dns_name response offset) _ (read_dns_name-Safe response offset)
      λ x after. ground (arith, record_tail-Safe response question_name x.0 x.1)

read_answers-Returns :
    (count : ℕ) (response : Bytes) (question_name : Text) (offset : ℕ)
    → Returns (λ answers. Unit {0}) (read_answers count response question_name offset)
unfolding read_answers
read_answers-Returns zero response question_name offset = tt
read_answers-Returns (suc count) response question_name offset =
    go (read_answer response question_name offset) (read_answer-Safe response question_name offset)
      (λ next. read_answers-Returns count response question_name next)
  where
    go :
        (o : Outcome (Option DnsAnswer × ℕ))
        → Safe (NextIsWithin response offset) o
        → ((next : ℕ)
            → Returns (λ answers. Unit {0}) (read_answers count response question_name next))
        → Returns
            (λ answers. Unit {0})
            (elim o [
              | panics ↦ panics
              | rejects ↦ returns []
              | returns (answer, next) ↦
                  add_answer answer (read_answers count response question_name next)
            ])
    go panics safe ih = safe
    go rejects safe ih = tt
    go (returns (none, next)) safe ih = ground (arith, ih next)
    go (returns (some answer, next)) safe ih = ground (arith, ih next)

response_records-Safe :
    (response : Bytes) → Safe (λ records. 12 ≤ length response) (response_records response)
unfolding response_records
response_records-Safe response = Safe-guard _ (ltb (length response) 12) _ λ whole.
    u16_at-bind _ response 4 _ (ground arith) λ qdcount.
      u16_at-bind _ response 6 _ (ground arith) λ ancount.
        Safe-bind _ _ (skip_questions qdcount response 12) _
          (skip_questions-Safe qdcount response 12 (ground arith))
          λ offset _.
            Safe-bind _ _ (first_name qdcount response) _ (first_name-Safe qdcount response)
              λ question_name _.
                Returns-bind _ _ (read_answers ancount response question_name offset) _
                  (read_answers-Returns ancount response question_name offset)
                  λ answers _. ground arith

-- Reading the records of a response never panics and always ends, on any bytes: what cannot be read
-- is left out. Records come only from a response with a whole header.
pub parse_dns_response_records-Returns :
    (response : Bytes)
    → Returns
        (λ records. (records ≡ []) ⊎ (12 ≤ length response))
        (parse_dns_response_records response)
unfolding parse_dns_response_records
parse_dns_response_records-Returns response = ground (arith, response_records-Safe response)
