-- ===== src/DnsMessage.antt =====
-- crates/paws_vpn/src/dns.rs: the codec of DNS messages. A string is the list of its UTF-8 bytes.
-- `panics` of an outcome is a panic or a loop that runs out of fuel, `rejects` the `None` of `?`.
pub mod Names
pub mod Reading
pub mod Rewriting
pub mod Safety
pub mod Headers
pub mod Errors
pub mod Examples
use paws.Base.{
  ℕ, zero, suc, ◌+◌, ◌-◌, ◌*◌, ◌/◌, ◌%◌, ◌^◌, ◌≤◌, Text, Bool, true, false, not, ◌&&◌, ◌||◌, Option,
  none, some, List, [], ◌∷◌, ◌++◌, ltb, leb, ◌==◌, nat_eq, text_eq, if◌then◌else◌, length, is_empty,
  to_ascii_lowercase, min,
}
use paws.Base.Bytes.{Bytes, high_byte, low_byte}
use paws.Base.Assoc.{get, put}
use paws.Base.Outcome.{
  Outcome, panics, rejects, returns, ◌>>=◌, byte_at, get_byte, range, overwrite, u16_at, u32_at,
}
use paws.DnsTable.{IpAddr, v4, v6}
use Names.{read_dns_name, is_utf8, join_labels}

pub data DnsRecordKind : Type 0 where
  a aaaa : DnsRecordKind

pub record DnsQuery : Type 0 where
  pub name : Text
  pub question_end : ℕ
  pub kind : DnsRecordKind

-- The loop over the labels of a question, from an offset and the labels so far on; there are no
-- pointers, and a turn consumes a byte.
unfoldable pub question_labels : ℕ → Bytes → ℕ → List Bytes → Outcome (List Bytes × ℕ)
question_labels zero query offset labels = panics
question_labels (suc fuel) query offset labels = do
  len ← get_byte query offset
  if len == 0
      then returns (labels, offset + 1)
      else if not (len / 2 ^ 6 % 4 == 0) || ltb (length query) (offset + 1 + len)
      then rejects
      else do
        label ← range query (offset + 1) (offset + 1 + len)
        if is_utf8 label
            then question_labels fuel query (offset + 1 + len) (labels ++ label ∷ [])
            else rejects

abbrev pub kind_of : ℕ → Option DnsRecordKind
kind_of qtype = if qtype == 1 then some a else if qtype == 28 then some aaaa else none

abbrev pub query_of : List Bytes → ℕ → Option DnsRecordKind → Outcome DnsQuery
query_of labels offset none = rejects
query_of labels offset (some kind) =
    returns (record { name = join_labels labels; question_end = offset + 4; kind = kind })

-- What follows the labels of the question.
unfoldable pub question_tail : Bytes → List Bytes → ℕ → Outcome DnsQuery
question_tail query labels offset = if ltb (length query) (offset + 4) then rejects else do
  qtype ← u16_at query offset
  qclass ← u16_at query (offset + 2)
  if not (qclass == 1) then rejects else query_of labels offset (kind_of qtype)

unfoldable pub parse_dns_query : Bytes → Outcome DnsQuery
unfolding question_labels
parse_dns_query query = if ltb (length query) 12 then rejects else do
  qdcount ← u16_at query 4
  if qdcount == 0 then rejects else do
    (labels, offset) ← question_labels (length query + 1) query 12 []
    question_tail query labels offset

abbrev pub kind_byte : DnsRecordKind → ℕ
kind_byte a = 1
kind_byte aaaa = 28

unfoldable pub dns_cache_key : Bytes → Outcome Bytes
dns_cache_key query = do
  question ← parse_dns_query query
  returns (to_ascii_lowercase question.name ++ 0 ∷ kind_byte question.kind ∷ [])

pub data DnsAnswer : Type 0 where
  address : Text → IpAddr → ℕ → DnsAnswer
  cname : Text → Text → DnsAnswer

-- The loop over the questions, to the offset of the answers.
unfoldable pub skip_questions : ℕ → Bytes → ℕ → Outcome ℕ
skip_questions zero response offset = returns offset
skip_questions (suc count) response offset = do
  (name, next_offset) ← read_dns_name response offset
  if ltb (length response) (next_offset + 4)
      then rejects
      else skip_questions count response (next_offset + 4)

abbrev pub first_name : ℕ → Bytes → Outcome Text
first_name zero response = returns []
first_name (suc count) response = do (name, next_offset) ← read_dns_name response 12; returns name

-- Big-endian, as the octets of an address.
abbrev pub octets_value : ℕ → Bytes → ℕ
octets_value acc [] = acc
octets_value acc (b ∷ bs) = octets_value (acc * 256 + b) bs

abbrev pub or_else : Text → Text → Text
or_else [] default = default
or_else (c ∷ cs) default = c ∷ cs

abbrev pub cname_of : Text → Outcome (Text × ℕ) → Outcome (Option DnsAnswer)
cname_of host panics = panics
cname_of host rejects = returns none
cname_of host (returns (target, next)) =
    returns (if is_empty target then none else some (cname host target))

abbrev pub address_of : Text → (ℕ → IpAddr) → ℕ → Bytes → Outcome (Option DnsAnswer)
address_of host ip ttl octets = returns (some (address host (ip (octets_value 0 octets)) ttl))

-- The answer in the data of one record.
unfoldable pub answer_of : Bytes → Text → ℕ → ℕ → ℕ → ℕ → ℕ → Outcome (Option DnsAnswer)
answer_of response host record_type record_class ttl rdlen rdata_offset =
    if record_class == 1 && record_type == 1 && rdlen == 4
    then range response rdata_offset (rdata_offset + 4) >>= address_of host v4 ttl
    else if record_class == 1 && record_type == 28 && rdlen == 16
    then range response rdata_offset (rdata_offset + 16) >>= address_of host v6 ttl
    else if record_class == 1 && record_type == 5
    then cname_of host (read_dns_name response rdata_offset)
    else returns none

-- The fixed fields of a record after its name, the answer in it and the offset of the next record.
unfoldable pub record_tail : Bytes → Text → Text → ℕ → Outcome (Option DnsAnswer × ℕ)
record_tail response question_name name next_offset =
    if ltb (length response) (next_offset + 10) then rejects else do
      record_type ← u16_at response next_offset
      record_class ← u16_at response (next_offset + 2)
      ttl ← u32_at response (next_offset + 4)
      rdlen ← u16_at response (next_offset + 8)
      if ltb (length response) (next_offset + 10 + rdlen) then rejects else do
        answer ←
            answer_of response (or_else name question_name) record_type record_class ttl rdlen
              (next_offset + 10)
        returns (answer, next_offset + 10 + rdlen)

unfoldable pub read_answer : Bytes → Text → ℕ → Outcome (Option DnsAnswer × ℕ)
read_answer response question_name offset = do
  (name, next_offset) ← read_dns_name response offset
  record_tail response question_name name next_offset

abbrev pub add_answer : Option DnsAnswer → Outcome (List DnsAnswer) → Outcome (List DnsAnswer)
add_answer answer panics = panics
add_answer answer rejects = rejects
add_answer none (returns answers) = returns answers
add_answer (some answer) (returns answers) = returns (answer ∷ answers)

-- The loop over the answers, which a record that does not parse breaks off.
unfoldable pub read_answers : ℕ → Bytes → Text → ℕ → Outcome (List DnsAnswer)
read_answers zero response question_name offset = returns []
read_answers (suc count) response question_name offset =
    elim (read_answer response question_name offset) [
      | panics ↦ panics
      | rejects ↦ returns []
      | returns (answer, next) ↦ add_answer answer (read_answers count response question_name next)
    ]

-- The CNAME answers that `dns_records_from_answers` collects, by the lower-cased target.
unfoldable pub cname_sources : List DnsAnswer → List (Text × Text) → List (Text × Text)
cname_sources [] sources = sources
cname_sources (address host ip ttl ∷ answers) sources = cname_sources answers sources
cname_sources (cname host target ∷ answers) sources = cname_sources answers (
    if is_empty host || is_empty target
    then sources
    else put (to_ascii_lowercase target) host sources)

-- `for _ in 0..8`, broken off by an alias without a source.
unfoldable pub follow_aliases : ℕ → List (Text × Text) → Text → Text
follow_aliases zero sources current = current
follow_aliases (suc rounds) sources current = elim (get (to_ascii_lowercase current) sources) [
  | none ↦ current
  | some source ↦ follow_aliases rounds sources source
]

unfoldable pub dns_response_host_for_address : Text → Text → List (Text × Text) → Text
dns_response_host_for_address host question_name sources =
    or_else (follow_aliases 8 sources (or_else host question_name)) question_name

abbrev pub DnsRecord : Type 0
DnsRecord = IpAddr × Text × ℕ

unfoldable pub address_records : Text → List (Text × Text) → List DnsAnswer → List DnsRecord
address_records question_name sources [] = []
address_records question_name sources (cname host target ∷ answers) =
    address_records question_name sources answers
address_records question_name sources (address host ip ttl ∷ answers) =
    (ip, dns_response_host_for_address host question_name sources, ttl)
    ∷ address_records question_name sources answers

unfoldable pub dns_records_from_answers : Text → List DnsAnswer → List DnsRecord
dns_records_from_answers question_name answers =
    address_records question_name (cname_sources answers []) answers

-- What a message without its records gives.
abbrev pub or_no_records : Outcome (List DnsRecord) → Outcome (List DnsRecord)
or_no_records rejects = returns []
or_no_records o = o

unfoldable pub response_records : Bytes → Outcome (List DnsRecord)
unfolding skip_questions read_answers
response_records response = if ltb (length response) 12 then rejects else do
  qdcount ← u16_at response 4
  ancount ← u16_at response 6
  offset ← skip_questions qdcount response 12
  question_name ← first_name qdcount response
  answers ← read_answers ancount response question_name offset
  returns (dns_records_from_answers question_name answers)

-- Every `return Vec::new()` of the source is a rejection here.
unfoldable pub parse_dns_response_records : Bytes → Outcome (List DnsRecord)
parse_dns_response_records response = or_no_records (response_records response)
