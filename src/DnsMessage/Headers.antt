-- ===== src/DnsMessage/Headers.antt =====
-- Rewriting a DNS message and answering with an error: in range, and the header stays.
use paws.Base.{
  Bool-cases, inl, inr, ℕ, zero, suc, ◌+◌, ◌≤◌, ◌≡◌, ◌∙◌, refl, not, ◌||◌, Option, none, some, ltb,
  ◌==◌, nat_eq, length, take, arith,
}
use paws.Base.Bytes.{Bytes}
use paws.Base.Outcome.{
  Outcome, panics, rejects, returns, Safe, Returns, Safe-bind, Returns-bind, Safe-guard,
  Returns-Safe, Returns-map, range, overwrite, range-Returns, overwrite-Returns, u16_at-Returns,
  u16_at-bind,
}
use paws.DnsMessage.Names.{read_dns_name}
use paws.DnsMessage.Reading.{read_dns_name-Safe}
use paws.DnsMessage.Safety.{skip_questions-Safe}
use paws.DnsMessage.{skip_questions}
use paws.DnsMessage.Rewriting.{
  parse_dns_question_end, or_unchanged, copy_question, rewrite_dns_response_question, be_bytes32,
  rewrite_ttl, rewrite_ttls, rewrite_dns_response_ttls,
}

-- The message keeps its length and its header.
abbrev pub KeepsHeader : Bytes → Bytes → Type 0
KeepsHeader response r = (length r ≡ length response) × (take 12 r ≡ take 12 response)

pub parse_dns_question_end-Safe :
    (query : Bytes)
    → 12 ≤ length query
    → Safe (λ end. 12 ≤ end × end ≤ length query) (parse_dns_question_end query)
unfolding parse_dns_question_end
parse_dns_question_end-Safe query whole =
    ground (arith, u16_at-Returns query 4, read_dns_name-Safe query 12)

copy_question-Safe :
    (response query : Bytes) (q r : ℕ)
    → 12 ≤ q
    → q ≤ length query
    → r ≤ length response
    → Safe (KeepsHeader response) (copy_question response query q r)
copy_question-Safe response query q r after inside inside' =
    Safe-guard _ (not (q == r) || ltb (length response) q) _ λ same.
      Returns-bind _ _ (range query 12 q) _ (range-Returns query 12 q after inside) λ question size.
        Returns-Safe _ (overwrite response 12 q question)
          (overwrite-Returns 12 response 12 q question (omega arith) after (ground arith) size)

or_unchanged-Returns :
    (P : Bytes → Type 0) (response : Bytes) (o : Outcome Bytes)
    → P response
    → Safe P o
    → Returns P (or_unchanged response o)
or_unchanged-Returns P response panics p safe = safe
or_unchanged-Returns P response rejects p safe = p
or_unchanged-Returns P response (returns r) p safe = safe

pub rewrite_dns_response_question-Returns :
    (response query : Bytes)
    → 12 ≤ length response
    → 12 ≤ length query
    → Returns (KeepsHeader response) (rewrite_dns_response_question response query)
unfolding rewrite_dns_response_question
rewrite_dns_response_question-Returns response query whole whole' =
    or_unchanged-Returns (KeepsHeader response) response _ (refl, refl)
      (Safe-bind _ _ (parse_dns_question_end query) _ (parse_dns_question_end-Safe query whole')
        λ q at.
          Safe-bind _ _ (parse_dns_question_end response) _
            (parse_dns_question_end-Safe response whole)
            λ r at'. copy_question-Safe response query q r at.0 at.1 at'.1)

-- The header is kept, and the loop goes on behind it.
abbrev TtlIsGood : Bytes → Bytes × Option ℕ → Type 0
TtlIsGood response (r, none) = KeepsHeader response r
TtlIsGood response (r, some next) = KeepsHeader response r × 12 ≤ next

rewrite_ttl-Safe :
    (ttl : ℕ) (response : Bytes) (offset : ℕ)
    → 12 ≤ offset
    → Safe (TtlIsGood response) (rewrite_ttl ttl response offset)
unfolding rewrite_ttl
rewrite_ttl-Safe ttl response offset after =
    Safe-bind _ _ (read_dns_name response offset) _ (read_dns_name-Safe response offset) λ x moved.
      Safe-guard _ (ltb (length response) (x.1 + 10)) _ λ fits.
        Returns-bind _ _ (overwrite response (x.1 + 4) (x.1 + 8) (be_bytes32 ttl)) _
          (overwrite-Returns 12 response (x.1 + 4) (x.1 + 8) (be_bytes32 ttl) (omega arith)
            (omega arith) (ground arith) (omega arith))
          λ rewritten kept. u16_at-bind _ rewritten (x.1 + 8) _ (ground arith) λ rdlen.
            elim (Bool-cases (ltb (length rewritten) (x.1 + 10 + rdlen))) [
              | inl last ↦ ground arith
              | inr more ↦ ground arith
            ]

KeepsHeader-trans : (a b c : Bytes) → KeepsHeader a b → KeepsHeader b c → KeepsHeader a c
KeepsHeader-trans a b c h k = (k.0 ∙ h.0, k.1 ∙ h.1)

rewrite_ttls-Returns :
    (count ttl : ℕ) (response : Bytes) (offset : ℕ)
    → 12 ≤ offset
    → Returns (KeepsHeader response) (rewrite_ttls count ttl response offset)
unfolding rewrite_ttls
rewrite_ttls-Returns zero ttl response offset after = (refl, refl)
rewrite_ttls-Returns (suc count) ttl response offset after =
    go (rewrite_ttl ttl response offset) (rewrite_ttl-Safe ttl response offset after)
      (rewrite_ttls-Returns count ttl)
  where
    go :
        (o : Outcome (Bytes × Option ℕ))
        → Safe (TtlIsGood response) o
        → ((r : Bytes) (next : ℕ)
            → 12 ≤ next
            → Returns (KeepsHeader r) (rewrite_ttls count ttl r next))
        → Returns (KeepsHeader response) (elim o [
          | panics ↦ panics
          | rejects ↦ returns response
          | returns (rewritten, none) ↦ returns rewritten
          | returns (rewritten, some next) ↦ rewrite_ttls count ttl rewritten next
        ])
    go panics safe ih = safe
    go rejects safe ih = (refl, refl)
    go (returns (r, none)) safe ih = safe
    go (returns (r, some next)) safe ih =
        Returns-map (KeepsHeader r) (KeepsHeader response) (rewrite_ttls count ttl r next)
          (ih r next safe.1) λ c kept. KeepsHeader-trans response r c safe.0 kept

-- Putting a time to live in the answers never panics and keeps the header and the length of any
-- response, even where its records do not parse.
pub rewrite_dns_response_ttls-Returns :
    (response : Bytes) (ttl : ℕ)
    → Returns (KeepsHeader response) (rewrite_dns_response_ttls response ttl)
unfolding rewrite_dns_response_ttls
rewrite_dns_response_ttls-Returns response ttl =
    or_unchanged-Returns (KeepsHeader response) response _ (refl, refl)
      (Safe-guard _ (ltb (length response) 12) _ λ whole.
        u16_at-bind _ response 4 _ (ground arith) λ qdcount.
          u16_at-bind _ response 6 _ (ground arith) λ ancount.
            Safe-bind _ _ (skip_questions qdcount response 12) _
              (skip_questions-Safe qdcount response 12 (ground arith))
              λ offset at.
                Returns-Safe _ (rewrite_ttls ancount ttl response offset)
                  (rewrite_ttls-Returns ancount ttl response offset at.0))
