-- ===== src/DnsMessage/Errors.antt =====
-- Answering a query with an error: in range, with the identifier of the query.
use paws.Base.{
  ℕ, ◌+◌, ◌-◌, ◌≤◌, ◌≡◌, ◌∙◌, refl, Bool, true, false, [], ◌∷◌, ltb, nat_eq, if◌then◌else◌, length,
  take, arith,
}
use paws.Base.Bytes.{Bytes}
use paws.Base.Outcome.{
  Outcome, returns, ◌>>=◌, Returns, Returns-map, range, overwrite, range-front, Returns-then,
  overwrite-Returns,
}
use paws.DnsMessage.Headers.{parse_dns_question_end-Safe}
use paws.DnsMessage.Rewriting.{
  parse_dns_question_end, or_header, set_error, build_dns_error_response,
}

-- The error keeps the identifier of the query.
abbrev pub AnswersQuery : Bytes → Bytes → Type 0
AnswersQuery query r = (12 ≤ length r) × (length r ≤ length query) × (take 2 r ≡ take 2 query)

-- The response keeps its length and its first two bytes.
abbrev KeepsId : Bytes → Bytes → Type 0
KeepsId response r = (length r ≡ length response) × (take 2 r ≡ take 2 response)

KeepsId-overwrite :
    (response r : Bytes) (start end : ℕ) (source : Bytes)
    → KeepsId response r
    → 2 ≤ start
    → start ≤ end
    → end ≤ length response
    → length source ≡ end - start
    → Returns (KeepsId response) (overwrite r start end source)
KeepsId-overwrite response r start end source kept after order inside size =
    Returns-map _ (KeepsId response) (overwrite r start end source)
      (overwrite-Returns 2 r start end source after order (omega (arith, kept.0)) size)
      λ r' kept'. (kept'.0 ∙ kept.0, kept'.1 ∙ kept.1)

set_error-Returns :
    (code : ℕ) (response : Bytes)
    → 12 ≤ length response
    → Returns (KeepsId response) (set_error code response)
set_error-Returns code response whole =
    Returns-then _ _ (overwrite response 2 3 (0x81 ∷ [])) _
      (KeepsId-overwrite response response 2 3 (0x81 ∷ []) (refl, refl) (omega arith) (omega arith)
        (omega arith) refl)
      λ r1 k1.
        Returns-then _ _ (overwrite r1 3 4 ((0x80 + code) ∷ [])) _
          (KeepsId-overwrite response r1 3 4 ((0x80 + code) ∷ []) k1 (omega arith) (omega arith)
            (omega arith) refl)
          λ r2 k2.
            Returns-then _ _ (overwrite r2 6 8 (0 ∷ 0 ∷ [])) _
              (KeepsId-overwrite response r2 6 8 (0 ∷ 0 ∷ []) k2 (omega arith) (omega arith)
                (omega arith) refl)
              λ r3 k3.
                Returns-then _ _ (overwrite r3 8 10 (0 ∷ 0 ∷ [])) _
                  (KeepsId-overwrite response r3 8 10 (0 ∷ 0 ∷ []) k3 (omega arith) (omega arith)
                    (omega arith) refl)
                  λ r4 k4.
                    KeepsId-overwrite response r4 10 12 (0 ∷ 0 ∷ []) k4 (omega arith) (omega arith)
                      (omega arith) refl

or_header-Returns :
    (query : Bytes)
    → 12 ≤ length query
    → Returns
        (λ end. (12 ≤ end) × (end ≤ length query))
        (or_header query (parse_dns_question_end query))
or_header-Returns query whole = ground (arith, parse_dns_question_end-Safe query whole)

error_response :
    (query : Bytes) (code : ℕ)
    → 12 ≤ length query
    → Returns (AnswersQuery query) (do
      question_end ← or_header query (parse_dns_question_end query)
      response ← range query 0 question_end
      set_error code response)
error_response query code whole =
    Returns-then _ _ (or_header query (parse_dns_question_end query)) _
      (or_header-Returns query whole)
      λ end at.
        Returns-then _ _ (range query 0 end) _ (range-front 2 end query (omega (arith, at)) at.1)
          λ response front.
            Returns-map _ (AnswersQuery query) (set_error code response)
              (set_error-Returns code response (omega (arith, at, front)))
              λ r kept.
                (omega (arith, at, front, kept), omega (arith, at, front, kept), kept.1 ∙ front.1)

if-Returns :
    (b : Bool) (P Q : Bytes → Type 0) (o o' : Outcome Bytes)
    → Returns P o
    → (b ≡ false → Returns Q o')
    → Returns (λ r. if b then P r else Q r) (if b then o else o')
if-Returns true P Q o o' h k = h
if-Returns false P Q o o' h k = k refl

-- The error response to a query with a whole header is built without a panic; it has a whole header
-- too, is no longer than the query and keeps its identifier. A shorter query has no response.
pub build_dns_error_response-Returns :
    (query : Bytes) (code : ℕ)
    → Returns
        (λ r. if ltb (length query) 12 then r ≡ [] else AnswersQuery query r)
        (build_dns_error_response query code)
unfolding build_dns_error_response
build_dns_error_response-Returns query code =
    if-Returns (ltb (length query) 12) (λ r. r ≡ []) (AnswersQuery query) (returns []) _ refl
      λ whole. error_response query code (ground arith)
