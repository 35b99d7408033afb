-- ===== src/DnsCache/Reuse.antt =====
-- What the cache hands out again: the stored response, made an answer to the query at hand.
use paws.Base.{ℕ, ◌≤◌, ◌≡◌, ◌∙◌, sym, refl, ap, [], ◌∷◌, length, take, arith, text_eq}
use paws.Base.Bytes.{Bytes}
use paws.Base.Outcome.{
  ◌>>=◌, Safe, Returns, Safe-bind, Returns-then, Returns-map, range, overwrite, range-front,
  overwrite-front, take-take,
}
use paws.DnsMessage.{dns_cache_key, parse_dns_query}
use paws.DnsMessage.Safety.{parse_dns_query-Safe}
use paws.DnsMessage.Rewriting.{rewrite_dns_response_question, rewrite_dns_response_ttls}
use paws.DnsMessage.Headers.{
  KeepsHeader, rewrite_dns_response_question-Returns, rewrite_dns_response_ttls-Returns,
}
use paws.DnsCache.{DnsResponseCacheRecord, copy_id, answer_from, remaining_ttl}

-- Only a query with a whole header has a key.
pub dns_cache_key-Safe : (query : Bytes) → Safe (λ key. 12 ≤ length query) (dns_cache_key query)
unfolding dns_cache_key
dns_cache_key-Safe query =
    Safe-bind _ _ (parse_dns_query query) _ (parse_dns_query-Safe query)
      λ question ends. omega (arith, ends)

-- The answer has the length of the cached response and the identifier of the query.
abbrev pub Answers : Bytes → Bytes → Bytes → Type 0
Answers response query r = (length r ≡ length response) × (take 2 r ≡ take 2 query)

id_lem : (id : Bytes) → length id ≡ 2 → id ≡ take 2 id
id_lem [] size = absurd (omega arith)
id_lem (b ∷ []) size = absurd (omega arith)
id_lem (b ∷ c ∷ []) size = refl
id_lem (b ∷ c ∷ d ∷ rest) size = absurd (omega arith)

copy_id-Returns :
    (response query : Bytes)
    → 12 ≤ length response
    → 12 ≤ length query
    → Returns (Answers response query) (copy_id response query)
unfolding copy_id
copy_id-Returns response query whole whole' =
    let copied : Returns (Answers response query) (range query 0 2 >>= overwrite response 0 2) =
      Returns-then _ _ (range query 0 2) _ (range-front 2 2 query (omega arith) (omega arith))
        λ id front.
          Returns-map _ _ (overwrite response 0 2 id)
            (overwrite-front response 2 id front.0 (omega arith))
            λ r k. (k.0, k.1 ∙ id_lem id front.0 ∙ front.1) in
    ground (arith, copied)

KeepsHeader-id : (response r : Bytes) → KeepsHeader response r → take 2 r ≡ take 2 response
KeepsHeader-id response r kept =
    sym (take-take 2 12 r (omega arith))
    ∙ ap (take 2) kept.1
    ∙ take-take 2 12 response (omega arith)

pub answer_from-Returns :
    (now : ℕ) (record_ : DnsResponseCacheRecord) (query : Bytes)
    → 12 ≤ length record_.response
    → 12 ≤ length query
    → Returns (Answers record_.response query) (answer_from now record_ query)
unfolding answer_from
answer_from-Returns now record_ query whole whole' =
    Returns-then _ _ (copy_id record_.response query) _
      (copy_id-Returns record_.response query whole whole')
      λ named n.
        Returns-then _ _ (rewrite_dns_response_question named query) _
          (rewrite_dns_response_question-Returns named query (omega (arith, n)) whole')
          λ asked a.
            Returns-map _ _
              (rewrite_dns_response_ttls asked (remaining_ttl now record_.expires_at_ms))
              (rewrite_dns_response_ttls-Returns asked (remaining_ttl now record_.expires_at_ms))
              λ r k.
                (k.0 ∙ a.0 ∙ n.0, KeepsHeader-id asked r k ∙ KeepsHeader-id named asked a ∙ n.1)
