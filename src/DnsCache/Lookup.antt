-- ===== src/DnsCache/Lookup.antt =====
-- What a look-up leaves in the cache, and what it answers with.
use paws.Base.{
  ℕ, ◌≤◌, ◌≡◌, Option, none, some, [], ◌∷◌, length, take, arith, text_eq, Option-cases, inl, inr,
}
use paws.Base.Bytes.{Bytes}
use paws.Base.Assoc.{get, remove, remove-Distinct, remove-All, get-All}
use paws.Base.Outcome.{Outcome, panics, rejects, returns, Safe, Returns, Returns-then}
use paws.DnsMessage.{dns_cache_key}
use paws.DnsCache.{
  DnsResponseCacheRecord, Cache, lookup_found, lookup_key, lookup_response, answer_from,
}
use paws.DnsCache.Entries.{HasHeader, IsCache}
use paws.DnsCache.Reuse.{dns_cache_key-Safe, answer_from-Returns}

-- A look-up leaves the invariant and answers with a message of a whole header, if at all.
abbrev pub LooksUp : Bytes → Cache × Option Bytes → Type 0
LooksUp query (m, none) = IsCache m
LooksUp query (m, some r) = IsCache m × (12 ≤ length r) × (take 2 r ≡ take 2 query)

length-remove-le : (key : Bytes) (m : Cache) → length (remove key m) ≤ length m
unfolding remove
length-remove-le key [] = omega arith
length-remove-le key ((j, r) ∷ m) = ground (arith, length-remove-le key m)

lookup_found-Returns :
    (now : ℕ) (query key : Bytes) (m : Cache)
    → IsCache m
    → 12 ≤ length query
    → Returns (LooksUp query) (lookup_found now query key m (get key m))
lookup_found-Returns now query key m t whole = elim (Option-cases (get key m)) [
  | inl absent ↦ rw absent t
  | inr (record_, found) ↦
      rw found (found_case record_ (get-All HasHeader key record_ m t.good found))
]
  where
    removed : IsCache (remove key m)
    removed = record {
      distinct = remove-Distinct key m t.distinct;
      good = remove-All (λ (x : Bytes × DnsResponseCacheRecord). HasHeader x.1) key m t.good;
      bounded = omega (arith, length-remove-le key m, t.bounded);
    }

    found_case :
        (record_ : DnsResponseCacheRecord)
        → HasHeader record_
        → Returns (LooksUp query) (lookup_found now query key m (some record_))
    found_case record_ whole' = ground (
      arith,
      removed,
      Returns-then _ (LooksUp query) (answer_from now record_ query)
          (λ response. returns (m, some response))
          (answer_from-Returns now record_ query whole' whole)
          λ r a. (t, omega (arith, a, whole'), a.1),
    )

pub lookup_response-Returns :
    (now : ℕ) (query : Bytes) (m : Cache)
    → IsCache m
    → Returns (LooksUp query) (lookup_response now query m)
unfolding lookup_response
lookup_response-Returns now query m t = go (dns_cache_key query) (dns_cache_key-Safe query)
  where
    go :
        (o : Outcome Bytes)
        → Safe (λ key. 12 ≤ length query) o
        → Returns (LooksUp query) (lookup_key now query m o)
    go panics safe = safe
    go rejects safe = t
    go (returns key) safe = lookup_found-Returns now query key m t safe
