-- ===== src/DnsCache/Life.antt =====
-- The life of a cached response.
use paws.Base.{
  not, subst, sym, ℕ, ◌*◌, ◌≤◌, ◌≡◌, refl, Bool, true, false, Option, none, some, List, ◌∷◌, ltb,
  leb, if◌then◌else◌, length, arith, text_eq, clamp, saturating_add64,
}
use paws.Base.Bytes.{Bytes}
use paws.Base.Assoc.{get, remove, get-put}
use paws.Base.Outcome.{Outcome, panics, rejects, returns, ◌>>=◌, Returns, Returns-then}
use paws.DnsMessage.{DnsRecord, dns_cache_key}
use paws.DnsCache.{
  DnsResponseCacheRecord, Cache, insert_response, lookup_response, lookup_found, answer_from,
  cache_room, store, least_ttl, dns_cache_max_ttl,
}
use paws.DnsCache.Reuse.{Answers, answer_from-Returns, dns_cache_key-Safe}

-- When the stored response expires.
abbrev pub expiry : ℕ → DnsRecord → List DnsRecord → ℕ
expiry now r records = saturating_add64 now (clamp 1 dns_cache_max_ttl (least_ttl r records) * 1000)

-- An answer out of the unchanged cache before the expiry, and the removal of the entry after it.
abbrev pub IsReuse : Bytes → Bytes → Bytes → Cache → Bool → Cache × Option Bytes → Type 0
IsReuse response query key cache true (cache', some r) = (cache' ≡ cache) × Answers response query r
IsReuse response query key cache true (cache', none) = ⊥
IsReuse response query key cache false x = x ≡ (remove key cache, none)

IsReuse-while :
    (live : Bool) (later : ℕ) (query key : Bytes) (filled : Cache) (stored : DnsResponseCacheRecord)
    → 12 ≤ length stored.response
    → 12 ≤ length query
    → Returns (IsReuse stored.response query key filled live) (
        if not live
        then returns (remove key filled, none)
        else answer_from later stored query >>= λ response. returns (filled, some response))
IsReuse-while true later query key filled stored whole whole' =
    Returns-then _ (IsReuse stored.response query key filled true) (answer_from later stored query)
      _ (answer_from-Returns later stored query whole whole') λ r a. (refl, a)
IsReuse-while false later query key filled stored whole whole' = refl

leb-not-ltb : (a b : ℕ) → leb a b ≡ not (ltb b a)
leb-not-ltb a b = ground arith

found-IsReuse :
    (later : ℕ) (query key : Bytes) (filled : Cache) (stored : DnsResponseCacheRecord)
    → 12 ≤ length stored.response
    → 12 ≤ length query
    → Returns
        (IsReuse stored.response query key filled (ltb later stored.expires_at_ms))
        (lookup_found later query key filled (some stored))
found-IsReuse later query key filled stored whole whole' =
    subst
      (λ b. Returns (IsReuse stored.response query key filled (ltb later stored.expires_at_ms)) (
        if b
        then returns (remove key filled, none)
        else answer_from later stored query >>= λ response. returns (filled, some response)))
      (sym (leb-not-ltb stored.expires_at_ms later))
      (IsReuse-while (ltb later stored.expires_at_ms) later query key filled stored whole whole')

-- The entry that storing a response leaves under its key.
stored_entry :
    (pruned_at now ttl : ℕ) (response key : Bytes) (cache filled : Cache) (o : Outcome Bytes)
    → o ≡ returns key
    → store pruned_at now response ttl cache o ≡ returns filled
    → get key filled
      ≡ some (record { response = response; expires_at_ms = saturating_add64 now (ttl * 1000) })
unfolding store
stored_entry pruned_at now ttl response key cache filled panics k h = absurd (ground arith)
stored_entry pruned_at now ttl response key cache filled rejects k h = absurd (ground arith)
stored_entry pruned_at now ttl response key cache filled (returns key') k h = ground (
  arith,
  get-put key' key
      (record { response = response; expires_at_ms = saturating_add64 now (ttl * 1000) })
      (cache_room pruned_at key' cache),
)

has_header : (query key : Bytes) → dns_cache_key query ≡ returns key → 12 ≤ length query
has_header query key k = ground (arith, dns_cache_key-Safe query)

-- A response with a whole header that was stored for a query answers, until its time to live is over, each query of the
-- same key: with the length of the stored response and the identifier of the new query. After that
-- the look-up removes the entry and finds nothing.
pub lookup-insert :
    (pruned_at now later : ℕ)
    → (query query' response key : Bytes) → (r : DnsRecord) → (records : List DnsRecord)
    → (cache filled : Cache) → dns_cache_key query ≡ returns key
    → dns_cache_key query' ≡ returns key
    → 12 ≤ length response
    → insert_response pruned_at now query response (r ∷ records) cache ≡ returns filled
    → Returns
        (IsReuse response query' key filled (ltb later (expiry now r records)))
        (lookup_response later query' filled)
unfolding lookup_response insert_response
lookup-insert pruned_at now later query query' response key r records cache filled k k' whole
      inserted =
    let ttl = clamp 1 dns_cache_max_ttl (least_ttl r records) in
    let stored : DnsResponseCacheRecord = record {
      response = response;
      expires_at_ms = expiry now r records;
    } in
    let there =
      stored_entry pruned_at now ttl response key cache filled (dns_cache_key query) k inserted in
    rw k' (rw there (found-IsReuse later query' key filled stored whole (has_header query' key k')))
