-- ===== src/DnsCache/Entries.antt =====
-- The entries of the cache: bounded, one for a key, each with a whole header.
use paws.Base.{
  ℕ, ◌*◌, ◌≤◌, ◌<◌, ◌≡◌, ◌⊎◌, Bool, true, false, not, ◌&&◌, none, List, [], ◌∷◌, leb, if◌then◌else◌,
  length, All, arith, text_eq, is_some, clamp, saturating_add64,
}
use paws.Base.Bytes.{Bytes}
use paws.Base.Assoc.{
  get, Distinct, put-Distinct, length-put, put-All, remove_min, length-remove_min,
  remove_min-Distinct, remove_min-All,
}
use paws.Base.Outcome.{Outcome, panics, rejects, returns, Safe, Safe-map, Returns}
use paws.DnsMessage.{DnsRecord, dns_cache_key}
use paws.DnsCache.{
  DnsResponseCacheRecord, Cache, prune_cache, evict_cache, cache_room, store, insert_response,
  least_ttl, dns_cache_max_ttl,
}
use paws.DnsCache.Reuse.{dns_cache_key-Safe}

abbrev pub HasHeader : DnsResponseCacheRecord → Type 0
HasHeader r = 12 ≤ length r.response

-- One entry for a key, at most 512 of them, each response with a whole header.
pub record IsCache (cache : Cache) : Type 0 where
  pub distinct : Distinct cache
  pub good : All (λ (x : Bytes × DnsResponseCacheRecord). HasHeader x.1) cache
  pub bounded : length cache ≤ 512

get-prune_cache-none :
    (now : ℕ) (key : Bytes) (m : Cache) → get key m ≡ none → get key (prune_cache now m) ≡ none
unfolding get prune_cache
get-prune_cache-none now key [] h = h
get-prune_cache-none now key ((j, r) ∷ m) h = ground (arith, get-prune_cache-none now key m)

prune_cache-IsCache : (now : ℕ) (m : Cache) → IsCache m → IsCache (prune_cache now m)
unfolding prune_cache
prune_cache-IsCache now m t = record {
  distinct = distinct m t.distinct;
  good = good m t.good;
  bounded = omega (arith, shorter m, t.bounded);
}
  where
    distinct : (m : Cache) → Distinct m → Distinct (prune_cache now m)
    distinct [] d = d
    distinct ((j, r) ∷ m) d = ground (arith, distinct m d.1, get-prune_cache-none now j m d.0)

    good :
        (m : Cache)
        → All (λ (x : Bytes × DnsResponseCacheRecord). HasHeader x.1) m
        → All (λ (x : Bytes × DnsResponseCacheRecord). HasHeader x.1) (prune_cache now m)
    good [] a = a
    good ((j, r) ∷ m) a = ground (arith, good m a.1)

    shorter : (m : Cache) → length (prune_cache now m) ≤ length m
    shorter [] = omega arith
    shorter ((j, r) ∷ m) = ground (arith, shorter m)

evict_cache-IsCache : (m : Cache) → IsCache m → IsCache (evict_cache m)
unfolding evict_cache remove_min
evict_cache-IsCache m t = record {
  distinct = remove_min-Distinct (λ (r : DnsResponseCacheRecord). r.expires_at_ms) m t.distinct;
  good =
      remove_min-All (λ (x : Bytes × DnsResponseCacheRecord). HasHeader x.1)
        (λ (r : DnsResponseCacheRecord). r.expires_at_ms) m t.good;
  bounded = shorter m t.bounded;
}
  where
    shorter :
        (m : Cache)
        → length m ≤ 512
        → length (remove_min (λ (r : DnsResponseCacheRecord). r.expires_at_ms) m) ≤ 512
    shorter [] h = omega arith
    shorter (x ∷ m) h =
        omega
          (arith, h, length-remove_min (λ (r : DnsResponseCacheRecord). r.expires_at_ms) (x ∷ m))

cache_room-IsCache :
    (now : ℕ) (key : Bytes) (m : Cache) → IsCache m → IsCache (cache_room now key m)
unfolding cache_room
cache_room-IsCache now key m t =
    let p = prune_cache-IsCache now m t in
    either (not (is_some (get key (prune_cache now m))) && leb 512 (length (prune_cache now m))) p
      (evict_cache-IsCache (prune_cache now m) p)
  where
    either : (b : Bool) → {m m' : Cache} → IsCache m → IsCache m' → IsCache (if b then m' else m)
    either true p q = q
    either false p q = p

cache_room_leaves_room :
    (now : ℕ) (key : Bytes) (m : Cache)
    → IsCache m
    → get key (cache_room now key m) ≡ none
    → length (cache_room now key m) < 512
unfolding cache_room evict_cache
cache_room_leaves_room now key m t absent =
    let p : length (prune_cache now m) ≤ 512 = (prune_cache-IsCache now m t).bounded in
    ground (
      arith,
      length-remove_min (λ (r : DnsResponseCacheRecord). r.expires_at_ms) (prune_cache now m),
    )

store-IsCache :
    (pruned_at now : ℕ) (response : Bytes) (ttl : ℕ) (m : Cache) (key : Outcome Bytes)
    → IsCache m
    → 12 ≤ length response
    → Safe (λ k. Unit {0}) key
    → Returns IsCache (store pruned_at now response ttl m key)
unfolding store
store-IsCache pruned_at now response ttl m panics t whole safe = safe
store-IsCache pruned_at now response ttl m rejects t whole safe = t
store-IsCache pruned_at now response ttl m (returns key) t whole safe =
    let roomy = cache_room pruned_at key m in
    let r = cache_room-IsCache pruned_at key m t in
    let record_ : DnsResponseCacheRecord = record {
      response = response;
      expires_at_ms = saturating_add64 now (ttl * 1000);
    } in
    record {
      distinct = put-Distinct key record_ roomy r.distinct;
      good = put-All HasHeader key record_ roomy whole r.good;
      bounded = ground (
        arith,
        r.bounded,
        length-put key record_ roomy,
        cache_room_leaves_room pruned_at key m t,
      );
    }

-- Filling the cache keeps its invariant, if a response with records has a whole header.
pub insert_response-IsCache :
    (pruned_at now : ℕ) (query response : Bytes) (records : List DnsRecord) (m : Cache)
    → IsCache m
    → (records ≡ []) ⊎ (12 ≤ length response)
    → Returns IsCache (insert_response pruned_at now query response records m)
unfolding insert_response
insert_response-IsCache pruned_at now query response [] m t whole = t
insert_response-IsCache pruned_at now query response (r ∷ records) m t whole =
    store-IsCache pruned_at now response (clamp 1 dns_cache_max_ttl (least_ttl r records)) m
      (dns_cache_key query) t (ground arith)
      (Safe-map _ _ (dns_cache_key query) (dns_cache_key-Safe query) λ k h. tt)
