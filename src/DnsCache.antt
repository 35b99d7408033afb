-- ===== src/DnsCache.antt =====
-- crates/paws_vpn/src/dns.rs: the cache of DNS responses, and the handler of one query that reads
-- and fills it. Readings of the clock are arguments; where an operation reads it twice there are two.
pub mod Reuse
pub mod Entries
pub mod Lookup
pub mod Serving
pub mod Life
mod Examples
use paws.Base.{
  ℕ, zero, suc, ◌+◌, ◌-◌, ◌*◌, ◌/◌, ◌%◌, ◌^◌, Text, Bool, true, false, not, ◌&&◌, ◌||◌, Option,
  none, some, List, [], ◌∷◌, ◌++◌, ltb, leb, ◌==◌, text_eq, if◌then◌else◌, length, take, is_empty,
  is_some, min, clamp, saturating_add64,
}
use paws.Base.Bytes.{Bytes, Endian}
use paws.Base.Assoc.{get, put, remove, remove_min}
use paws.Base.Outcome.{Outcome, panics, rejects, returns, ◌>>=◌, range, overwrite}
use paws.DnsTable.{IpAddr, Records, insert}
use paws.DnsMessage.{DnsRecord, dns_cache_key, parse_dns_response_records}
use paws.DnsMessage.Rewriting.{
  rewrite_dns_response_question, rewrite_dns_response_ttls, build_dns_error_response, serv_fail,
}
use paws.Packet.{build_udp_packet}

pub record DnsResponseCacheRecord : Type 0 where
  pub response : Bytes
  pub expires_at_ms : ℕ

abbrev pub Cache : Type 0
Cache = List (Bytes × DnsResponseCacheRecord)

abbrev pub dns_cache_max_ttl : ℕ
dns_cache_max_ttl = 300

abbrev pub dns_cache_max_records : ℕ
dns_cache_max_records = 512

-- `prune_expired_dns_cache_records`
unfoldable pub prune_cache : ℕ → Cache → Cache
prune_cache now [] = []
prune_cache now ((key, record_) ∷ cache) =
    let rest = prune_cache now cache in
    if ltb now record_.expires_at_ms then (key, record_) ∷ rest else rest

-- `evict_earliest_dns_cache_record`
pub evict_cache : Cache → Cache
evict_cache = remove_min (λ (r : DnsResponseCacheRecord). r.expires_at_ms)

-- `response[0..2].copy_from_slice(&query[0..2])`, where both are that long.
pub copy_id : Bytes → Bytes → Outcome Bytes
copy_id response query =
    if leb 2 (length response) && leb 2 (length query)
    then range query 0 2 >>= overwrite response 0 2
    else returns response

-- The seconds that are left, rounded up, as a `u32` of at least one.
abbrev pub remaining_ttl : ℕ → ℕ → ℕ
remaining_ttl now expires_at_ms =
    clamp 1 (2 ^ 32 - 1) (saturating_add64 (expires_at_ms - now) 999 / 1000)

-- A cached response made an answer to this query.
pub answer_from : ℕ → DnsResponseCacheRecord → Bytes → Outcome Bytes
unfolding copy_id
answer_from now record_ query = do
  named ← copy_id record_.response query
  asked ← rewrite_dns_response_question named query
  rewrite_dns_response_ttls asked (remaining_ttl now record_.expires_at_ms)

abbrev pub lookup_found :
    ℕ → Bytes → Bytes → Cache → Option DnsResponseCacheRecord → Outcome (Cache × Option Bytes)
lookup_found now query key cache none = returns (cache, none)
lookup_found now query key cache (some record_) =
    if leb record_.expires_at_ms now
    then returns (remove key cache, none)
    else do response ← answer_from now record_ query; returns (cache, some response)

abbrev pub lookup_key : ℕ → Bytes → Cache → Outcome Bytes → Outcome (Cache × Option Bytes)
lookup_key now query cache panics = panics
lookup_key now query cache rejects = returns (cache, none)
lookup_key now query cache (returns key) = lookup_found now query key cache (get key cache)

-- `DnsResponseCache::lookup`
pub lookup_response : ℕ → Bytes → Cache → Outcome (Cache × Option Bytes)
unfolding answer_from
lookup_response now query cache = lookup_key now query cache (dns_cache_key query)

abbrev pub least_ttl : DnsRecord → List DnsRecord → ℕ
least_ttl (ip, host, ttl) [] = ttl
least_ttl (ip, host, ttl) (r ∷ records) = min ttl (least_ttl r records)

-- The cache with room for the key.
pub cache_room : ℕ → Bytes → Cache → Cache
cache_room now key cache =
    let pruned = prune_cache now cache in
    if not (is_some (get key pruned)) && leb dns_cache_max_records (length pruned)
    then evict_cache pruned
    else pruned

abbrev pub store : ℕ → ℕ → Bytes → ℕ → Cache → Outcome Bytes → Outcome Cache
unfolding cache_room
store pruned_at now response ttl cache panics = panics
store pruned_at now response ttl cache rejects = returns cache
store pruned_at now response ttl cache (returns key) = returns (
    put key (record { response = response; expires_at_ms = saturating_add64 now (ttl * 1000) })
      (cache_room pruned_at key cache))

-- `DnsResponseCache::insert`
pub insert_response : ℕ → ℕ → Bytes → Bytes → List DnsRecord → Cache → Outcome Cache
unfolding store
insert_response pruned_at now query response [] cache = returns cache
insert_response pruned_at now query response (r ∷ records) cache =
    store pruned_at now response (clamp 1 dns_cache_max_ttl (least_ttl r records)) cache
      (dns_cache_key query)

-- Every record of a response goes into the table; the clock is read twice for each, from the
-- reading `n` on.
pub insert_all : (ℕ → ℕ) → ℕ → List DnsRecord → Records → Records
insert_all clock n [] table = table
insert_all clock n ((ip, host, ttl) ∷ records) table =
    insert_all clock (n + 2) records (insert (clock n) (clock (n + 1)) ip host ttl table)

-- What a query leaves: the two stores, the counters of the cache and the reply.
pub record Handled : Type 0 where
  pub cache : Cache
  pub table : Records
  pub hits : ℕ
  pub misses : ℕ
  pub reply : Bytes

-- The addresses of a query: its source and its destination.
pub record Endpoints : Type 0 where
  pub src_ip : ℕ
  pub src_port : ℕ
  pub dst_ip : ℕ
  pub dst_port : ℕ

-- The reply goes back to where the query came from.
abbrev pub reply_packet : Endian → Endpoints → Bytes → Bytes
reply_packet e at response = build_udp_packet e at.dst_ip at.dst_port at.src_ip at.src_port response

abbrev pub count_miss : Outcome Bytes → ℕ
count_miss (returns key) = 1
count_miss o = 0

-- The resolver's response, or the error response where it has none.
abbrev pub resolve : Bytes → Option Bytes → Outcome Bytes
resolve query (some response) = returns response
resolve query none = build_dns_error_response query serv_fail

-- `handle_dns_query` on a cached response
abbrev pub serve_hit : Endian → (ℕ → ℕ) → Endpoints → Cache → Records → Bytes → Outcome Handled
unfolding insert_all
serve_hit e clock at cache table response = do
  records ← parse_dns_response_records response
  returns (record {
    cache = cache;
    table = insert_all clock 1 records table;
    hits = 1;
    misses = 0;
    reply = reply_packet e at response;
  })

-- `handle_dns_query` on a query that no cached response answers
abbrev pub serve_miss :
    Endian → (ℕ → ℕ) → Endpoints → Bytes → Option Bytes → Cache → Records → Outcome Handled
unfolding insert_response insert_all
serve_miss e clock at query resolved cache table = do
  response ← resolve query resolved
  records ← parse_dns_response_records response
  filled ← insert_response (clock 1) (clock 2) query response records cache
  returns (record {
    cache = filled;
    table = insert_all clock 3 records table;
    hits = 0;
    misses = count_miss (dns_cache_key query);
    reply = reply_packet e at response;
  })

abbrev pub serve :
    Endian
    → (ℕ → ℕ)
    → Endpoints
    → Bytes
    → Option Bytes
    → Records
    → Cache × Option Bytes
    → Outcome Handled
unfolding serve_hit serve_miss
serve e clock at query resolved table (cache, some response) =
    serve_hit e clock at cache table response
serve e clock at query resolved table (cache, none) =
    serve_miss e clock at query resolved cache table

-- `handle_dns_query`; `resolved` is what the resolver answers, `none` an error.
pub handle_dns_query :
    Endian → (ℕ → ℕ) → Endpoints → Bytes → Option Bytes → Cache → Records → Outcome Handled
unfolding lookup_response serve
handle_dns_query e clock at query resolved cache table = do
  found ← lookup_response (clock 0) query cache
  serve e clock at query resolved table found

-- `DnsResponseCache::clear`
pub clear_responses : Cache → Cache
clear_responses cache = []
