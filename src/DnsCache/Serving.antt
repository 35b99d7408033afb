-- ===== src/DnsCache/Serving.antt =====
-- The handler of a query on top of the cache and the table, and the life of a cached response.
use paws.Base.{ℕ, ◌+◌, ◌≤◌, Option, none, some, List, [], ◌∷◌, arith, text_eq}
use paws.Base.Bytes.{Bytes, Endian}
use paws.Base.Outcome.{Outcome, panics, rejects, returns, Returns, Returns-then, Returns-map}
use paws.DnsTable.{Records}
use paws.DnsTable.Invariant.{IsTable, insert-IsTable}
use paws.DnsMessage.{DnsRecord, dns_cache_key, parse_dns_response_records}
use paws.DnsMessage.Safety.{parse_dns_response_records-Returns}
use paws.DnsMessage.Rewriting.{build_dns_error_response, serv_fail}
use paws.DnsMessage.Errors.{build_dns_error_response-Returns}
use paws.DnsCache.{
  Cache, Handled, Endpoints, handle_dns_query, serve, resolve, insert_all, insert_response,
  lookup_response, count_miss,
}
use paws.DnsCache.Entries.{IsCache, insert_response-IsCache}
use paws.DnsCache.Lookup.{LooksUp, lookup_response-Returns}

insert_all-IsTable :
    (clock : ℕ → ℕ) (n : ℕ) (records : List DnsRecord) (table : Records)
    → IsTable table
    → IsTable (insert_all clock n records table)
unfolding insert_all
insert_all-IsTable clock n [] table t = t
insert_all-IsTable clock n ((ip, host, ttl) ∷ records) table t =
    insert_all-IsTable clock (n + 2) records _
      (insert-IsTable (clock n) (clock (n + 1)) ip host ttl table t)

-- Both stores are in order, and at most one counter has moved.
abbrev pub IsHandled : Handled → Type 0
IsHandled h = IsCache h.cache × IsTable h.table × (h.hits + h.misses ≤ 1)

resolve-Returns :
    (query : Bytes) (resolved : Option Bytes) → Returns (λ r. Unit {0}) (resolve query resolved)
resolve-Returns query none =
    Returns-map _ _ (build_dns_error_response query serv_fail)
      (build_dns_error_response-Returns query serv_fail) λ r h. tt
resolve-Returns query (some response) = tt

count_miss-le : (key : Outcome Bytes) → 0 + count_miss key ≤ 1
count_miss-le panics = omega arith
count_miss-le rejects = omega arith
count_miss-le (returns key) = omega arith

serve-Returns :
    (e : Endian) (clock : ℕ → ℕ) (at : Endpoints) (query : Bytes) (resolved : Option Bytes)
    → (table : Records) (found : Cache × Option Bytes) → LooksUp query found
    → IsTable table
    → Returns IsHandled (serve e clock at query resolved table found)
unfolding serve
serve-Returns e clock at query resolved table (cache, some response) (c, header, id) t =
    Returns-then _ IsHandled (parse_dns_response_records response) _
      (parse_dns_response_records-Returns response)
      λ records _. (c, insert_all-IsTable clock 1 records table t, omega arith)
serve-Returns e clock at query resolved table (cache, none) c t =
    Returns-then _ IsHandled (resolve query resolved) _ (resolve-Returns query resolved)
      λ response _.
        Returns-then _ IsHandled (parse_dns_response_records response) _
          (parse_dns_response_records-Returns response)
          λ records whole.
            Returns-then _ IsHandled
              (insert_response (clock 1) (clock 2) query response records cache) _
              (insert_response-IsCache (clock 1) (clock 2) query response records cache c whole)
              λ filled c'. (
                c',
                insert_all-IsTable clock 3 records table t,
                count_miss-le (dns_cache_key query),
              )

-- Handling a query never panics and always replies: on any bytes of the query, on any response of
-- the resolver or an error of it, and whatever the clock reads, the cache and the table keep their
-- invariants, and at most one of the counters of hits and misses moves, by one.
pub handle_dns_query-Returns :
    (e : Endian) (clock : ℕ → ℕ) (at : Endpoints) (query : Bytes) (resolved : Option Bytes)
    → (cache : Cache) (table : Records) → IsCache cache
    → IsTable table
    → Returns IsHandled (handle_dns_query e clock at query resolved cache table)
unfolding handle_dns_query
handle_dns_query-Returns e clock at query resolved cache table c t =
    Returns-then _ IsHandled (lookup_response (clock 0) query cache) _
      (lookup_response-Returns (clock 0) query cache c)
      λ found looked. serve-Returns e clock at query resolved table found looked t
