-- ===== src/DnsCache/Examples.antt =====
-- An empty cache and a query for `a.b`: the theorems at them.
use paws.Base.{◌+◌, ◌≡◌, refl, true, some, [], ◌∷◌, text, arith}
use paws.Base.Bytes.{Bytes, little}
use paws.Base.Assoc.{put, get}
use paws.Base.Outcome.{returns, Returns}
use paws.DnsTable.{v4}
use paws.DnsMessage.Examples.{query, response, key_of_query}
use paws.DnsCache.{
  Cache, Endpoints, handle_dns_query, insert_response, lookup_response, store, cache_room,
  prune_cache,
}
use paws.DnsCache.Serving.{IsHandled, handle_dns_query-Returns}
use paws.DnsCache.Life.{IsReuse, lookup-insert}

abbrev at : Endpoints
at = record { src_ip = 1; src_port = 40000; dst_ip = 2; dst_port = 53 }

handle_dns_query-Returns_example :
    Returns IsHandled (handle_dns_query little (λ n. 1000 + n) at query (some response) [] [])
handle_dns_query-Returns_example =
    handle_dns_query-Returns little (λ n. 1000 + n) at query (some response) [] []
      (record { distinct = tt; good = tt; bounded = omega arith })
      (record { distinct = tt; good = tt; bounded = omega arith })

abbrev key : Bytes
key = 97 ∷ 46 ∷ 98 ∷ 0 ∷ 1 ∷ []

abbrev filled : Cache
filled = (key, record { response = response; expires_at_ms = 61000 }) ∷ []

inserted :
    insert_response 1000 1000 query response ((v4 0x0a000001, text "a.b", 60) ∷ []) []
    ≡ returns filled
unfolding insert_response store cache_room prune_cache put get
inserted = rw key_of_query refl

lookup-insert_example :
    Returns (IsReuse response query key filled true) (lookup_response 30000 query filled)
lookup-insert_example =
    lookup-insert 1000 1000 30000 query query response key (v4 0x0a000001, text "a.b", 60) [] []
      filled key_of_query key_of_query (omega arith) inserted
