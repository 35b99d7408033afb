-- ===== src/DnsTable.antt =====
-- crates/paws_vpn/src/dns.rs, `DnsTable`: which host names resolved to an address, with expiry.
-- A reading of the monotonic clock is an argument; where an operation reads it twice there are two.
-- The map under its mutex is an association list in its order of iteration.
pub mod Candidates
mod Hosts
pub mod Invariant
pub mod Lookup
mod Examples
use paws.Base.{
  ℕ, zero, suc, ◌+◌, ◌-◌, ◌*◌, ◌≤◌, ◌<◌, ◌≡◌, Text, Bool, true, false, not, ◌&&◌, Option, none,
  some, List, [], ◌∷◌, ◌++◌, Eq, ◌==◌, ltb, leb, if◌then◌else◌, length, is_empty, is_some,
  eq_ignore_ascii_case, clamp, saturating_add64, u64_max, ℕ_discrete, min,
}
use paws.Base.Assoc.{get, put, remove_min}
use Candidates.{DnsTableRecord, retain_live, has_host, refresh, remove_earliest, earliest_expiry}

pub data IpAddr : Type 0 where
  v4 v6 : ℕ → IpAddr

abbrev IpAddr-discrete : Discrete IpAddr
IpAddr-discrete = hlevel ℕ_discrete

instance abbrev pub ip_eq : Eq IpAddr
ip_eq = record { same = IpAddr-discrete }

abbrev pub Records : Type 0
Records = List (IpAddr × List DnsTableRecord)

abbrev pub dns_table_max_records : ℕ
dns_table_max_records = 1024

abbrev pub dns_table_max_hosts_per_ip : ℕ
dns_table_max_hosts_per_ip = 16

-- `prune_expired_dns_table_records`
pub prune : ℕ → Records → Records
prune now [] = []
prune now ((ip, candidates) ∷ records) =
    let kept = retain_live now candidates in
    let rest = prune now records in if is_empty kept then rest else (ip, kept) ∷ rest

-- `evict_earliest_dns_table_record`
pub evict_earliest : Records → Records
evict_earliest = remove_min earliest_expiry

-- What `insert` makes of the candidates of its address.
pub add_candidate : List DnsTableRecord → Text → ℕ → List DnsTableRecord
add_candidate candidates host expires_at_ms =
    if has_host host candidates
    then refresh host expires_at_ms candidates
    else (if leb dns_table_max_hosts_per_ip (length candidates)
        then remove_earliest candidates
        else candidates)
      ++ record { host = host; expires_at_ms = expires_at_ms } ∷ []

abbrev pub or_default {ℓ} : {A : Type ℓ} → Option (List A) → List A
or_default none = []
or_default (some xs) = xs

pub ttl_ms : ℕ → ℕ
ttl_ms ttl = clamp 1 3600 ttl * 1000

-- The pruned table with room for the address.
pub make_room : ℕ → IpAddr → Records → Records
make_room now ip records =
    let pruned = prune now records in
    if not (is_some (get ip pruned)) && leb dns_table_max_records (length pruned)
    then evict_earliest pruned
    else pruned

-- `pruned_at` and `now` are the two readings of the clock.
pub insert : ℕ → ℕ → IpAddr → Text → ℕ → Records → Records
unfolding make_room add_candidate
insert pruned_at now ip host ttl records =
    let roomy = make_room pruned_at ip records in
    put ip (add_candidate (or_default (get ip roomy)) host (saturating_add64 now (ttl_ms ttl)))
      roomy

abbrev pub single_host : List DnsTableRecord → Option Text
single_host (r ∷ []) = some r.host
single_host _ = none

abbrev pub lookup_host : Option (List DnsTableRecord) → Option Text
lookup_host none = none
lookup_host (some candidates) = single_host candidates

pub lookup : ℕ → IpAddr → Records → Records × Option Text
lookup now ip records = let pruned = prune now records in (pruned, lookup_host (get ip pruned))

pub has_candidates : ℕ → IpAddr → Records → Records × Bool
has_candidates now ip records =
    let pruned = prune now records in (pruned, not (is_empty (or_default (get ip pruned))))

-- `clear`, when the resolver's state is flushed
pub clear : Records → Records
clear records = []
