-- ===== src/DnsTable/Lookup.antt =====
-- What a lookup in the DNS table can answer.
use paws.Base.{
  ℕ, ◌<◌, not, ◌≡◌, ◌∙◌, refl, Text, true, false, Option, none, some, List, [], ◌∷◌, arith,
  if◌then◌else◌, is_empty, ltb, saturating_add64,
}
use paws.Base.{eq_ignore_ascii_case}
use paws.Base.Assoc.{get, Distinct, get-put, get-remove_min-none}
use paws.DnsTable.Candidates.{DnsTableRecord, retain_live, has_host, earliest_expiry}
use paws.DnsTable.{
  IpAddr, ip_eq, Records, prune, add_candidate, or_default, make_room, evict_earliest, insert,
  lookup, lookup_host, single_host, has_candidates, ttl_ms,
}
use paws.DnsTable.Invariant.{IsTable, insert-IsTable, get-prune-none}

-- What pruning leaves of the candidates of one address.
abbrev pub live_of : ℕ → Option (List DnsTableRecord) → Option (List DnsTableRecord)
live_of now none = none
live_of now (some rs) = if is_empty (retain_live now rs) then none else some (retain_live now rs)

get-prune :
    (ip : IpAddr) (now : ℕ) (m : Records)
    → Distinct m
    → get ip (prune now m) ≡ live_of now (get ip m)
unfolding get prune
get-prune ip now [] d = refl
get-prune ip now ((j, w) ∷ m) d = ground (arith, get-prune ip now m d.1, get-prune-none j now m d.0)

live_candidates : ℕ → IpAddr → Records → List DnsTableRecord
live_candidates now ip m = retain_live now (or_default (get ip m))

lookup-single_host :
    (now : ℕ) (ip : IpAddr) (m : Records)
    → Distinct m
    → (lookup now ip m).1 ≡ single_host (live_candidates now ip m)
unfolding lookup live_candidates
lookup-single_host now ip m d = rw (get-prune ip now m d) (go (get ip m))
  where
    go :
        (o : Option (List DnsTableRecord))
        → lookup_host (live_of now o) ≡ single_host (retain_live now (or_default o))
    go none = unfold retain_live in refl
    go (some rs) = ground arith

has_candidates-live :
    (now : ℕ) (ip : IpAddr) (m : Records)
    → Distinct m
    → (has_candidates now ip m).1 ≡ not (is_empty (live_candidates now ip m))
unfolding has_candidates live_candidates
has_candidates-live now ip m d = rw (get-prune ip now m d) (go (get ip m))
  where
    go :
        (o : Option (List DnsTableRecord))
        → not (is_empty (or_default (live_of now o)))
          ≡ not (is_empty (retain_live now (or_default o)))
    go none = unfold retain_live in refl
    go (some rs) = ground arith

-- When an inserted record expires.
abbrev pub expiry : ℕ → ℕ → ℕ
expiry now ttl = saturating_add64 now (ttl_ms ttl)

make_room-none :
    (p : ℕ) (ip : IpAddr) (m : Records) → get ip m ≡ none → get ip (make_room p ip m) ≡ none
unfolding make_room evict_earliest
make_room-none p ip m h =
    ground (arith, get-prune-none ip p m h, get-remove_min-none earliest_expiry ip (prune p m))

insert_fresh :
    (p now : ℕ) (ip : IpAddr) (host : Text) (ttl : ℕ) (m : Records)
    → get ip m ≡ none
    → get ip (insert p now ip host ttl m)
      ≡ some (record { host = host; expires_at_ms = expiry now ttl } ∷ [])
unfolding insert add_candidate has_host
insert_fresh p now ip host ttl m h = ground (
  arith,
  make_room-none p ip m h,
  get-put ip ip (record { host = host; expires_at_ms = expiry now ttl } ∷ []) (make_room p ip m),
)

-- The first host inserted for an address is the answer for that address until its time to live,
-- clamped to between one second and one hour, has run out, and there is no answer from then on,
-- however full the table was.
pub lookup-insert_fresh :
    (p now t : ℕ) (ip : IpAddr) (host : Text) (ttl : ℕ) (m : Records)
    → IsTable m
    → get ip m ≡ none
    → (lookup t ip (insert p now ip host ttl m)).1
      ≡ (if ltb t (expiry now ttl) then some host else none)
lookup-insert_fresh p now t ip host ttl m v h =
    lookup-single_host t ip (insert p now ip host ttl m)
      (insert-IsTable p now ip host ttl m v).distinct
    ∙ unfold live_candidates retain_live in rw (insert_fresh p now ip host ttl m h) (ground arith)

insert_second :
    (p now : ℕ) (ip : IpAddr) (r : DnsTableRecord) (host : Text) (ttl : ℕ) (m : Records)
    → Distinct m
    → get ip m ≡ some (r ∷ [])
    → p < r.expires_at_ms
    → eq_ignore_ascii_case r.host host ≡ false
    → get ip (insert p now ip host ttl m)
      ≡ some (r ∷ record { host = host; expires_at_ms = expiry now ttl } ∷ [])
unfolding insert add_candidate has_host make_room retain_live
insert_second p now ip r host ttl m d h live other = ground (
  arith,
  get-prune ip p m d,
  get-put ip ip (r ∷ record { host = host; expires_at_ms = expiry now ttl } ∷ []) (prune p m),
)

-- An address that two hosts, different up to case, resolve to gives no host while both are
-- unexpired, although it still has candidates: the table never guesses between them.
pub two_hosts_are_ambiguous :
    (p now t : ℕ) (ip : IpAddr) (r : DnsTableRecord) (host : Text) (ttl : ℕ) (m : Records)
    → IsTable m
    → get ip m ≡ some (r ∷ [])
    → eq_ignore_ascii_case r.host host ≡ false
    → p < r.expires_at_ms
    → t < r.expires_at_ms
    → t < expiry now ttl
    → ((lookup t ip (insert p now ip host ttl m)).1 ≡ none)
      × ((has_candidates t ip (insert p now ip host ttl m)).1 ≡ true)
two_hosts_are_ambiguous p now t ip r host ttl m v h other lp lt le =
    let d = (insert-IsTable p now ip host ttl m v).distinct in
    let second = insert_second p now ip r host ttl m v.distinct h lp other in
    let m' : Records = insert p now ip host ttl m in
    (
      lookup-single_host t ip m' d ∙ unfold live_candidates retain_live in rw second (ground arith),
      has_candidates-live t ip m' d
          ∙ unfold live_candidates retain_live in rw second (ground arith),
    )
