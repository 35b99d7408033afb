-- ===== src/DnsTable/Invariant.antt =====
-- The bounds of the DNS table, and that every operation keeps them.
use paws.Base.{
  ℕ, ◌≤◌, ◌<◌, ◌≡◌, refl, inl, inr, Text, false, none, List, [], ◌∷◌, arith, if◌then◌else◌, length,
  length-append, All, is_empty, saturating_add64, Option-cases, Bool-cases, leb,
}
use paws.Base.Assoc.{
  get, Distinct, put-Distinct, remove_min-Distinct, length-put, length-remove_min, remove_min-All,
  put-All, get-All,
}
use paws.DnsTable.Candidates.{
  DnsTableRecord, DistinctHosts, retain_live, has_host, remove_earliest, earliest_expiry,
}
use paws.DnsTable.Hosts.{
  retain_live-DistinctHosts, length-retain_live-le, refresh-DistinctHosts, length-refresh,
  length-remove_earliest, has_host-remove_earliest, remove_earliest-DistinctHosts,
  push-DistinctHosts, has_host_pos,
}
use paws.DnsTable.{
  IpAddr, ip_eq, Records, prune, evict_earliest, add_candidate, or_default, make_room, insert,
  ttl_ms,
}

abbrev pub IsGood : List DnsTableRecord → Type 0
IsGood candidates = (1 ≤ length candidates) × (length candidates ≤ 16) × DistinctHosts candidates

-- One entry for an address, at most 1024 addresses, and for each from one to sixteen hosts, no two
-- of them equal up to case.
pub record IsTable (records : Records) : Type 0 where
  pub distinct : Distinct records
  pub good : All (λ (x : IpAddr × List DnsTableRecord). IsGood x.1) records
  pub bounded : length records ≤ 1024

retain_live-IsGood :
    (now : ℕ) (rs : List DnsTableRecord)
    → IsGood rs
    → is_empty (retain_live now rs) ≡ false
    → IsGood (retain_live now rs)
retain_live-IsGood now rs g e =
    ground (arith, retain_live-DistinctHosts now rs g.2, length-retain_live-le now rs)

pub get-prune-none :
    (ip : IpAddr) (now : ℕ) (m : Records) → get ip m ≡ none → get ip (prune now m) ≡ none
unfolding get prune
get-prune-none ip now [] h = refl
get-prune-none ip now ((j, w) ∷ m) h = ground (arith, get-prune-none ip now m)

pub prune-Distinct : (now : ℕ) (m : Records) → Distinct m → Distinct (prune now m)
unfolding prune
prune-Distinct now [] d = d
prune-Distinct now ((j, w) ∷ m) d =
    ground (arith, prune-Distinct now m d.1, get-prune-none j now m d.0)

prune-All :
    (now : ℕ) (m : Records)
    → All (λ (x : IpAddr × List DnsTableRecord). IsGood x.1) m
    → All (λ (x : IpAddr × List DnsTableRecord). IsGood x.1) (prune now m)
unfolding prune
prune-All now [] a = a
prune-All now ((j, w) ∷ m) a = ground (arith, prune-All now m a.1, retain_live-IsGood now w a.0)

pub length-prune-le : (now : ℕ) (m : Records) → length (prune now m) ≤ length m
unfolding prune
length-prune-le now [] = omega arith
length-prune-le now ((j, w) ∷ m) = ground (arith, length-prune-le now m)

pub prune-IsTable : (now : ℕ) (m : Records) → IsTable m → IsTable (prune now m)
prune-IsTable now m t = record {
  distinct = prune-Distinct now m t.distinct;
  good = prune-All now m t.good;
  bounded = omega (arith, length-prune-le now m, t.bounded);
}

pub room : (rs : List DnsTableRecord) → List DnsTableRecord
room rs = if leb 16 (length rs) then remove_earliest rs else rs

room-bounds :
    (rs : List DnsTableRecord)
    → length rs ≤ 16
    → DistinctHosts rs
    → (length (room rs) ≤ 15) × DistinctHosts (room rs)
unfolding room
room-bounds rs l d = ground (arith, length-remove_earliest rs, remove_earliest-DistinctHosts rs d)

has_host-room :
    (h : Text) (rs : List DnsTableRecord) → has_host h rs ≡ false → has_host h (room rs) ≡ false
unfolding room
has_host-room h rs e = ground (arith, has_host-remove_earliest h rs e)

add_candidate-IsGood :
    (rs : List DnsTableRecord) (host : Text) (t : ℕ)
    → length rs ≤ 16
    → DistinctHosts rs
    → IsGood (add_candidate rs host t)
unfolding add_candidate
add_candidate-IsGood rs host t l d = elim (Bool-cases (has_host host rs)) [
  | inl old ↦
      ground
        (arith, length-refresh host t rs, refresh-DistinctHosts host t rs d, has_host_pos host rs)
  | inr new ↦
      let r : DnsTableRecord = record { host = host; expires_at_ms = t } in
      let b = room-bounds rs l d in
      rw new (
        unfold room in
        (
          omega (arith, length-append (room rs) (r ∷ [])),
          omega (arith, length-append (room rs) (r ∷ []), b.0),
          push-DistinctHosts (room rs) r (has_host-room host rs new) b.1,
        ))
]

pub make_room-IsTable :
    (now : ℕ) (ip : IpAddr) (m : Records) → IsTable m → IsTable (make_room now ip m)
unfolding make_room evict_earliest
make_room-IsTable now ip m t =
    let p = prune-IsTable now m t in
    ground (
      arith,
      p,
      remove_min-Distinct earliest_expiry (prune now m) p.distinct,
      remove_min-All (λ x. IsGood x.1) earliest_expiry (prune now m) p.good,
      length-remove_min earliest_expiry (prune now m),
    )

make_room_leaves_room :
    (now : ℕ) (ip : IpAddr) (m : Records)
    → IsTable m
    → get ip (make_room now ip m) ≡ none
    → length (make_room now ip m) < 1024
unfolding make_room evict_earliest
make_room_leaves_room now ip m t absent =
    let p : length (prune now m) ≤ 1024 = (prune-IsTable now m t).bounded in
    ground (arith, length-remove_min earliest_expiry (prune now m))

candidates_bounds :
    (ip : IpAddr) (m : Records)
    → IsTable m
    → (length (or_default (get ip m)) ≤ 16) × DistinctHosts (or_default (get ip m))
candidates_bounds ip m t = elim (Option-cases (get ip m)) [
  | inl absent ↦ rw absent (omega arith, tt)
  | inr (rs, found) ↦ rw found (let g = get-All IsGood ip rs m t.good found in (g.1, g.2))
]

-- Inserting a host for an address keeps the table within its bounds, whatever the clock reads: one
-- entry for each address, at most 1024 of them, each with one to sixteen hosts distinct up to case.
pub insert-IsTable :
    (pruned_at now : ℕ) (ip : IpAddr) (host : Text) (ttl : ℕ) (m : Records)
    → IsTable m
    → IsTable (insert pruned_at now ip host ttl m)
unfolding insert
insert-IsTable pruned_at now ip host ttl m t =
    let roomy : Records = make_room pruned_at ip m in
    let r : IsTable roomy = make_room-IsTable pruned_at ip m t in
    let b = candidates_bounds ip roomy r in
    record {
      distinct = put-Distinct ip _ roomy r.distinct;
      good = put-All IsGood ip _ roomy (add_candidate-IsGood _ host _ b.0 b.1) r.good;
      bounded = ground (
        arith,
        length-put ip
            (add_candidate (or_default (get ip roomy)) host (saturating_add64 now (ttl_ms ttl)))
            roomy,
        make_room_leaves_room pruned_at ip m t,
        r.bounded,
      );
    }
