-- ===== src/DnsTable/Hosts.antt =====
-- Laws of the candidate lists: distinct hosts stay distinct, and lengths.
use paws.Base.{
  ℕ, zero, suc, ◌+◌, ◌≤◌, ◌<◌, ◌≡◌, refl, Text, Bool, true, false, ◌||◌, List, [], ◌∷◌, ◌++◌, arith,
  ltb, if◌then◌else◌, length,
}
use paws.Base.{eq_ignore_ascii_case}
use paws.DnsTable.Candidates.{
  DnsTableRecord, DistinctHosts, retain_live, has_host, refresh, earliest_from, remove_at,
  remove_earliest,
}

has_host-retain_live :
    (h : Text) (now : ℕ) (rs : List DnsTableRecord)
    → has_host h rs ≡ false
    → has_host h (retain_live now rs) ≡ false
unfolding has_host retain_live
has_host-retain_live h now [] e = refl
has_host-retain_live h now (r ∷ rs) e = ground (arith, has_host-retain_live h now rs)

pub retain_live-DistinctHosts :
    (now : ℕ) (rs : List DnsTableRecord) → DistinctHosts rs → DistinctHosts (retain_live now rs)
unfolding retain_live
retain_live-DistinctHosts now [] d = d
retain_live-DistinctHosts now (r ∷ rs) d =
    ground (arith, retain_live-DistinctHosts now rs d.1, has_host-retain_live r.host now rs)

pub length-retain_live-le :
    (now : ℕ) (rs : List DnsTableRecord) → length (retain_live now rs) ≤ length rs
unfolding retain_live
length-retain_live-le now [] = omega arith
length-retain_live-le now (r ∷ rs) = ground (arith, length-retain_live-le now rs)

has_host-refresh :
    (k host : Text) (t : ℕ) (rs : List DnsTableRecord)
    → has_host k (refresh host t rs) ≡ has_host k rs
unfolding has_host refresh
has_host-refresh k host t [] = refl
has_host-refresh k host t (r ∷ rs) = ground (arith, has_host-refresh k host t rs)

has_host-same :
    (k h : Text) (rs : List DnsTableRecord)
    → eq_ignore_ascii_case k h ≡ true
    → has_host k rs ≡ has_host h rs
unfolding has_host
has_host-same k h [] e = refl
has_host-same k h (r ∷ rs) e = ground (arith, has_host-same k h rs e)

pub refresh-DistinctHosts :
    (host : Text) (t : ℕ) (rs : List DnsTableRecord)
    → DistinctHosts rs
    → DistinctHosts (refresh host t rs)
unfolding refresh
refresh-DistinctHosts host t [] d = d
refresh-DistinctHosts host t (r ∷ rs) d = ground (
  arith,
  refresh-DistinctHosts host t rs d.1,
  has_host-refresh r.host host t rs,
  has_host-same r.host host rs,
)

pub length-refresh :
    (host : Text) (t : ℕ) (rs : List DnsTableRecord) → length (refresh host t rs) ≡ length rs
unfolding refresh
length-refresh host t [] = refl
length-refresh host t (r ∷ rs) = ground (arith, length-refresh host t rs)

has_host-remove_at :
    (h : Text) (i : ℕ) (rs : List DnsTableRecord)
    → has_host h rs ≡ false
    → has_host h (remove_at i rs) ≡ false
unfolding has_host remove_at
has_host-remove_at h i [] e = e
has_host-remove_at h zero (r ∷ rs) e = ground arith
has_host-remove_at h (suc i) (r ∷ rs) e = ground (arith, has_host-remove_at h i rs)

remove_at-DistinctHosts :
    (i : ℕ) (rs : List DnsTableRecord) → DistinctHosts rs → DistinctHosts (remove_at i rs)
unfolding remove_at
remove_at-DistinctHosts i [] d = d
remove_at-DistinctHosts zero (r ∷ rs) d = d.1
remove_at-DistinctHosts (suc i) (r ∷ rs) d =
    (has_host-remove_at r.host i rs d.0, remove_at-DistinctHosts i rs d.1)

length-remove_at :
    (i : ℕ) (rs : List DnsTableRecord) → i < length rs → suc (length (remove_at i rs)) ≡ length rs
unfolding remove_at
length-remove_at i [] h = elim h [ ]
length-remove_at zero (r ∷ rs) h = refl
length-remove_at (suc i) (r ∷ rs) h = omega (arith, length-remove_at i rs (omega arith))

earliest_from-lt :
    (best expiry i : ℕ) (rs : List DnsTableRecord)
    → best < i
    → earliest_from best expiry i rs < i + length rs
unfolding earliest_from
earliest_from-lt best expiry i [] h = omega arith
earliest_from-lt best expiry i (r ∷ rs) h =
    let less : Bool = ltb r.expires_at_ms expiry in
    let b : ℕ = if less then i else best in
    let b_lt : b < i + 1 = ground arith in
    omega (arith, earliest_from-lt b (if less then r.expires_at_ms else expiry) (i + 1) rs b_lt)

pub length-remove_earliest :
    (rs : List DnsTableRecord) → 0 < length rs → suc (length (remove_earliest rs)) ≡ length rs
unfolding remove_earliest
length-remove_earliest [] h = absurd (omega arith)
length-remove_earliest (r ∷ rs) h =
    length-remove_at (earliest_from 0 r.expires_at_ms 1 rs) (r ∷ rs)
      (omega (arith, earliest_from-lt 0 r.expires_at_ms 1 rs (omega arith)))

pub has_host-remove_earliest :
    (h : Text) (rs : List DnsTableRecord)
    → has_host h rs ≡ false
    → has_host h (remove_earliest rs) ≡ false
unfolding remove_earliest
has_host-remove_earliest h [] e = e
has_host-remove_earliest h (r ∷ rs) e =
    has_host-remove_at h (earliest_from 0 r.expires_at_ms 1 rs) (r ∷ rs) e

pub remove_earliest-DistinctHosts :
    (rs : List DnsTableRecord) → DistinctHosts rs → DistinctHosts (remove_earliest rs)
unfolding remove_earliest
remove_earliest-DistinctHosts [] d = d
remove_earliest-DistinctHosts (r ∷ rs) d =
    remove_at-DistinctHosts (earliest_from 0 r.expires_at_ms 1 rs) (r ∷ rs) d

pub has_host-push :
    (k : Text) (rs : List DnsTableRecord) (new : DnsTableRecord)
    → has_host k (rs ++ new ∷ []) ≡ (has_host k rs || eq_ignore_ascii_case new.host k)
unfolding has_host
has_host-push k [] new = ground arith
has_host-push k (r ∷ rs) new = ground (arith, has_host-push k rs new)

pub push-DistinctHosts :
    (rs : List DnsTableRecord) (new : DnsTableRecord)
    → has_host new.host rs ≡ false
    → DistinctHosts rs
    → DistinctHosts (rs ++ new ∷ [])
unfolding has_host
push-DistinctHosts [] new e d = (refl, tt)
push-DistinctHosts (r ∷ rs) new e d =
    ground (arith, push-DistinctHosts rs new, has_host-push r.host rs new, d.1)

pub has_host_pos : (h : Text) (rs : List DnsTableRecord) → has_host h rs ≡ true → 0 < length rs
unfolding has_host
has_host_pos h [] e = absurd (ground arith)
has_host_pos h (r ∷ rs) e = omega arith
