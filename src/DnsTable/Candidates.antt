-- ===== src/DnsTable/Candidates.antt =====
-- The candidates of one address: distinct host names, each with its expiry.
use paws.Base.{
  ℕ, zero, suc, ◌+◌, ◌≡◌, Text, Bool, false, ◌||◌, List, [], ◌∷◌, text_eq, ltb, if◌then◌else◌,
  u64_max, min,
}
use paws.Base.{eq_ignore_ascii_case}

pub record DnsTableRecord : Type 0 where
  pub host : Text
  pub expires_at_ms : ℕ

-- `candidates.retain(|record| record.expires_at_ms > now)`
unfoldable pub retain_live : ℕ → List DnsTableRecord → List DnsTableRecord
retain_live now [] = []
retain_live now (r ∷ rs) =
    let rest = retain_live now rs in if ltb now r.expires_at_ms then r ∷ rest else rest

unfoldable pub has_host : Text → List DnsTableRecord → Bool
unfolding eq_ignore_ascii_case
has_host host [] = false
has_host host (r ∷ rs) = eq_ignore_ascii_case r.host host || has_host host rs

-- The first record of the host takes the new spelling and expiry.
unfoldable pub refresh : Text → ℕ → List DnsTableRecord → List DnsTableRecord
unfolding eq_ignore_ascii_case
refresh host expires_at_ms [] = []
refresh host expires_at_ms (r ∷ rs) =
    if eq_ignore_ascii_case r.host host
    then record { host = host; expires_at_ms = expires_at_ms } ∷ rs
    else r ∷ refresh host expires_at_ms rs

-- The position of the first record with the least expiry, from a best one on.
unfoldable pub earliest_from : ℕ → ℕ → ℕ → List DnsTableRecord → ℕ
earliest_from best best_expiry i [] = best
earliest_from best best_expiry i (r ∷ rs) =
    let less = ltb r.expires_at_ms best_expiry in
    earliest_from (if less then i else best) (if less then r.expires_at_ms else best_expiry) (i + 1)
      rs

-- `Vec::remove`
unfoldable pub remove_at : ℕ → List DnsTableRecord → List DnsTableRecord
remove_at i [] = []
remove_at zero (r ∷ rs) = rs
remove_at (suc i) (r ∷ rs) = r ∷ remove_at i rs

unfoldable pub remove_earliest : List DnsTableRecord → List DnsTableRecord
unfolding earliest_from remove_at
remove_earliest [] = []
remove_earliest (r ∷ rs) = remove_at (earliest_from 0 r.expires_at_ms 1 rs) (r ∷ rs)

-- `map(|record| record.expires_at_ms).min().unwrap_or(u64::MAX)`
unfoldable pub earliest_expiry : List DnsTableRecord → ℕ
earliest_expiry [] = u64_max
earliest_expiry (r ∷ []) = r.expires_at_ms
earliest_expiry (r ∷ rs) = min r.expires_at_ms (earliest_expiry rs)

-- No two candidates have one host name, whatever its case.
abbrev pub DistinctHosts : List DnsTableRecord → Type 0
DistinctHosts [] = Unit {0}
DistinctHosts (r ∷ rs) = (has_host r.host rs ≡ false) × DistinctHosts rs
