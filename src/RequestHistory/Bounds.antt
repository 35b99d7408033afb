-- ===== src/RequestHistory/Bounds.antt =====
-- The history stays bounded, with one request for a connection, active where it is open.
use paws.Base.{
  ◌≤◌, ◌≡◌, refl, Text, Bool, true, false, ◌||◌, List, [], ◌∷◌, ◌++◌, ◌==◌, text_eq, length, arith,
}
use paws.RequestHistory.{
  ConnectionSummary, RequestSummary, deactivate, has_request, refresh_request,
}

unfoldable pub has_connection : Text → List ConnectionSummary → Bool
has_connection id [] = false
has_connection id (c ∷ cs) = c.id == id || has_connection id cs

abbrev pub DistinctIds : List RequestSummary → Type 0
DistinctIds [] = Unit {0}
DistinctIds (r ∷ rs) = (has_request r.id rs ≡ false) × DistinctIds rs

-- Every active request is of one of the connections.
abbrev pub AreOpen : List ConnectionSummary → List RequestSummary → Type 0
AreOpen cs [] = Unit {0}
AreOpen cs (r ∷ rs) = (r.active ≡ true → has_connection r.id cs ≡ true) × AreOpen cs rs

-- At most 128 requests, no two of one connection, the active ones of open connections.
pub record IsHistory (cs : List ConnectionSummary) (history : List RequestSummary) : Type 0 where
  pub bounded : length history ≤ 128
  pub distinct : DistinctIds history
  pub open_ : AreOpen cs history

has-deactivate :
    (id : Text) (rs : List RequestSummary) → has_request id (deactivate rs) ≡ has_request id rs
unfolding has_request deactivate
has-deactivate id [] = refl
has-deactivate id (r ∷ rs) = ground (arith, has-deactivate id rs)

pub deactivate-IsHistory :
    (cs : List ConnectionSummary) (rs : List RequestSummary)
    → length rs ≤ 128
    → DistinctIds rs
    → IsHistory cs (deactivate rs)
unfolding deactivate
deactivate-IsHistory cs [] h d = record { bounded = omega arith; distinct = tt; open_ = tt }
deactivate-IsHistory cs (r ∷ rs) h d =
    let rest = deactivate-IsHistory cs rs (omega arith) d.1 in
    record {
      bounded = ground (arith, length-deactivate rs);
      distinct = ground (arith, rest.distinct, has-deactivate r.id rs);
      open_ = ground (arith, rest.open_);
    }
  where
    length-deactivate : (rs : List RequestSummary) → length (deactivate rs) ≡ length rs
    length-deactivate [] = refl
    length-deactivate (r ∷ rs) = ground (arith, length-deactivate rs)

has-refresh :
    (id now : Text) (c : ConnectionSummary) (rs : List RequestSummary)
    → has_request id (refresh_request now c rs) ≡ has_request id rs
unfolding has_request refresh_request
has-refresh id now c [] = refl
has-refresh id now c (r ∷ rs) = ground (arith, has-refresh id now c rs)

pub refresh-IsHistory :
    (cs : List ConnectionSummary) (now : Text) (c : ConnectionSummary) (rs : List RequestSummary)
    → has_connection c.id cs ≡ true
    → length rs ≤ 128
    → DistinctIds rs
    → AreOpen cs rs
    → (length (refresh_request now c rs) ≡ length rs)
      × DistinctIds (refresh_request now c rs)
      × AreOpen cs (refresh_request now c rs)
unfolding refresh_request
refresh-IsHistory cs now c [] o h d a = ground arith
refresh-IsHistory cs now c (r ∷ rs) o h d a =
    ground (arith, refresh-IsHistory cs now c rs o (omega arith) d.1 a.1, has-refresh r.id now c rs)

has-push :
    (id : Text) (r : RequestSummary) (rs : List RequestSummary)
    → has_request id (rs ++ r ∷ []) ≡ has_request id rs || r.id == id
unfolding has_request
has-push id r [] = ground arith
has-push id r (q ∷ rs) = ground (arith, has-push id r rs)

pub push-DistinctIds :
    (r : RequestSummary) (rs : List RequestSummary)
    → has_request r.id rs ≡ false
    → DistinctIds rs
    → DistinctIds (rs ++ r ∷ [])
unfolding has_request
push-DistinctIds r [] new d = ground arith
push-DistinctIds r (q ∷ rs) new d = ground (arith, push-DistinctIds r rs, has-push q.id r rs)

pub push-AreOpen :
    (cs : List ConnectionSummary) (r : RequestSummary) (rs : List RequestSummary)
    → has_connection r.id cs ≡ true
    → AreOpen cs rs
    → AreOpen cs (rs ++ r ∷ [])
push-AreOpen cs r [] o a = ((λ on. o), tt)
push-AreOpen cs r (q ∷ rs) o a = (a.0, push-AreOpen cs r rs o a.1)
