-- ===== src/RequestHistory/Recording.antt =====
-- Recording the open connections keeps the history in order.
use paws.Base.{
  ◌≤◌, ◌≡◌, refl, Text, Bool, true, false, List, [], ◌∷◌, ◌++◌, text_eq, ltb, if◌then◌else◌, length,
  arith,
}
use paws.RequestHistory.{
  ConnectionSummary, RequestSummary, request_of, deactivate, has_request, refresh_request,
  trim_history, record_connection, record_connections, record_request_history,
}
use paws.RequestHistory.Bounds.{
  has_connection, DistinctIds, AreOpen, IsHistory, deactivate-IsHistory, refresh-IsHistory,
  push-DistinctIds, push-AreOpen,
}

trim-IsHistory :
    (cs : List ConnectionSummary) (rs : List RequestSummary)
    → DistinctIds rs
    → AreOpen cs rs
    → IsHistory cs (trim_history rs)
unfolding trim_history
trim-IsHistory cs [] d a = record { bounded = omega arith; distinct = tt; open_ = tt }
trim-IsHistory cs (r ∷ rs) d a = go (ltb 128 (length (r ∷ rs))) refl (trim-IsHistory cs rs d.1 a.1)
  where
    go :
        (long : Bool)
        → ltb 128 (length (r ∷ rs)) ≡ long
        → IsHistory cs (trim_history rs)
        → IsHistory cs (if long then trim_history rs else r ∷ rs)
    go true h rest = rest
    go false h rest = record { bounded = ground arith; distinct = d; open_ = a }

record_connection-IsHistory :
    (cs : List ConnectionSummary) (now : Text) (c : ConnectionSummary)
    (history : List RequestSummary)
    → has_connection c.id cs ≡ true
    → IsHistory cs history
    → IsHistory cs (record_connection now c history)
unfolding record_connection
record_connection-IsHistory cs now c history o i = go (has_request c.id history) refl
  where
    go :
        (known : Bool)
        → has_request c.id history ≡ known
        → IsHistory cs (
            if known
            then refresh_request now c history
            else trim_history (history ++ request_of now c ∷ []))
    go true h =
        let (same, distinct, opens) =
          refresh-IsHistory cs now c history o i.bounded i.distinct i.open_ in
        record { bounded = omega (arith, same, i.bounded); distinct = distinct; open_ = opens }
    go false h =
        trim-IsHistory cs (history ++ request_of now c ∷ [])
          (push-DistinctIds (request_of now c) history h i.distinct)
          (push-AreOpen cs (request_of now c) history o i.open_)

record_connections-IsHistory :
    (cs rest : List ConnectionSummary) (now : Text) (history : List RequestSummary)
    → ((id : Text) → has_connection id rest ≡ true → has_connection id cs ≡ true)
    → IsHistory cs history
    → IsHistory cs (record_connections now rest history)
unfolding record_connections has_connection
record_connections-IsHistory cs [] now history sub i = i
record_connections-IsHistory cs (c ∷ rest) now history sub i =
    record_connections-IsHistory cs rest now (record_connection now c history)
      (λ id h. sub id (ground arith))
      (record_connection-IsHistory cs now c history (sub c.id (ground arith)) i)

-- Recording any connections in a history of at most 128 requests, no two of one connection, leaves
-- such a history, in which only requests of connections that are open now are active.
pub record_request_history-IsHistory :
    (now : Text) (connections : List ConnectionSummary) (history : List RequestSummary)
    → length history ≤ 128
    → DistinctIds history
    → IsHistory connections (record_request_history now connections history)
unfolding record_request_history
record_request_history-IsHistory now connections history bounded distinct =
    record_connections-IsHistory connections connections now (deactivate history) (λ id h. h)
      (deactivate-IsHistory connections history bounded distinct)
