-- ===== src/RequestHistory/Examples.antt =====
-- A connection that is open, and a request whose connection is not.
use paws.Base.{◌≡◌, refl, Text, text, false, List, [], ◌∷◌, arith, ℕ_discrete}
use paws.RequestHistory.{
  ConnectionSummary, RequestSummary, request_of, record_request_history, record_connections,
  record_connection, deactivate, has_request, refresh_request, trim_history,
}
use paws.RequestHistory.Bounds.{IsHistory}
use paws.RequestHistory.Recording.{record_request_history-IsHistory}

abbrev connection : Text → ConnectionSummary
connection id = record {
  id = id;
  host = text "a.b:443";
  domain = text "a.b";
  domain_source = [];
  destination_ip = [];
  destination_port = 443;
  network = text "tcp";
  rule = text "Match";
  proxy = text "DIRECT";
  upload_bytes = 1;
  download_bytes = 2;
}

abbrev history : List RequestSummary
history = request_of (text "5") (connection (text "x")) ∷ []

-- The closed connection stays on record, not active, and the open one is added.
recorded :
    record_request_history (text "6") (connection (text "y") ∷ []) history
    ≡ record (request_of (text "5") (connection (text "x"))) { active = false }
      ∷ request_of (text "6") (connection (text "y"))
      ∷ []
unfolding record_request_history record_connections record_connection deactivate has_request
    refresh_request trim_history ℕ_discrete
recorded = refl

record_request_history-IsHistory_example :
    IsHistory
      (connection (text "y") ∷ [])
      (record_request_history (text "6") (connection (text "y") ∷ []) history)
unfolding has_request ℕ_discrete
record_request_history-IsHistory_example =
    record_request_history-IsHistory (text "6") (connection (text "y") ∷ []) history (omega arith)
      (refl, tt)
