-- ===== src/RequestHistory.antt =====
-- crates/paws_core/src/runtime_snapshot.rs, `record_request_history`: the recent requests, brought up
-- to date with the connections that are open. The time is an argument.
pub mod Bounds
pub mod Recording
mod Examples
use paws.Base.{
  ℕ, zero, suc, Text, Bool, true, false, ◌||◌, List, [], ◌∷◌, ◌++◌, ◌==◌, text_eq, ltb,
  if◌then◌else◌, length,
}

pub record ConnectionSummary : Type 0 where
  pub id : Text
  pub host : Text
  pub domain : Text
  pub domain_source : Text
  pub destination_ip : Text
  pub destination_port : ℕ
  pub network : Text
  pub rule : Text
  pub proxy : Text
  pub upload_bytes : ℕ
  pub download_bytes : ℕ

pub record RequestSummary : Type 0 where
  pub id : Text
  pub host : Text
  pub domain : Text
  pub domain_source : Text
  pub destination_ip : Text
  pub destination_port : ℕ
  pub network : Text
  pub rule : Text
  pub proxy : Text
  pub upload_bytes : ℕ
  pub download_bytes : ℕ
  pub active : Bool
  pub updated_at : Text

abbrev pub max_request_history : ℕ
max_request_history = 128

-- The request of a connection, as it is added or brought up to date: every field is taken.
abbrev pub request_of : Text → ConnectionSummary → RequestSummary
request_of now c = record {
  id = c.id;
  host = c.host;
  domain = c.domain;
  domain_source = c.domain_source;
  destination_ip = c.destination_ip;
  destination_port = c.destination_port;
  network = c.network;
  rule = c.rule;
  proxy = c.proxy;
  upload_bytes = c.upload_bytes;
  download_bytes = c.download_bytes;
  active = true;
  updated_at = now;
}

unfoldable pub deactivate : List RequestSummary → List RequestSummary
deactivate [] = []
deactivate (r ∷ rs) = record r { active = false } ∷ deactivate rs

unfoldable pub has_request : Text → List RequestSummary → Bool
has_request id [] = false
has_request id (r ∷ rs) = r.id == id || has_request id rs

-- The first request of the connection is brought up to date.
unfoldable pub refresh_request :
    Text → ConnectionSummary → List RequestSummary → List RequestSummary
refresh_request now c [] = []
refresh_request now c (r ∷ rs) =
    if r.id == c.id then request_of now c ∷ rs else r ∷ refresh_request now c rs

-- `while len > MAX_REQUEST_HISTORY { pop_front }`
unfoldable pub trim_history : List RequestSummary → List RequestSummary
trim_history [] = []
trim_history (r ∷ rs) =
    let rest = trim_history rs in if ltb max_request_history (length (r ∷ rs)) then rest else r ∷ rs

unfoldable pub record_connection :
    Text → ConnectionSummary → List RequestSummary → List RequestSummary
unfolding has_request refresh_request trim_history
record_connection now c history =
    if has_request c.id history
    then refresh_request now c history
    else trim_history (history ++ request_of now c ∷ [])

unfoldable pub record_connections :
    Text → List ConnectionSummary → List RequestSummary → List RequestSummary
record_connections now [] history = history
record_connections now (c ∷ cs) history =
    record_connections now cs (record_connection now c history)

pub record_request_history :
    Text → List ConnectionSummary → List RequestSummary → List RequestSummary
unfolding record_connections deactivate
record_request_history now connections history =
    record_connections now connections (deactivate history)
