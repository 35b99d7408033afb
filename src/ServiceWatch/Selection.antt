-- ===== src/ServiceWatch/Selection.antt =====
-- What the watch loop of crates/paws_core/src/service_watch.rs chooses from: the policy, the groups
-- and the candidates of a group.
use paws.Base.{
  ℕ, ◌+◌, Text, text, Bool, false, not, ◌&&◌, ◌||◌, Option, none, some, List, [], ◌∷◌, Eq, ◌==◌,
  nat_eq, text_eq, List-discrete, if◌then◌else◌, to_ascii_lowercase, eq_ignore_ascii_case,
}
use paws.Proxies.{ProxyItem, ProxyGroup}

abbrev name-discrete : Discrete (Option Text)
name-discrete = hlevel List-discrete

instance abbrev pub name_eq : Eq (Option Text)
name_eq = record { same = name-discrete }

pub record ServiceWatchPolicy : Type 0 where
  pub enabled : Bool
  pub group : Text
  pub url : Text

-- The part of a snapshot of the core that the loop reads.
pub record Snapshot : Type 0 where
  pub vpn_session_id : Option Text
  pub vpn_running : Bool
  pub config_revision : ℕ
  pub proxy_groups : List ProxyGroup

-- What is read around the probe of a candidate; `none` is an error of the call. The selection compares
-- the revision of the core twice, when it starts and with its tunnel at hand; `selects` is what
-- the engine answers to the rest of it.
pub record Checks : Type 0 where
  pub before : Option Snapshot
  pub policy_before : Option ServiceWatchPolicy
  pub answers : Bool
  pub policy_after : Option ServiceWatchPolicy
  pub after : Option Snapshot
  pub checked_revision : ℕ
  pub locked_revision : ℕ
  pub selects : Bool
  pub switched_at : ℕ

-- `group` was moved to `candidate`, with its position among the candidates, at the time at which the
-- cooldown starts.
pub record Switch : Type 0 where
  pub group : Text
  pub candidate : Text
  pub position : ℕ
  pub revision : ℕ
  pub at : ℕ

abbrev pub is_selector : Text → ProxyGroup → Bool
is_selector name g = g.name == name && eq_ignore_ascii_case g.group_type (text "selector")

unfoldable pub find_selector : Text → List ProxyGroup → Option ProxyGroup
unfolding eq_ignore_ascii_case
find_selector name [] = none
find_selector name (g ∷ groups) =
    let rest = find_selector name groups in if is_selector name g then some g else rest

unfoldable pub contains : Text → List Text → Bool
contains x [] = false
contains x (y ∷ ys) = x == y || contains x ys

abbrev pub not_nodes : List Text
not_nodes =
    text "direct"
    ∷ text "reject"
    ∷ text "selector"
    ∷ text "urltest"
    ∷ text "fallback"
    ∷ text "loadbalance"
    ∷ text "relay"
    ∷ []

-- Another node than the selected one, and a node that is no group and no built-in.
unfoldable pub is_candidate : ProxyGroup → ProxyItem → Bool
unfolding contains
is_candidate g p =
    not (some p.name == g.selected) && not (contains (to_ascii_lowercase p.proxy_type) not_nodes)

unfoldable pub candidate_names : ProxyGroup → List ProxyItem → List Text
unfolding is_candidate
candidate_names g [] = []
candidate_names g (p ∷ ps) =
    let rest = candidate_names g ps in if is_candidate g p then p.name ∷ rest else rest

abbrev pub same_policy : ServiceWatchPolicy → Option ServiceWatchPolicy → Bool
same_policy policy none = false
same_policy policy (some now) = now.enabled && now.group == policy.group && now.url == policy.url

abbrev pub same_run : Snapshot → Option Snapshot → Bool
same_run snapshot none = false
same_run snapshot (some now) =
    now.vpn_session_id == snapshot.vpn_session_id
    && now.config_revision == snapshot.config_revision
    && now.vpn_running

abbrev pub same_vpn : Snapshot → Option Snapshot → Bool
same_vpn snapshot none = false
same_vpn snapshot (some now) = now.vpn_session_id == snapshot.vpn_session_id && now.vpn_running

-- `select_proxy_at_revision(.., Some(expected))`, which is refused once the revision is another.
unfoldable pub select_at_revision : ℕ → Checks → Bool
select_at_revision expected c =
    c.checked_revision == expected && c.locked_revision == expected && c.selects

-- A candidate that answered, up to its selection.
unfoldable pub select_candidate : ServiceWatchPolicy → Snapshot → Text → ℕ → Checks → Option Switch
unfolding select_at_revision
select_candidate policy snapshot candidate position c =
    if same_policy policy c.policy_after
      && same_vpn snapshot c.after
      && select_at_revision snapshot.config_revision c
    then some (record {
      group = policy.group;
      candidate = candidate;
      position = position;
      revision = snapshot.config_revision;
      at = c.switched_at;
    })
    else none

-- The loop over the candidates, from a position on, ended by a change of what they were chosen for or by the first that
-- answers.
unfoldable pub try_candidates :
    ServiceWatchPolicy → Snapshot → (ℕ → Checks) → ℕ → List Text → Option Switch
unfolding select_candidate
try_candidates policy snapshot checks position [] = none
try_candidates policy snapshot checks position (candidate ∷ rest) =
    let next = try_candidates policy snapshot checks (position + 1) rest in
    let c = checks position in
    if not (same_run snapshot c.before) || not (same_policy policy c.policy_before)
    then none
    else if c.answers
    then select_candidate policy snapshot candidate position c
    else next
