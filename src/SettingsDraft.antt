-- ===== src/SettingsDraft.antt =====
-- crates/paws_ui/src/settings_draft.rs: the draft of the settings of a profile, next to what the
-- runtime publishes. Each `&mut self` method is a function to the new draft.
pub mod Edits
pub mod Saving
mod Examples
use paws.Base.{
  ℕ, Text, Bool, true, false, ◌||◌, not, Option, none, some, List, [], ◌∷◌, Eq, ◌==◌, text_eq,
  List-discrete, ℕ_discrete, is_some, ltb, if◌then◌else◌,
}

pub record DnsDraft : Type 0 where
  pub servers : Text
  pub fallbacks : Text
  pub policy : Text

pub record VpnDraft : Type 0 where
  pub engine : Text
  pub trusted : Text
  pub blocked : Text
  pub system_proxy : Bool
  pub dns_hijacking : Bool
  pub allow_bypass : Bool
  pub stack : Text

pub record NetworkDraft : Type 0 where
  pub mixed_port : Text
  pub controller_port : Text
  pub mixed_enabled : Bool
  pub controller_enabled : Bool
  pub allow_lan : Bool

pub record SettingsValues : Type 0 where
  pub dns : DnsDraft
  pub vpn : VpnDraft
  pub network : NetworkDraft

pub record SettingsBaseline : Type 0 where
  pub profile_id : Option Text
  pub revision : ℕ
  pub values : SettingsValues

pub data SettingsSection : Type 0 where
  dns_section vpn_section network_section : SettingsSection

pub record SettingsDraft : Type 0 where
  pub baseline : SettingsBaseline
  pub values : SettingsValues
  pub incoming : Option SettingsBaseline
  pub pending : Option SettingsSection
  pub error : Option Text

abbrev DnsDraft-discrete : Discrete DnsDraft
DnsDraft-discrete = hlevel List-discrete

instance abbrev pub dns_eq : Eq DnsDraft
dns_eq = record { same = DnsDraft-discrete }

abbrev VpnDraft-discrete : Discrete VpnDraft
VpnDraft-discrete = hlevel List-discrete

instance abbrev pub vpn_eq : Eq VpnDraft
vpn_eq = record { same = VpnDraft-discrete }

abbrev NetworkDraft-discrete : Discrete NetworkDraft
NetworkDraft-discrete = hlevel List-discrete

instance abbrev pub network_eq : Eq NetworkDraft
network_eq = record { same = NetworkDraft-discrete }

abbrev SettingsValues-discrete : Discrete SettingsValues
SettingsValues-discrete = hlevel (DnsDraft-discrete, VpnDraft-discrete, NetworkDraft-discrete)

instance abbrev pub values_eq : Eq SettingsValues
values_eq = record { same = SettingsValues-discrete }

abbrev profile-discrete : Discrete (Option Text)
profile-discrete = hlevel List-discrete

instance abbrev pub profile_eq : Eq (Option Text)
profile_eq = record { same = profile-discrete }

abbrev SettingsBaseline-discrete : Discrete SettingsBaseline
SettingsBaseline-discrete = hlevel (profile-discrete, ℕ_discrete, SettingsValues-discrete)

instance abbrev pub baseline_eq : Eq SettingsBaseline
baseline_eq = record { same = SettingsBaseline-discrete }

abbrev SettingsSection-discrete : Discrete SettingsSection
SettingsSection-discrete = hlevel

instance abbrev pub section_eq : Eq SettingsSection
section_eq = record { same = SettingsSection-discrete }

-- `SettingsDraft::new`
pub new_draft : SettingsBaseline → SettingsDraft
new_draft baseline = record {
  baseline = baseline;
  values = baseline.values;
  incoming = none;
  pending = none;
  error = none;
}

pub dirty : SettingsDraft → SettingsSection → Bool
dirty d dns_section = not (d.values.dns == d.baseline.values.dns)
dirty d vpn_section = not (d.values.vpn == d.baseline.values.vpn)
dirty d network_section = not (d.values.network == d.baseline.values.network)

abbrev pub older_than : SettingsBaseline → Option SettingsBaseline → Bool
older_than next none = false
older_than next (some incoming) = ltb next.revision incoming.revision

pub observe : SettingsDraft → SettingsBaseline → SettingsDraft
unfolding new_draft
observe d next =
    if ltb next.revision d.baseline.revision || older_than next d.incoming
    then d
    else if next == d.baseline
    then record d { incoming = none }
    else if is_some d.pending || not (d.values == d.baseline.values)
    then record d { incoming = some next }
    else new_draft next

pub reload : SettingsDraft → SettingsDraft
unfolding new_draft
reload d =
    if is_some d.pending
    then d
    else elim d.incoming [ none ↦ d | some incoming ↦ new_draft incoming ]

pub begin : SettingsDraft → SettingsSection → SettingsDraft × Option (Text × (ℕ × SettingsValues))
unfolding dirty
begin d section =
    if is_some d.pending || is_some d.incoming || not (dirty d section)
    then (d, none)
    else elim d.baseline.profile_id [
      | none ↦ (d, none)
      | some profile_id ↦ (
        record d { pending = some section; error = none },
        some (profile_id, (d.baseline.revision, d.values)),
      )
    ]

-- `filter(|incoming| incoming.revision > next.revision)`
abbrev pub newer_than : SettingsBaseline → Option SettingsBaseline → Option SettingsBaseline
newer_than next none = none
newer_than next (some incoming) =
    if ltb next.revision incoming.revision then some incoming else none

-- The values after a save: the saved section and those without edits are the runtime's.
pub merge : SettingsDraft → SettingsSection → SettingsValues → SettingsValues
unfolding dirty
merge d section next = record {
  dns = if section == dns_section || not (dirty d dns_section) then next.dns else d.values.dns;
  vpn = if section == vpn_section || not (dirty d vpn_section) then next.vpn else d.values.vpn;
  network =
      if section == network_section || not (dirty d network_section)
      then next.network
      else d.values.network;
}

pub finish : SettingsDraft → SettingsSection → SettingsBaseline → SettingsDraft
unfolding merge
finish d section next =
    if not (next.profile_id == d.baseline.profile_id)
    then record d { pending = none; incoming = some next }
    else record {
      baseline = next;
      values = merge d section next.values;
      incoming = newer_than next d.incoming;
      pending = none;
      error = none;
    }

pub fail : SettingsDraft → Text → SettingsDraft
fail d error_ = record d { pending = none; error = some error_ }

-- What reaches the draft: publications of the runtime, commands of the user, replies to a save.
pub data Event : Type 0 where
  observes : SettingsBaseline → Event
  reloads : Event
  begins : SettingsSection → Event
  finishes : SettingsSection → SettingsBaseline → Event
  fails : Text → Event

pub step : SettingsDraft → Event → SettingsDraft
unfolding observe reload begin finish fail
step d (observes next) = observe d next
step d reloads = reload d
step d (begins section) = (begin d section).0
step d (finishes section next) = finish d section next
step d (fails error_) = fail d error_

pub run : SettingsDraft → List Event → SettingsDraft
run d [] = d
run d (e ∷ es) = run (step d e) es
