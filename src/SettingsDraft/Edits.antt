-- ===== src/SettingsDraft/Edits.antt =====
-- Edits of a draft against the publications of the runtime.
use paws.Base.{
  ◌≡◌, refl, ◌∙◌, ap, none, Bool, true, false, not, ◌&&◌, ◌||◌, if◌then◌else◌, Eq, ◌==◌, arith,
}
use paws.SettingsDraft.{
  SettingsDraft, SettingsValues, SettingsBaseline, SettingsSection, dns_section, vpn_section,
  network_section, section_eq, dns_eq, vpn_eq, network_eq, profile_eq, dirty, observe, new_draft,
  reload, begin, merge, newer_than, finish, fail, Event, observes, reloads, begins, finishes, fails,
  step,
}

-- The values agree on one section.
abbrev pub SameSection : SettingsSection → SettingsValues → SettingsValues → Type 0
SameSection dns_section v w = v.dns ≡ w.dns
SameSection vpn_section v w = v.vpn ≡ w.vpn
SameSection network_section v w = v.network ≡ w.network

-- The event does not give up the edits of the section: it is no reload and no reply to its save.
abbrev pub spares : SettingsSection → Event → Bool
spares s reloads = false
spares s (finishes section next) = not (section == s)
spares s _ = true

-- An edited section keeps the user's values through every event but a reload and the reply to its
-- own save: no publication overwrites an edit, nor does the save of another section.
pub step_keeps_edits :
    (d : SettingsDraft) (e : Event) (s : SettingsSection)
    → dirty d s ≡ true
    → spares s e ≡ true
    → SameSection s (step d e).values d.values
unfolding step dirty observe new_draft reload begin merge finish fail
step_keeps_edits d (observes next) dns_section edited spared = ground arith
step_keeps_edits d (observes next) vpn_section edited spared = ground arith
step_keeps_edits d (observes next) network_section edited spared = ground arith
step_keeps_edits d (begins section) dns_section edited spared = ground arith
step_keeps_edits d (begins section) vpn_section edited spared = ground arith
step_keeps_edits d (begins section) network_section edited spared = ground arith
step_keeps_edits d (finishes section next) dns_section edited spared = ground arith
step_keeps_edits d (finishes section next) vpn_section edited spared = ground arith
step_keeps_edits d (finishes section next) network_section edited spared = ground arith
step_keeps_edits d (fails error_) dns_section edited spared = refl
step_keeps_edits d (fails error_) vpn_section edited spared = refl
step_keeps_edits d (fails error_) network_section edited spared = refl
step_keeps_edits d reloads s edited spared = ground arith

-- The draft and the values differ on one section.
abbrev pub differs : SettingsSection → SettingsValues → SettingsValues → Bool
differs dns_section v w = not (v.dns == w.dns)
differs vpn_section v w = not (v.vpn == w.vpn)
differs network_section v w = not (v.network == w.network)

-- A section whose value `x` was saved or not, against the baseline `y` and the reply `n`.
merged-differs {ℓ} :
    {A : Type ℓ}
    → ⦃e : Eq A⦄ → (saved : Bool) (x y n : A)
    → not ((if saved || not (not (x == y)) then n else x) == n)
      ≡ not saved && not (x == y) && not (x == n)
merged-differs true x y n = ground arith
merged-differs false x y n = ground arith

-- A reply for the profile of the draft makes it the baseline.
pub finish_same :
    (d : SettingsDraft) (section : SettingsSection) (next : SettingsBaseline)
    → next.profile_id ≡ d.baseline.profile_id
    → finish d section next ≡ record {
      baseline = next;
      values = merge d section next.values;
      incoming = newer_than next d.incoming;
      pending = none;
      error = none;
    }
unfolding finish
finish_same d section next same_profile = ground arith

-- After a reply to a save for the profile of the draft, the edited sections are exactly those that
-- were edited, are not the saved one, and differ from what the runtime now has.
pub dirty-finish :
    (d : SettingsDraft) (section : SettingsSection) (next : SettingsBaseline) (s : SettingsSection)
    → next.profile_id ≡ d.baseline.profile_id
    → dirty (finish d section next) s
      ≡ not (section == s) && dirty d s && differs s d.values next.values
unfolding dirty merge
dirty-finish d section next dns_section same_profile =
    ap (λ r. dirty r dns_section) (finish_same d section next same_profile)
    ∙ merged-differs (section == dns_section) d.values.dns d.baseline.values.dns next.values.dns
dirty-finish d section next vpn_section same_profile =
    ap (λ r. dirty r vpn_section) (finish_same d section next same_profile)
    ∙ merged-differs (section == vpn_section) d.values.vpn d.baseline.values.vpn next.values.vpn
dirty-finish d section next network_section same_profile =
    ap (λ r. dirty r network_section) (finish_same d section next same_profile)
    ∙ merged-differs (section == network_section) d.values.network d.baseline.values.network
        next.values.network
