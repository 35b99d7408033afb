-- ===== src/SettingsDraft/Saving.antt =====
-- A save of the draft: one at a time, on a draft that holds still, with its revision in order.
use paws.Base.{
  ℕ, ◌≡◌, refl, sym, ◌∙◌, ap, Text, Bool, true, false, not, none, some, List, [], ◌∷◌, ◌==◌, arith,
  if◌then◌else◌, ◌&&◌,
}
use paws.SettingsDraft.{
  SettingsDraft, SettingsValues, SettingsBaseline, SettingsSection, section_eq, profile_eq, dirty,
  observe, new_draft, reload, begin, finish, Event, observes, reloads, begins, finishes, fails,
  step, run,
}
use paws.SettingsDraft.Edits.{differs, dirty-finish, finish_same}

-- The event answers a save.
abbrev pub is_reply : Event → Bool
is_reply (finishes section next) = true
is_reply (fails error_) = true
is_reply _ = false

abbrev pub no_reply : List Event → Bool
no_reply [] = true
no_reply (e ∷ es) = if is_reply e then false else no_reply es

quiet_head : (e : Event) (es : List Event) → no_reply (e ∷ es) ≡ true → is_reply e ≡ false
quiet_head e es quiet = ground arith

quiet_tail : (e : Event) (es : List Event) → no_reply (e ∷ es) ≡ true → no_reply es ≡ true
quiet_tail e es quiet = ground arith

-- The draft holds still on its way to another state.
abbrev pub HoldsStill : SettingsSection → SettingsDraft → SettingsDraft → Type 0
HoldsStill s d d' = (d'.pending ≡ some s) × (d'.values ≡ d.values) × (d'.baseline ≡ d.baseline)

step-HoldsStill :
    (s : SettingsSection) (d : SettingsDraft) (e : Event)
    → d.pending ≡ some s
    → is_reply e ≡ false
    → HoldsStill s d (step d e)
unfolding step observe new_draft reload begin
step-HoldsStill s d (observes next) saving quiet = ground arith
step-HoldsStill s d reloads saving quiet = ground arith
step-HoldsStill s d (begins section) saving quiet = ground arith
step-HoldsStill s d (finishes section next) saving quiet = ground arith
step-HoldsStill s d (fails error_) saving quiet = ground arith

-- While a save is in flight nothing but its reply moves the draft: publications, reloads and other
-- saves leave its values, its baseline and the pending section as they are.
pub run-HoldsStill :
    (s : SettingsSection) (d : SettingsDraft) (es : List Event)
    → d.pending ≡ some s
    → no_reply es ≡ true
    → HoldsStill s d (run d es)
unfolding run
run-HoldsStill s d [] saving quiet = (saving, refl, refl)
run-HoldsStill s d (e ∷ es) saving quiet =
    let (saving', same_values, same_baseline) =
      step-HoldsStill s d e saving (quiet_head e es quiet) in
    let (pending, v, b) = run-HoldsStill s (step d e) es saving' (quiet_tail e es quiet) in
    (pending, v ∙ same_values, b ∙ same_baseline)

-- What a save that began has sent, and the draft that it leaves.
begin_sent :
    (d : SettingsDraft) (s : SettingsSection) (sent : Text × (ℕ × SettingsValues))
    → (begin d s).1 ≡ some sent
    → ((begin d s).0.pending ≡ some s)
      × ((begin d s).0.values ≡ sent.1.1)
      × ((begin d s).0.baseline.revision ≡ sent.1.0)
      × ((begin d s).0.baseline ≡ d.baseline)
unfolding begin
begin_sent d s sent begun = ground arith

self_clean : (s : SettingsSection) (a b : Bool) → not (s == s) && a && b ≡ false
self_clean s a b = ground arith

-- A save that a section begins sends the values of the draft, which are still those of the draft
-- when its reply comes, whatever came before it. A successful reply for the profile of the draft
-- then leaves nothing pending, the reply as the baseline, and the section without edits.
pub save_ends_clean :
    (d : SettingsDraft)
    → (s : SettingsSection) → (es : List Event) → (next : SettingsBaseline)
    → (sent : Text × (ℕ × SettingsValues)) → (begin d s).1 ≡ some sent
    → no_reply es ≡ true
    → next.profile_id ≡ d.baseline.profile_id
    → let waiting = run (begin d s).0 es in
      let saved = finish waiting s next in
      (waiting.values ≡ sent.1.1)
      × (waiting.baseline.revision ≡ sent.1.0)
      × (saved.pending ≡ none)
      × (saved.baseline ≡ next)
      × (dirty saved s ≡ false)
save_ends_clean d s es next sent begun quiet same_profile =
    let (pending, values, revision, baseline) = begin_sent d s sent begun in
    let (held, same_values, same_baseline) = run-HoldsStill s (begin d s).0 es pending quiet in
    let waiting = run (begin d s).0 es in
    let profile = same_profile ∙ ap (λ b. b.profile_id) (sym (same_baseline ∙ baseline)) in
    let saved = finish_same waiting s next profile in
    (
      same_values ∙ values,
      ap (λ b. b.revision) same_baseline ∙ revision,
      ap (λ r. r.pending) saved,
      ap (λ r. r.baseline) saved,
      dirty-finish waiting s next s profile
          ∙ self_clean s (dirty waiting s) (differs s waiting.values next.values),
    )
