-- ===== src/SettingsDraft/Examples.antt =====
-- A draft with edited name servers: a save, publications, and the theorems at them.
use paws.Base.{ℕ, ◌≡◌, refl, Text, text, true, false, none, some, List, [], ◌∷◌, ℕ_discrete}
use paws.SettingsDraft.{
  SettingsDraft, SettingsValues, SettingsBaseline, dns_section, vpn_section, begin, finish, dirty,
  Event, observes, begins, step, run,
}
use paws.SettingsDraft.Edits.{step_keeps_edits}
use paws.SettingsDraft.Saving.{save_ends_clean}

abbrev settings : Text → SettingsValues
settings servers = record {
  dns = record { servers = servers; fallbacks = []; policy = [] };
  vpn = record {
    engine = text "meow";
    trusted = [];
    blocked = [];
    system_proxy = false;
    dns_hijacking = true;
    allow_bypass = false;
    stack = text "lwip";
  };
  network = record {
    mixed_port = text "7890";
    controller_port = text "9090";
    mixed_enabled = true;
    controller_enabled = false;
    allow_lan = false;
  };
}

abbrev published : ℕ → Text → SettingsBaseline
published revision servers = record {
  profile_id = some (text "home");
  revision = revision;
  values = settings servers;
}

-- The user wrote other name servers over revision 3.
abbrev edited : SettingsDraft
edited = record {
  baseline = published 3 (text "1.1.1.1");
  values = settings (text "8.8.8.8");
  incoming = none;
  pending = none;
  error = none;
}

abbrev saving : SettingsDraft
saving = record edited { pending = some dns_section }

abbrev history : List Event
history = observes (published 5 (text "9.9.9.9")) ∷ begins vpn_section ∷ []

step_keeps_edits_example :
    (step edited (observes (published 5 (text "9.9.9.9")))).values.dns ≡ edited.values.dns
unfolding dirty ℕ_discrete
step_keeps_edits_example =
    step_keeps_edits edited (observes (published 5 (text "9.9.9.9"))) dns_section refl refl

save_ends_clean_example :
    let waiting = run (begin edited dns_section).0 history in
    let saved = finish waiting dns_section (published 6 (text "8.8.8.8")) in
    (waiting.values ≡ settings (text "8.8.8.8"))
    × (waiting.baseline.revision ≡ 3)
    × (saved.pending ≡ none)
    × (saved.baseline ≡ published 6 (text "8.8.8.8"))
    × (dirty saved dns_section ≡ false)
unfolding begin dirty ℕ_discrete
save_ends_clean_example =
    save_ends_clean edited dns_section history (published 6 (text "8.8.8.8"))
      (text "home", (3, settings (text "8.8.8.8"))) refl refl refl
