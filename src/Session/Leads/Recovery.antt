-- ===== src/Session/Leads/Recovery.antt =====
-- crates/paws_core/src/lib.rs: the recovery of a lost session moves it along.
use paws.Base.{
  ◌≡◌, Text, Bool, true, false, not, ◌&&◌, ◌||◌, Option, none, some, arith, text_eq, nat_eq,
}
use paws.PlatformOwner.Record.{JournalRead}
use paws.PlatformOwner.Disk.{Codec}
use paws.PlatformOwner.{read}
use paws.Session.{Session, is_pending, is_connected, is_terminal}
use paws.Session.World.{Env, World, ◌>>=◌, ◌>>◌, pure, get, modify, persist}
use paws.Session.Recovery.{
  find_orphan, release_found, is_own_journal, lost_found, lost_locked, refresh_owner_liveness,
  is_interface, watch_owner, grant, claim_open, watch_and_claim, claim_platform_vpn_auto_recovery,
  rearm_platform_vpn_auto_recovery,
}
use paws.Session.Moves.{Scope, here, next, releases, orphans, grants_recovery, rearms}
use paws.Session.Leads.{
  Leads, Leads-if, Leads-bind, Leads-journal, Leads-persist, Leads-synced, Leads-modify,
}

module _ (c : Codec) (e : Env) (a : Scope) (b : Bool) where
  lost_found-Leads :
      (s : Session) (found : JournalRead) (w : World c)
      → is_terminal w.session.start_outcome ≡ false
      → Leads c e a b (lost_found c e s found) w
  lost_found-Leads s found w h =
      Leads-if c e a b (is_own_journal c e s found) (do modify c e release_found; persist c e 2)
        (pure tt) w
        (λ _.
          Leads-modify c e a b release_found (persist c e 2) w (releases h)
            (Leads-persist c e a b 2 (record w { session = release_found w.session })))
        (λ _. here)

  lost_locked-Leads :
      (s : Session) (locked : Option Bool) (w : World c)
      → is_terminal w.session.start_outcome ≡ false
      → Leads c e a b (lost_locked c e s locked) w
  lost_locked-Leads s none w h = here
  lost_locked-Leads s (some false) w h = here
  lost_locked-Leads s (some true) w h =
      Leads-journal c e a b 1 (read c) (lost_found c e s) w
        (λ found d. lost_found-Leads s found (record w { journal = d }) h)

  refresh-Leads : (w : World c) → Leads c e a b (refresh_owner_liveness c e) w
  unfolding refresh_owner_liveness
  refresh-Leads w =
      let s = w.session in
      Leads-if c e a b
        (not s.extension_attached
          || s.cleanup_complete
          || not (is_pending s.start_outcome || is_connected s.start_outcome))
        (pure tt) (lost_locked c e s (e.moments 1).locks_released) w (λ _. here)
        (λ h. lost_locked-Leads s (e.moments 1).locks_released w (ground (arith, h)))

  claim_open-Leads :
      (has_profile : Bool) (orphan : Option Text) (w : World c)
      → Leads c e a b (claim_open c e has_profile orphan w.session) w
  claim_open-Leads has_profile orphan w =
      Leads-if c e a b
        (e.native_running || w.session.running || w.session.starting || not has_profile)
        (pure false) (do modify c e (find_orphan orphan); grant c e) w (λ _. here)
        (λ _.
          Leads-modify c e a b (find_orphan orphan) (grant c e) w (orphans orphan)
            (next here (grants_recovery (e.moments 3).instant)))

  watch_owner-Leads : (w : World c) → Leads c e a b (watch_owner c e w.session) w
  watch_owner-Leads w =
      Leads-if c e a b (not w.session.extension_lease && is_interface c e e.is_ui)
        (refresh_owner_liveness c e) (pure tt) w (λ _. refresh-Leads w) (λ _. here)

  pub claim_recovery-Leads :
      (has_profile : Bool) (orphan : Option Text) (w : World c)
      → Leads c e a b (claim_platform_vpn_auto_recovery c e has_profile orphan) w
  unfolding claim_platform_vpn_auto_recovery
  claim_recovery-Leads has_profile orphan w =
      Leads-synced c e a b 0 (watch_and_claim c e has_profile orphan) w (λ v _.
        Leads-bind c e a b (watch_owner c e v.session)
          (λ _. do now ← get; claim_open c e has_profile orphan now) v (watch_owner-Leads v)
          (λ _ u. claim_open-Leads has_profile orphan u))

  pub rearm-Leads : (w : World c) → Leads c e a b (rearm_platform_vpn_auto_recovery c e) w
  unfolding rearm_platform_vpn_auto_recovery
  rearm-Leads w = next here (rearms (e.moments 0).instant e.native_running)
