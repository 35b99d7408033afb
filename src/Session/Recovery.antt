-- ===== src/Session/Recovery.antt =====
-- crates/paws_core/src/lib.rs: the automatic recovery of a session that was lost.
use paws.Base.{
  ℕ, ◌+◌, min, Text, text, Bool, true, false, not, ◌&&◌, ◌||◌, Option, none, some, ◌==◌, nat_eq,
  text_eq, ltb, leb, is_empty, if◌then◌else◌,
}
use paws.PlatformOwner.Record.{PlatformVpnOwnerPhase, phase_eq, JournalRead, missing, present}
use paws.PlatformOwner.Disk.{Codec}
use paws.PlatformOwner.{read}
use paws.Session.{Session, is_pending, is_connected, apply_platform_failure}
use paws.Session.World.{
  Env, Handler, ◌>>=◌, ◌>>◌, pure, refuse, get, modify, on_journal, persist, lease_refused,
}
use paws.Session.Remote.{arm_recovery, sync}

abbrev pub forget_recovery : Session → Session
forget_recovery s = record s { auto_recovery_pending = false; auto_recovery_not_before = none }

abbrev pub not_yet : ℕ → Option ℕ → Bool
not_yet now none = false
not_yet now (some not_before) = ltb now not_before

-- The grant of an automatic recovery: at most three, not before its time.
unfoldable pub grant_recovery : ℕ → Session → Bool × Session
grant_recovery now s =
    if not s.auto_recovery_pending
    then (false, s)
    else if leb 3 s.auto_recovery_attempts
    then (false, forget_recovery s)
    else if not_yet now s.auto_recovery_not_before
    then (false, s)
    else (
      true,
      record (forget_recovery s) {
        auto_recovery_attempts = min (s.auto_recovery_attempts + 1) 255;
      },
    )

-- A session that was connected when the program was killed.
unfoldable pub find_orphan : Option Text → Session → Session
find_orphan none s = s
find_orphan (some dead) s =
    if not s.auto_recovery_pending
      && is_empty s.start_attempt_id
      && is_empty s.auto_recovery_attempt_id
    then record s {
      auto_recovery_pending = true;
      auto_recovery_attempt_id = dead;
      auto_recovery_attempts = 0;
      auto_recovery_not_before = none;
    }
    else s

unfoldable pub rearm : ℕ → Bool → Session → Session
rearm now native_running s =
    if native_running || s.running || s.starting
    then s
    else if ltb 0 s.auto_recovery_attempts && ltb s.auto_recovery_attempts 3
    then record s {
      auto_recovery_pending = true;
      auto_recovery_not_before =
          some (now + (if s.auto_recovery_attempts == 1 then 10000000000 else 30000000000));
    }
    else s

unfoldable pub release_found : Session → Session
unfolding arm_recovery apply_platform_failure
release_found s =
    arm_recovery s (apply_platform_failure (text "VPN extension owner lease was released") s)

module _ (c : Codec) (e : Env) where
  abbrev pub is_own_journal : Session → JournalRead → Bool
  is_own_journal s missing = false
  is_own_journal s (present j) =
      j.attempt_id == s.start_attempt_id
      && j.phase == PlatformVpnOwnerPhase.attached
      && elim j.extension [
        | none ↦ false
        | some owner ↦
            owner.pid == s.extension_owner_pid && owner.start_time == s.extension_owner_start_time
      ]

  abbrev pub lost_found : Session → JournalRead → Handler c (Unit {0})
  lost_found s found =
      if is_own_journal s found then (do modify c e release_found; persist c e 2) else pure tt

  abbrev pub lost_locked : Session → Option Bool → Handler c (Unit {0})
  lost_locked s none = refuse lease_refused
  lost_locked s (some false) = pure tt
  lost_locked s (some true) = do found ← on_journal c e 1 (read c); lost_found s found

  -- `refresh_platform_vpn_owner_liveness_locked`
  unfoldable pub refresh_owner_liveness : Handler c (Unit {0})
  unfolding release_found persist on_journal
  refresh_owner_liveness = do
    s ← get
    if not s.extension_attached
          || s.cleanup_complete
          || not (is_pending s.start_outcome || is_connected s.start_outcome)
        then pure tt
        else lost_locked s (e.moments 1).locks_released

  abbrev pub is_interface : Option Bool → Bool
  is_interface none = true
  is_interface (some is_ui) = is_ui

  abbrev pub watch_owner : Session → Handler c (Unit {0})
  watch_owner s =
      if not s.extension_lease && is_interface e.is_ui then refresh_owner_liveness else pure tt

  abbrev pub grant : Handler c Bool
  grant w =
      pure (grant_recovery (e.moments 3).instant w.session).0
        (record w { session = (grant_recovery (e.moments 3).instant w.session).1 })

  abbrev pub claim_open : Bool → Option Text → Session → Handler c Bool
  claim_open has_profile orphan s =
      if e.native_running || s.running || s.starting || not has_profile
      then pure false
      else do modify c e (find_orphan orphan); grant

  abbrev pub watch_and_claim : Bool → Option Text → Session → Handler c Bool
  watch_and_claim has_profile orphan s = do
    watch_owner s
    now ← get
    claim_open has_profile orphan now

  -- `true` stands for the options that are returned. Whether a profile is active and what
  -- `detect_cold_orphaned_connected_vpn` finds are arguments.
  unfoldable pub claim_platform_vpn_auto_recovery : Bool → Option Text → Handler c Bool
  unfolding sync refresh_owner_liveness grant_recovery find_orphan
  claim_platform_vpn_auto_recovery has_profile orphan = do
    sync c e 0
    s ← get
    watch_and_claim has_profile orphan s

  unfoldable pub rearm_platform_vpn_auto_recovery : Handler c (Unit {0})
  unfolding rearm
  rearm_platform_vpn_auto_recovery = modify c e (rearm (e.moments 0).instant e.native_running)
