-- ===== src/Session/Stops.antt =====
-- crates/paws_core/src/lib.rs: the order of intents, and the stop of the extension by the system,
-- which fences a start until it is confirmed.
use paws.Base.{
  ℕ, ◌+◌, Text, Bool, true, false, not, ◌&&◌, ◌||◌, Option, none, some, [], ◌==◌, nat_eq, text_eq,
  ltb, is_empty, is_some, if◌then◌else◌,
}
use paws.PlatformOwner.Record.{
  ProcessIdentity, PlatformVpnOwnerPhase, PlatformVpnOwnerJournal, JournalRead, missing, present,
}
use paws.PlatformOwner.Disk.{Codec}
use paws.PlatformOwner.{read, fence_pending_stop_exact}
use paws.Session.{Session, cancelled, is_pending}
use paws.Session.World.{
  Env, Handler, ◌>>=◌, ◌>>◌, pure, refuse, guard, get, modify, on_journal, persist,
  intent_exhausted, intent_superseded, os_stop_in_flight, fence_mismatch, state_mismatch,
  journal_missing, journal_changed, invalid_phase,
}
use paws.Session.Remote.{sync}

abbrev pub u64_max : ℕ
u64_max = 18446744073709551615

abbrev pub is_current_intent : ℕ → Session → Bool
is_current_intent epoch s = not (epoch == 0) && s.intent_epoch == epoch

abbrev pub is_fence : ℕ → Text → Session → Bool
is_fence epoch attempt s = s.os_stop_epoch == epoch && s.os_stop_attempt_id == attempt

unfoldable pub is_platform_vpn_stop_current : ℕ → Text → Session → Bool
is_platform_vpn_stop_current epoch attempt s =
    is_current_intent epoch s && is_fence epoch attempt s && not s.os_stop_in_flight

abbrev pub no_fence : Session → Session
no_fence s = record s { os_stop_epoch = 0; os_stop_attempt_id = []; os_stop_in_flight = false }

abbrev pub fenced : ℕ → Text → Bool → Session → Session
fenced epoch attempt in_flight s = record s {
  os_stop_epoch = epoch;
  os_stop_attempt_id = attempt;
  os_stop_in_flight = in_flight;
}

-- A stop with no attempt to fence makes its own fence.
unfoldable pub begin_os_stop : ℕ → Text → Session → Bool × Session
begin_os_stop epoch attempt s =
    if not (is_current_intent epoch s) || s.os_stop_in_flight
    then (false, s)
    else if s.os_stop_epoch == 0
    then (if is_empty attempt then (true, fenced epoch [] true s) else (false, s))
    else if is_fence epoch attempt s
    then (true, record s { os_stop_in_flight = true })
    else (false, s)

unfoldable pub complete_os_stop : ℕ → Text → Session → Bool × Session
complete_os_stop epoch attempt s =
    if is_fence epoch attempt s && s.os_stop_in_flight then (true, no_fence s) else (false, s)

unfoldable pub fail_os_stop : ℕ → Text → Session → Bool × Session
fail_os_stop epoch attempt s =
    if is_fence epoch attempt s && s.os_stop_in_flight
    then (true, record s { os_stop_in_flight = false })
    else (false, s)

-- The attempt is made terminal, or asked to stop.
unfoldable pub claim_stop : Session → Session
claim_stop s =
    if is_pending s.start_outcome
    then record s {
      start_outcome = cancelled;
      starting = false;
      running = false;
      network_protected = false;
      network_protect_error = none;
      stop_requested = true;
    }
    else record s { stop_requested = true }

-- An attempt that still owes its cleanup.
abbrev pub owes_cleanup : Session → Bool
owes_cleanup s = not (is_empty s.start_attempt_id) && not s.cleanup_complete

module _ (c : Codec) (e : Env) where
  unfoldable pub update : (Session → Bool × Session) → Handler c Bool
  update f w = let (b, s) = f w.session in pure b (record w { session = s })

  unfoldable pub advance_platform_vpn_intent : Handler c ℕ
  advance_platform_vpn_intent = do
    s ← get
    guard (ltb s.intent_epoch u64_max) intent_exhausted
    modify c e (λ s. record s { intent_epoch = s.intent_epoch + 1 })
    pure (s.intent_epoch + 1)

  unfoldable pub begin_platform_vpn_os_stop : ℕ → Text → Handler c Bool
  unfolding update begin_os_stop
  begin_platform_vpn_os_stop epoch attempt = update (begin_os_stop epoch attempt)

  unfoldable pub complete_platform_vpn_os_stop : ℕ → Text → Handler c Bool
  unfolding update complete_os_stop
  complete_platform_vpn_os_stop epoch attempt = update (complete_os_stop epoch attempt)

  unfoldable pub fail_platform_vpn_os_stop : ℕ → Text → Handler c Bool
  unfolding update fail_os_stop
  fail_platform_vpn_os_stop epoch attempt = update (fail_os_stop epoch attempt)

  abbrev pub is_fenced_owner : PlatformVpnOwnerPhase → Option ProcessIdentity → Bool
  is_fenced_owner PlatformVpnOwnerPhase.pending extension = false
  is_fenced_owner PlatformVpnOwnerPhase.attached extension = is_some extension
  is_fenced_owner PlatformVpnOwnerPhase.stopping extension = not (is_some extension)

  -- The journal after a fence that did not take.
  abbrev pub refenced : Text → JournalRead → Handler c (Unit {0})
  refenced attempt missing = refuse journal_missing
  refenced attempt (present j) =
      guard (j.attempt_id == attempt && is_fenced_owner j.phase j.extension) journal_changed

  abbrev pub fence_again : Text → Bool → Handler c (Unit {0})
  fence_again attempt true = pure tt
  fence_again attempt false = do found ← on_journal c e 3 (read c); refenced attempt found

  -- A pending owner is fenced by the journal; one that is attached stops by itself.
  unfoldable pub fence_owner :
      PlatformVpnOwnerJournal
      → PlatformVpnOwnerPhase
      → Option ProcessIdentity
      → Handler c (Unit {0})
  fence_owner j PlatformVpnOwnerPhase.stopping none = pure tt
  fence_owner j PlatformVpnOwnerPhase.attached (some extension) = pure tt
  fence_owner j PlatformVpnOwnerPhase.pending none = do
    did ← on_journal c e 2 (λ f. fence_pending_stop_exact c f j.attempt_id j.issuer)
    fence_again j.attempt_id did
  fence_owner j _ _ = refuse invalid_phase

  -- The terminal state is published before the journal is fenced.
  unfoldable pub publish_stop : Session → Handler c (Unit {0})
  unfolding claim_stop persist
  publish_stop s = if owes_cleanup s then (do modify c e claim_stop; persist c e 1) else pure tt

  abbrev pub retained_differs : Option Text → Text → Bool
  retained_differs none attempt = false
  retained_differs (some retained) attempt = not (retained == attempt)

  unfoldable pub claim_present :
      ℕ → Option Text → Session → PlatformVpnOwnerJournal → Handler c Text
  unfolding publish_stop fence_owner
  claim_present epoch retained s j = do
    guard (not (retained_differs retained j.attempt_id)) fence_mismatch
    guard (not (owes_cleanup s) || s.start_attempt_id == j.attempt_id) state_mismatch
    publish_stop s
    fence_owner j j.phase j.extension
    modify c e (fenced epoch j.attempt_id false)
    pure j.attempt_id

  abbrev pub retain_fence : ℕ → Option Text → Handler c Text
  retain_fence epoch none = pure []
  retain_fence epoch (some attempt) = do modify c e (fenced epoch attempt false); pure attempt

  unfoldable pub claim_found : ℕ → Option Text → Session → JournalRead → Handler c Text
  unfolding claim_present
  claim_found epoch retained s (present j) = claim_present epoch retained s j
  claim_found epoch retained s missing = do
    guard (not (owes_cleanup s)) journal_missing
    retain_fence epoch retained

  unfoldable pub claim_synced : ℕ → Option Text → Session → Handler c Text
  unfolding claim_found on_journal
  claim_synced epoch retained s = do
    found ← on_journal c e 0 (read c)
    claim_found epoch retained s found

  unfoldable pub claim_current_platform_vpn_stop : ℕ → Handler c Text
  unfolding claim_synced sync
  claim_current_platform_vpn_stop epoch = do
    s ← get
    guard (is_current_intent epoch s) intent_superseded
    guard (not s.os_stop_in_flight) os_stop_in_flight
    sync c e 0
    now ← get
    claim_synced epoch (if s.os_stop_epoch == 0 then none else some s.os_stop_attempt_id) now
