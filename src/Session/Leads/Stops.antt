-- ===== src/Session/Leads/Stops.antt =====
-- crates/paws_core/src/lib.rs: the intents and the stops of the system move the session along.
use paws.Base.{
  ℕ, ◌≡◌, Text, Bool, true, false, not, ◌||◌, Option, none, some, [], arith, ◌==◌, nat_eq, text_eq,
  ltb, if◌then◌else◌,
}
use paws.PlatformOwner.Record.{
  ProcessIdentity, PlatformVpnOwnerPhase, PlatformVpnOwnerJournal, JournalRead, missing, present,
}
use paws.PlatformOwner.Disk.{Codec}
use paws.PlatformOwner.{read, fence_pending_stop_exact}
use paws.Session.World.{
  Env, World, ◌>>◌, pure, modify, persist, journal_changed, fence_mismatch, state_mismatch,
  intent_superseded, os_stop_in_flight, journal_missing, intent_exhausted,
}
use paws.Session.Stops.{
  u64_max, owes_cleanup, is_current_intent, fenced, claim_stop, refenced, fence_owner, fence_again,
  publish_stop, retained_differs, claim_present, claim_found, claim_synced,
  claim_current_platform_vpn_stop, advance_platform_vpn_intent, begin_platform_vpn_os_stop,
  complete_platform_vpn_os_stop, fail_platform_vpn_os_stop,
}
use paws.Session.Moves.{
  Scope, here, next, claims, fences, advances, begins_os_stop, completes_os_stop, fails_os_stop,
}
use paws.Session.Leads.{
  Leads, Leads-if, Leads-guard, Leads-guard_only, Leads-bind, Leads-journal, Leads-persist,
  Leads-synced, Leads-modify,
}

module _ (c : Codec) (e : Env) (a : Scope) (b : Bool) where
  fence_again-Leads :
      (attempt : Text) (did : Bool) (w : World c) → Leads c e a b (fence_again c e attempt did) w
  fence_again-Leads attempt true w = here
  fence_again-Leads attempt false w =
      Leads-journal c e a b 3 (read c) (λ found. refenced c e attempt found) w
        (λ found d. go found (record w { journal = d }))
    where
      go : (found : JournalRead) (w' : World c) → Leads c e a b (refenced c e attempt found) w'
      go missing w' = here
      go (present j) w' = Leads-guard_only c e a b _ journal_changed w'

  fence_owner-Leads :
      (j : PlatformVpnOwnerJournal) (phase : PlatformVpnOwnerPhase) (x : Option ProcessIdentity)
      (w : World c)
      → Leads c e a b (fence_owner c e j phase x) w
  unfolding fence_owner
  fence_owner-Leads j PlatformVpnOwnerPhase.stopping none w = here
  fence_owner-Leads j PlatformVpnOwnerPhase.stopping (some x) w = here
  fence_owner-Leads j PlatformVpnOwnerPhase.attached none w = here
  fence_owner-Leads j PlatformVpnOwnerPhase.attached (some x) w = here
  fence_owner-Leads j PlatformVpnOwnerPhase.pending (some x) w = here
  fence_owner-Leads j PlatformVpnOwnerPhase.pending none w =
      Leads-journal c e a b 2 (λ f. fence_pending_stop_exact c f j.attempt_id j.issuer)
        (λ did. fence_again c e j.attempt_id did) w
        (λ did d. fence_again-Leads j.attempt_id did (record w { journal = d }))

  publish_stop-Leads : (w : World c) → Leads c e a b (publish_stop c e w.session) w
  unfolding publish_stop
  publish_stop-Leads w =
      Leads-if c e a b (owes_cleanup w.session) (do modify c e claim_stop; persist c e 1) (pure tt)
        w
        (λ h.
          Leads-modify c e a b claim_stop (persist c e 1) w (claims h)
            (Leads-persist c e a b 1 (record w { session = claim_stop w.session })))
        (λ h. here)

  claim_present-Leads :
      (epoch : ℕ) (retained : Option Text) (j : PlatformVpnOwnerJournal) (w : World c)
      → (epoch == 0) ≡ false
      → Leads c e a b (claim_present c e epoch retained w.session j) w
  unfolding claim_present
  claim_present-Leads epoch retained j w h =
      Leads-guard c e a b (not (retained_differs c e retained j.attempt_id)) fence_mismatch _ w
        (λ _.
          Leads-guard c e a b
            (not (owes_cleanup w.session) || w.session.start_attempt_id == j.attempt_id)
            state_mismatch _ w
            (λ _. Leads-bind c e a b (publish_stop c e w.session) _ w (publish_stop-Leads w) (λ _ v.
              Leads-bind c e a b (fence_owner c e j j.phase j.extension) _ v
                (fence_owner-Leads j j.phase j.extension v)
                (λ _ v'.
                  Leads-modify c e a b (fenced epoch j.attempt_id false) (pure j.attempt_id) v'
                    (fences epoch j.attempt_id h) here))))

  claim_found-Leads :
      (epoch : ℕ) (retained : Option Text) (found : JournalRead) (w : World c)
      → (epoch == 0) ≡ false
      → Leads c e a b (claim_found c e epoch retained w.session found) w
  unfolding claim_found
  claim_found-Leads epoch retained (present j) w h = claim_present-Leads epoch retained j w h
  claim_found-Leads epoch none missing w h =
      Leads-guard c e a b (not (owes_cleanup w.session)) journal_missing (pure []) w (λ _. here)
  claim_found-Leads epoch (some attempt) missing w h =
      Leads-guard c e a b (not (owes_cleanup w.session)) journal_missing
        (do modify c e (fenced epoch attempt false); pure attempt) w
        (λ _.
          Leads-modify c e a b (fenced epoch attempt false) (pure attempt) w
            (fences epoch attempt h) here)

  claim_synced-Leads :
      (epoch : ℕ) (retained : Option Text) (w : World c)
      → (epoch == 0) ≡ false
      → Leads c e a b (claim_synced c e epoch retained w.session) w
  unfolding claim_synced
  claim_synced-Leads epoch retained w h =
      Leads-journal c e a b 0 (read c) (λ found. claim_found c e epoch retained w.session found) w
        (λ found d. claim_found-Leads epoch retained found (record w { journal = d }) h)

  pub claim-Leads :
      (epoch : ℕ) (w : World c) → Leads c e a b (claim_current_platform_vpn_stop c e epoch) w
  unfolding claim_current_platform_vpn_stop
  claim-Leads epoch w =
      let retained : Option Text =
        (if w.session.os_stop_epoch == 0 then none else some w.session.os_stop_attempt_id) in
      Leads-guard c e a b (is_current_intent epoch w.session) intent_superseded _ w (λ current.
        Leads-guard c e a b (not w.session.os_stop_in_flight) os_stop_in_flight _ w (λ _.
          Leads-synced c e a b 0 (claim_synced c e epoch retained) w
            (λ v _. claim_synced-Leads epoch retained v (ground (arith, current)))))

  pub begin_os_stop-Leads :
      (epoch : ℕ) (attempt : Text) (w : World c)
      → Leads c e a b (begin_platform_vpn_os_stop c e epoch attempt) w
  unfolding begin_platform_vpn_os_stop
  begin_os_stop-Leads epoch attempt w = next here (begins_os_stop epoch attempt)

  pub complete_os_stop-Leads :
      (epoch : ℕ) (attempt : Text) (w : World c)
      → b ≡ true
      → Leads c e a b (complete_platform_vpn_os_stop c e epoch attempt) w
  unfolding complete_platform_vpn_os_stop
  complete_os_stop-Leads epoch attempt w h = next here (completes_os_stop epoch attempt h)

  pub fail_os_stop-Leads :
      (epoch : ℕ) (attempt : Text) (w : World c)
      → Leads c e a b (fail_platform_vpn_os_stop c e epoch attempt) w
  unfolding fail_platform_vpn_os_stop
  fail_os_stop-Leads epoch attempt w = next here (fails_os_stop epoch attempt)

  pub advance-Leads : (w : World c) → Leads c e a b (advance_platform_vpn_intent c e) w
  unfolding advance_platform_vpn_intent
  advance-Leads w =
      Leads-guard c e a b (ltb w.session.intent_epoch u64_max) intent_exhausted _ w
        (λ _. next here advances)
