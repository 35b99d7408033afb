-- ===== src/Session/Leads/Starts.antt =====
-- crates/paws_core/src/lib.rs: a start, its failure and its cancellation move the session along.
use paws.Base.{ℕ, ◌≡◌, ◌∙◌, Text, Bool, true, false, not, ◌&&◌, ◌||◌, arith, ◌==◌, nat_eq}
use paws.PlatformOwner.Record.{ProcessIdentity}
use paws.PlatformOwner.Disk.{Codec}
use paws.PlatformOwner.{read, create_pending_exact, delete_pending_exact}
use paws.Session.{is_pending}
use paws.Session.World.{
  Env, World, ◌>>=◌, ◌>>◌, pure, modify, persist, intent_superseded, os_stop_pending,
  already_pending, cleanup_pending, already_connected, journal_pending, lease_refused,
}
use paws.Session.Stops.{owes_cleanup, is_current_intent}
use paws.Session.Starts.{
  open_attempt, pending_owner, start_is_pending, fail_start, cancel_start, is_missing,
  create_attempt, begin_synced, begin_checked, begin_as, begin_platform_vpn_start_for_intent,
  deletes_unattached, fail_deleted, fail_checked, fail_platform_vpn_start_if, cancel_checked,
  cancel_platform_vpn_start,
}
use paws.Session.Moves.{Scope, replaces, here, opens, fails_start, cancels}
use paws.Session.Leads.{
  Leads, Leads-if, Leads-guard, Leads-journal, Leads-synced, Leads-published, Leads-identity,
}

module _ (c : Codec) (e : Env) (a : Scope) (b : Bool) where
  create-Leads :
      (sequence : ℕ) (attempt : Text) (issuer : ProcessIdentity) (w : World c)
      → replaces a ≡ true
      → w.session.os_stop_epoch ≡ 0
      → is_pending w.session.start_outcome ≡ false
      → owes_cleanup w.session ≡ false
      → w.session.running ≡ false
      → Leads c e a b (create_attempt c e sequence attempt issuer) w
  unfolding create_attempt
  create-Leads sequence attempt issuer w h epoch outcome owes running =
      Leads-journal c e a b 1 (read c) _ w (λ found d.
        Leads-guard c e a b (is_missing c e found) journal_pending _ (record w { journal = d })
          (λ _.
            Leads-guard c e a b (e.moments 1).acquires lease_refused _ (record w { journal = d })
              (λ _.
                Leads-journal c e a b 2
                  (λ f. create_pending_exact c f (pending_owner attempt issuer))
                  (λ _. do modify c e (open_attempt sequence attempt); persist c e 3; pure attempt)
                  (record w { journal = d })
                  (λ _ d'.
                    Leads-published c e a b (open_attempt sequence attempt) 3 attempt
                      (record w { journal = d' })
                      (opens sequence attempt h epoch outcome owes running)))))

  begin_synced-Leads :
      (issuer : ProcessIdentity) (w : World c)
      → replaces a ≡ true
      → w.session.os_stop_epoch ≡ 0
      → Leads c e a b (begin_synced c e issuer w.session) w
  unfolding begin_synced
  begin_synced-Leads issuer w h epoch =
      Leads-guard c e a b (not (is_pending w.session.start_outcome)) already_pending _ w (λ outcome.
        Leads-guard c e a b (not (owes_cleanup w.session)) cleanup_pending _ w (λ owes.
          Leads-guard c e a b (not (w.session.running || e.native_running)) already_connected _ w
            (λ running.
              create-Leads _ _ issuer w h epoch (ground (arith, outcome)) (ground (arith, owes))
                (ground (arith, running)))))

  pub begin-Leads :
      (epoch : ℕ) (w : World c)
      → replaces a ≡ true
      → Leads c e a b (begin_platform_vpn_start_for_intent c e epoch) w
  unfolding begin_platform_vpn_start_for_intent begin_as begin_checked
  begin-Leads epoch w h = Leads-identity c e a b (begin_as c e epoch) w (λ issuer.
      Leads-guard c e a b (is_current_intent epoch w.session) intent_superseded _ w (λ _.
        Leads-guard c e a b (w.session.os_stop_epoch == 0) os_stop_pending _ w (λ none_.
          Leads-synced c e a b 0 (begin_synced c e issuer) w
            (λ v keeps. begin_synced-Leads issuer v h (keeps.epoch ∙ ground (arith, none_))))))

  fail_deleted-Leads :
      (attempt error : Text) (unattached deleted : Bool) (w : World c)
      → start_is_pending attempt w.session ≡ true
      → Leads c e a b (fail_deleted c e error unattached deleted) w
  unfolding fail_deleted
  fail_deleted-Leads attempt error unattached false w h = here
  fail_deleted-Leads attempt error unattached true w h =
      Leads-published c e a b (fail_start error unattached) 2 true w
        (fails_start attempt error unattached h)

  fail_pending-Leads :
      (attempt error : Text) (unattached : Bool) (w : World c)
      → start_is_pending attempt w.session ≡ true
      → Leads c e a b
          (do
            deleted ← deletes_unattached c e attempt unattached
            fail_deleted c e error unattached deleted)
          w
  fail_pending-Leads attempt error false w h = fail_deleted-Leads attempt error false true w h
  fail_pending-Leads attempt error true w h =
      Leads-journal c e a b 1 (λ f. delete_pending_exact c f attempt)
        (λ deleted. fail_deleted c e error true deleted) w
        (λ deleted d. fail_deleted-Leads attempt error true deleted (record w { journal = d }) h)

  fail_checked-Leads :
      (attempt error : Text) (unattached : Bool) (w : World c)
      → Leads c e a b (fail_checked c e attempt error unattached w.session) w
  unfolding fail_checked
  fail_checked-Leads attempt error unattached w =
      Leads-if c e a b
        (not (start_is_pending attempt w.session) || unattached && w.session.extension_attached)
        (pure false) _ w (λ _. here)
        (λ h. fail_pending-Leads attempt error unattached w (ground (arith, h)))

  pub fail-Leads :
      (attempt error : Text) (unattached : Bool) (w : World c)
      → Leads c e a b (fail_platform_vpn_start_if c e attempt error unattached) w
  unfolding fail_platform_vpn_start_if
  fail-Leads attempt error unattached w =
      Leads-synced c e a b 0 (fail_checked c e attempt error unattached) w
        (λ v _. fail_checked-Leads attempt error unattached v)

  cancel_checked-Leads :
      (attempt : Text) (w : World c) → Leads c e a b (cancel_checked c e attempt w.session) w
  unfolding cancel_checked
  cancel_checked-Leads attempt w =
      Leads-if c e a b (start_is_pending attempt w.session) _ (pure false) w
        (λ h. Leads-published c e a b cancel_start 1 true w (cancels attempt h)) (λ _. here)

  pub cancel-Leads :
      (attempt : Text) (w : World c) → Leads c e a b (cancel_platform_vpn_start c e attempt) w
  unfolding cancel_platform_vpn_start
  cancel-Leads attempt w =
      Leads-synced c e a b 0 (cancel_checked c e attempt) w (λ v _. cancel_checked-Leads attempt v)
