-- ===== src/Session/Leads/Cleanup.antt =====
-- crates/paws_core/src/lib.rs: the end of an attempt moves the session along.
use paws.Base.{
  ℕ, ◌≡◌, Text, Bool, true, false, not, ◌&&◌, ◌||◌, Option, none, some, arith, ◌==◌, text_eq,
  is_empty,
}
use paws.PlatformOwner.Record.{
  ProcessIdentity, PlatformVpnOwnerPhase, PlatformVpnOwnerJournal, JournalRead, missing, present,
}
use paws.PlatformOwner.Lease.{PlatformVpnOwnerLeaseObservation, held_exact, held_other, released}
use paws.PlatformOwner.Disk.{Codec}
use paws.PlatformOwner.{read, delete_exact}
use paws.Session.World.{
  Env, World, ◌>>=◌, ◌>>◌, pure, get, modify, persist, owner_mismatch, journal_changed,
  lease_missing, journal_missing,
}
use paws.Session.Remote.{sync}
use paws.Session.Cleanup.{
  may_clean, clean, recover_clean, is_unattached_fence, CleanupRecoveryProof, proven, owner_alive,
  owner_liveness_unknown, answers, is_acknowledging, clean_deleted, clean_present, clean_found,
  clean_checked, complete_platform_vpn_cleanup, proof_of, prove_gone, recover_session,
  recover_deleted, recover_proof, recovered_already, recover_found, recover_synced,
  recover_platform_vpn_cleanup,
}
use paws.Session.Moves.{Scope, here, cleans, recovers}
use paws.Session.Leads.{
  Leads, Leads-if, Leads-guard, Leads-journal, Leads-synced, Leads-published, Leads-identity,
  Leads-bind,
}

module _ (c : Codec) (e : Env) (a : Scope) (b : Bool) where
  clean_deleted-Leads :
      (deleted : Bool) (w : World c)
      → may_clean w.session ≡ true
      → Leads c e a b (clean_deleted c e deleted) w
  unfolding clean_deleted
  clean_deleted-Leads deleted w h =
      Leads-guard c e a b deleted journal_changed (do modify c e clean; persist c e 2; pure true) w
        (λ _. Leads-published c e a b clean 2 true w (cleans h))

  clean_present-Leads :
      (attempt : Text) (owner : ProcessIdentity) (j : PlatformVpnOwnerJournal) (w : World c)
      → may_clean w.session ≡ true
      → Leads c e a b (clean_present c e attempt owner w.session j) w
  unfolding clean_present
  clean_present-Leads attempt owner j w h =
      Leads-if c e a b (not (j.attempt_id == attempt)) (pure false) _ w (λ _. here)
        (λ _.
          Leads-guard c e a b (is_acknowledging c e owner w.session j.phase j.extension)
            owner_mismatch _ w
            (λ _.
              Leads-journal c e a b 1 (λ f. delete_exact c f attempt j.extension)
                (clean_deleted c e) w
                (λ deleted d. clean_deleted-Leads deleted (record w { journal = d }) h)))

  clean_found-Leads :
      (attempt : Text) (owner : ProcessIdentity) (found : JournalRead) (w : World c)
      → may_clean w.session ≡ true
      → Leads c e a b (clean_found c e attempt owner w.session found) w
  clean_found-Leads attempt owner missing w h = here
  clean_found-Leads attempt owner (present j) w h = clean_present-Leads attempt owner j w h

  clean_checked-Leads :
      (attempt : Text) (owner : ProcessIdentity) (w : World c)
      → Leads c e a b (clean_checked c e attempt owner w.session) w
  unfolding clean_checked
  clean_checked-Leads attempt owner w =
      Leads-if c e a b
        (is_empty attempt
          || not (w.session.start_attempt_id == attempt)
          || not (may_clean w.session))
        (pure false) _ w (λ _. here)
        (λ h.
          Leads-if c e a b w.session.cleanup_complete (pure true) _ w (λ _. here)
            (λ _. Leads-guard c e a b w.session.extension_lease lease_missing _ w (λ _.
              Leads-journal c e a b 0 (read c) (clean_found c e attempt owner w.session) w
                (λ found d.
                  clean_found-Leads attempt owner found (record w { journal = d })
                    (ground (arith, h))))))

  pub complete_cleanup-Leads :
      (attempt : Text) (w : World c) → Leads c e a b (complete_platform_vpn_cleanup c e attempt) w
  unfolding complete_platform_vpn_cleanup
  complete_cleanup-Leads attempt w =
      Leads-identity c e a b (λ owner. do sync c e 0; s ← get; clean_checked c e attempt owner s) w
        (λ owner.
          Leads-synced c e a b 0 (clean_checked c e attempt owner) w
            (λ v _. clean_checked-Leads attempt owner v))

  proof-Leads :
      (o : Option PlatformVpnOwnerLeaseObservation) (w : World c) → Leads c e a b (proof_of c e o) w
  proof-Leads none w = here
  proof-Leads (some held_exact) w = here
  proof-Leads (some released) w = here
  proof-Leads (some held_other) w = here

  prove_gone-Leads :
      (fence : Bool) (phase : PlatformVpnOwnerPhase) (x : Option ProcessIdentity) (w : World c)
      → Leads c e a b (prove_gone c e fence phase x) w
  unfolding prove_gone
  prove_gone-Leads fence PlatformVpnOwnerPhase.stopping none w = here
  prove_gone-Leads fence PlatformVpnOwnerPhase.stopping (some x) w = here
  prove_gone-Leads true PlatformVpnOwnerPhase.pending none w = here
  prove_gone-Leads false PlatformVpnOwnerPhase.pending none w = proof-Leads (e.moments 0).observes w
  prove_gone-Leads fence PlatformVpnOwnerPhase.pending (some x) w = here
  prove_gone-Leads fence PlatformVpnOwnerPhase.attached none w = here
  prove_gone-Leads fence PlatformVpnOwnerPhase.attached (some x) w =
      proof-Leads (e.moments 0).observes w

  recover_session-Leads :
      (attempt : Text) (w : World c) → Leads c e a b (recover_session c e attempt w.session) w
  unfolding recover_session
  recover_session-Leads attempt w =
      Leads-if c e a b (w.session.start_attempt_id == attempt && not w.session.cleanup_complete) _
        (pure (answers true)) w
        (λ h.
          Leads-published c e a b recover_clean 3 (answers true) w (recovers (ground (arith, h))))
        (λ _. here)

  recover_deleted-Leads :
      (attempt : Text) (deleted : Bool) (w : World c)
      → Leads c e a b (recover_deleted c e attempt deleted) w
  unfolding recover_deleted
  recover_deleted-Leads attempt false w = here
  recover_deleted-Leads attempt true w =
      Leads-synced c e a b 2 (recover_session c e attempt) w
        (λ v _. recover_session-Leads attempt v)

  recover_proof-Leads :
      (deadline : ℕ) (attempt : Text) (x : Option ProcessIdentity) (p : CleanupRecoveryProof)
      (w : World c)
      → Leads c e a b (recover_proof c e deadline attempt x p) w
  unfolding recover_proof
  recover_proof-Leads deadline attempt x proven w =
      Leads-journal c e a b 1 (λ f. delete_exact c f attempt x) (recover_deleted c e attempt) w
        (λ deleted d. recover_deleted-Leads attempt deleted (record w { journal = d }))
  recover_proof-Leads deadline attempt x owner_alive w = here
  recover_proof-Leads deadline attempt x owner_liveness_unknown w = here

  recover_found-Leads :
      (deadline : ℕ) (attempt : Text) (fence : Bool) (found : JournalRead) (w : World c)
      → Leads c e a b (recover_found c e deadline attempt fence found) w
  unfolding recover_found
  recover_found-Leads deadline attempt fence missing w =
      Leads-synced c e a b 1 (recovered_already c e attempt) w (λ v _.
        Leads-guard c e a b (v.session.start_attempt_id == attempt && v.session.cleanup_complete)
          journal_missing (pure (answers true)) v (λ _. here))
  recover_found-Leads deadline attempt fence (present j) w =
      Leads-if c e a b (not (j.attempt_id == attempt)) (pure (answers false)) _ w (λ _. here)
        (λ _.
          Leads-bind c e a b (prove_gone c e fence j.phase j.extension)
            (recover_proof c e deadline attempt j.extension) w
            (prove_gone-Leads fence j.phase j.extension w)
            (λ p v. recover_proof-Leads deadline attempt j.extension p v))

  recover_synced-Leads :
      (deadline : ℕ) (attempt : Text) (w : World c)
      → Leads c e a b (recover_synced c e deadline attempt w.session) w
  unfolding recover_synced
  recover_synced-Leads deadline attempt w =
      Leads-if c e a b (w.session.start_attempt_id == attempt && w.session.cleanup_complete)
        (pure (answers true)) _ w (λ _. here)
        (λ _.
          Leads-journal c e a b 0 (read c)
            (recover_found c e deadline attempt (is_unattached_fence attempt w.session)) w
            (λ found d.
              recover_found-Leads deadline attempt (is_unattached_fence attempt w.session) found
                (record w { journal = d })))

  pub recover-Leads :
      (deadline : ℕ) (attempt : Text) (w : World c)
      → Leads c e a b (recover_platform_vpn_cleanup c e deadline attempt) w
  unfolding recover_platform_vpn_cleanup
  recover-Leads deadline attempt w =
      Leads-if c e a b (is_empty attempt) (pure (answers false))
        (do sync c e 0; s ← get; recover_synced c e deadline attempt s) w (λ _. here)
        (λ _.
          Leads-synced c e a b 0 (recover_synced c e deadline attempt) w
            (λ v _. recover_synced-Leads deadline attempt v))
