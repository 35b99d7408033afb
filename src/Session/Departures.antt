-- ===== src/Session/Departures.antt =====
-- crates/paws_core/src/lib.rs: the recovery of a cleanup ends once the owner is known to be gone.
use paws.Base.{
  ℕ, ◌≡◌, refl, sym, ap, ◌∙◌, subst, Text, Bool, true, false, not, ◌&&◌, Option, none, some, [],
  arith, ◌==◌, text_eq, is_empty, if◌then◌else◌,
}
use paws.PlatformOwner.Record.{
  ProcessIdentity, PlatformVpnOwnerPhase, PlatformVpnOwnerJournal, JournalRead, present, Result,
}
use paws.PlatformOwner.Lease.{PlatformVpnOwnerLeaseObservation, released}
use paws.PlatformOwner.Disk.{Codec, RoundTrips, JournalFile, absent, Faults}
use paws.PlatformOwner.{run, read, delete_exact}
use paws.PlatformOwner.Protocol.{Holds}
use paws.PlatformOwner.Limits.{no_faults, Fits, read_found, delete_found}
use paws.Session.World.{
  Publication, delivered, unwritten, unnotified, Moment, Env, World, Reply, grants, Handler, ◌>>=◌,
  ◌>>◌, pure, get, continue, reply_of, on_journal, stamped, publish_to, persist, modify,
}
use paws.Session.Remote.{sync_with, sync}
use paws.Session.Cleanup.{
  Turn, answers, CleanupRecoveryProof, proven, clean, recover_clean, is_unattached_fence,
  prove_gone, proof_of, recover_proof, recover_found, recover_deleted, recover_session,
  recover_synced, recover_platform_vpn_cleanup,
}
use paws.Session.Promises.{sync_journal}
use paws.Session.Owners.{synced}

-- The owner on record never had the extension and was fenced, or its lease is seen released.
abbrev pub IsGone : Env → PlatformVpnOwnerPhase → Option ProcessIdentity → Type 0
IsGone e PlatformVpnOwnerPhase.stopping none = Unit {0}
IsGone e PlatformVpnOwnerPhase.attached (some extension) = (e.moments 0).observes ≡ some released
IsGone e PlatformVpnOwnerPhase.pending none = (e.moments 0).observes ≡ some released
IsGone e _ _ = ⊥

-- Nothing fails at this look outside, and no other process changes the journal before it.
pub record IsCalm (m : Moment) : Type 0 where
  pub alone : m.others ≡ []
  pub works : m.faults ≡ no_faults
  pub publishes : m.publication ≡ delivered

-- The turn answers that the attempt is recovered: no owner is on record, and the session, if it
-- still has the attempt, is clean.
abbrev pub Recovers : (c : Codec) → Text → Reply Turn × World c → Type 0
Recovers c attempt (reply, w) =
    (reply ≡ grants (answers true))
    × (w.journal ≡ absent)
    × ((w.session.start_attempt_id == attempt) ≡ true → w.session.cleanup_complete ≡ true)

module _ (c : Codec) (e : Env) where
  prove_gone-proven :
      (fenced : Bool) (phase : PlatformVpnOwnerPhase) (extension : Option ProcessIdentity)
      (w : World c)
      → IsGone e phase extension
      → prove_gone c e fenced phase extension w ≡ (grants proven, w)
  unfolding prove_gone
  prove_gone-proven fenced PlatformVpnOwnerPhase.stopping none w g = refl
  prove_gone-proven fenced PlatformVpnOwnerPhase.stopping (some x) w g = absurd g
  prove_gone-proven fenced PlatformVpnOwnerPhase.attached none w g = absurd g
  prove_gone-proven fenced PlatformVpnOwnerPhase.attached (some x) w g =
      ap (λ (o : Option PlatformVpnOwnerLeaseObservation). proof_of c e o w) g
  prove_gone-proven true PlatformVpnOwnerPhase.pending none w g = refl
  prove_gone-proven false PlatformVpnOwnerPhase.pending none w g =
      ap (λ (o : Option PlatformVpnOwnerLeaseObservation). proof_of c e o w) g
  prove_gone-proven fenced PlatformVpnOwnerPhase.pending (some x) w g = absurd g

  session-Recovers :
      (attempt : Text) (w : World c)
      → w.journal ≡ absent
      → (e.moments 3).publication ≡ delivered
      → Recovers c attempt (recover_session c e attempt w.session w)
  unfolding recover_session persist recover_clean clean
  session-Recovers attempt w gone p =
      go (w.session.start_attempt_id == attempt) refl w.session.cleanup_complete refl e.is_ui
        (e.moments 3).publication p
    where
      go :
          (same : Bool)
          → (w.session.start_attempt_id == attempt) ≡ same
          → (clean_ : Bool) → w.session.cleanup_complete ≡ clean_
          → (side : Option Bool) (pub_ : Publication) → pub_ ≡ delivered
          → Recovers c attempt (
              (if same && not clean_
                  then (do
                    modify c e recover_clean
                    (λ v. publish_to c e side (stamped c e 3 v.session) pub_ v)
                    pure (answers true))
                  else pure (answers true))
                w)
      go true a true b side pub_ d = (refl, gone, λ _. b)
      go false a clean_ b side pub_ d = (refl, gone, λ h. absurd (ground (arith, a, h)))
      go true a false b none pub_ d = (refl, gone, λ _. refl)
      go true a false b (some ui) delivered d = (refl, gone, λ _. refl)
      go true a false b (some ui) unwritten d = absurd (ground (arith, d))
      go true a false b (some ui) unnotified d = absurd (ground (arith, d))

  deleted-Recovers :
      (attempt : Text) (w : World c)
      → w.journal ≡ absent
      → (e.moments 3).publication ≡ delivered
      → Recovers c attempt (recover_deleted c e attempt true w)
  unfolding recover_deleted sync
  deleted-Recovers attempt w gone p =
      session-Recovers attempt (sync_with c e 2 e.is_ui (e.moments 2).remote w)
        (sync_journal c e 2 w ∙ gone) p

  -- A calm call of the journal is the call itself.
  calm_call :
      {A : Type 0} (m : Moment) (op : Faults → JournalFile c.Bytes → Result A × JournalFile c.Bytes)
      (d : JournalFile c.Bytes)
      → IsCalm m
      → op m.faults (run c d m.others) ≡ op no_faults d
  unfolding run
  calm_call m op d calm = rw (calm.works, calm.alone) refl

  proof-Recovers :
      (deadline : ℕ) (attempt : Text) (j : PlatformVpnOwnerJournal) (w : World c)
      → RoundTrips c
      → Holds c w.journal (some j)
      → Fits c w.journal
      → j.attempt_id ≡ attempt
      → IsCalm (e.moments 1)
      → (e.moments 3).publication ≡ delivered
      → Recovers c attempt (recover_proof c e deadline attempt j.extension proven w)
  unfolding recover_proof on_journal
  proof-Recovers deadline attempt j w rt h fits named calm p =
      subst
        (λ (r : Result Bool × JournalFile c.Bytes).
          Recovers c attempt (
            continue (reply_of c e r.0) (recover_deleted c e attempt) (record w { journal = r.1 })))
        (sym (
          calm_call (e.moments 1) (λ f. delete_exact c f attempt j.extension) w.journal calm
          ∙ ap (λ (a : Text). delete_exact c no_faults a j.extension w.journal) (sym named)
          ∙ delete_found c w.journal j rt h fits))
        (deleted-Recovers attempt (record w { journal = absent }) refl p)

  found-Recovers :
      (deadline : ℕ) (attempt : Text) (fenced : Bool) (j : PlatformVpnOwnerJournal) (w : World c)
      → RoundTrips c
      → Holds c w.journal (some j)
      → Fits c w.journal
      → j.attempt_id ≡ attempt
      → IsGone e j.phase j.extension
      → IsCalm (e.moments 1)
      → (e.moments 3).publication ≡ delivered
      → Recovers c attempt (recover_found c e deadline attempt fenced (present j) w)
  unfolding recover_found
  found-Recovers deadline attempt fenced j w rt h fits named gone calm p =
      go (j.attempt_id == attempt) (ground (arith, named))
    where
      proved : Reply CleanupRecoveryProof × World c → Reply Turn × World c
      proved q = continue q.0 (recover_proof c e deadline attempt j.extension) q.1

      go :
          (same : Bool)
          → same ≡ true
          → Recovers c attempt (
              (if not same then pure (answers false) else do
                proof ← prove_gone c e fenced j.phase j.extension
                recover_proof c e deadline attempt j.extension proof)
                w)
      go false a = absurd (ground (arith, a))
      go true a =
          subst (λ (q : Reply CleanupRecoveryProof × World c). Recovers c attempt (proved q))
            (sym (prove_gone-proven fenced j.phase j.extension w gone))
            (proof-Recovers deadline attempt j w rt h fits named calm p)

  synced-Recovers :
      (deadline : ℕ) (attempt : Text) (w : World c) (j : PlatformVpnOwnerJournal)
      → RoundTrips c
      → Holds c w.journal (some j)
      → Fits c w.journal
      → j.attempt_id ≡ attempt
      → IsGone e j.phase j.extension
      → ((n : ℕ) → IsCalm (e.moments n))
      → (w.session.start_attempt_id == attempt && w.session.cleanup_complete) ≡ false
      → Recovers c attempt (recover_synced c e deadline attempt w.session w)
  unfolding recover_synced on_journal
  synced-Recovers deadline attempt w j rt h fits named gone calm dirty =
      go (w.session.start_attempt_id == attempt && w.session.cleanup_complete) dirty
    where
      k : JournalRead → Handler c Turn
      k = recover_found c e deadline attempt (is_unattached_fence attempt w.session)

      go :
          (clean_ : Bool)
          → clean_ ≡ false
          → Recovers c attempt
              ((if clean_ then pure (answers true) else (on_journal c e 0 (read c) >>= k)) w)
      go true n = absurd (ground (arith, n))
      go false n =
          subst
            (λ (r : Result JournalRead × JournalFile c.Bytes).
              Recovers c attempt (continue (reply_of c e r.0) k (record w { journal = r.1 })))
            (sym (
              calm_call (e.moments 0) (read c) w.journal (calm 0)
              ∙ read_found c w.journal j rt h fits))
            (found-Recovers deadline attempt (is_unattached_fence attempt w.session) j w rt h fits
              named gone (calm 1) (calm 3).publishes)

-- Once the owner of an attempt is known to be gone, fenced before the extension had it or with its
-- lease seen released, and where no look outside of the call fails or is raced, one turn of the
-- recovery of its cleanup ends the loop: it answers that the attempt is recovered, no owner is on
-- record, and a session that has the attempt is clean, whatever the frames of the other process say.
-- The session, once it has taken the first frame, does not already hold the attempt as clean.
pub gone_owner_is_recovered :
    (c : Codec) (e : Env) (deadline : ℕ) (attempt : Text) (w : World c)
    (j : PlatformVpnOwnerJournal)
    → RoundTrips c
    → Holds c w.journal (some j)
    → Fits c w.journal
    → j.attempt_id ≡ attempt
    → IsGone e j.phase j.extension
    → ((n : ℕ) → IsCalm (e.moments n))
    → is_empty attempt ≡ false
    → ((synced c e w).session.start_attempt_id == attempt
        && (synced c e w).session.cleanup_complete)
      ≡ false
    → Recovers c attempt (recover_platform_vpn_cleanup c e deadline attempt w)
unfolding recover_platform_vpn_cleanup sync
gone_owner_is_recovered c e deadline attempt w j rt h fits named gone calm nonempty dirty =
    go (is_empty attempt) nonempty
  where
    same : (synced c e w).journal ≡ w.journal
    same = sync_journal c e 0 w

    go :
        (b : Bool)
        → b ≡ false
        → Recovers c attempt (
            (if b
                then pure (answers false)
                else do sync c e 0; s ← get; recover_synced c e deadline attempt s)
              w)
    go true n = absurd (ground (arith, n))
    go false n =
        synced-Recovers c e deadline attempt (synced c e w) j rt
          (subst (λ (d : JournalFile c.Bytes). Holds c d (some j)) (sym same) h)
          (subst (λ (d : JournalFile c.Bytes). Fits c d) (sym same) fits) named gone calm dirty
