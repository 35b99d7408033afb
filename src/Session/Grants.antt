-- ===== src/Session/Grants.antt =====
-- crates/paws_core/src/lib.rs: a start that is granted has its owner in the journal.
use paws.Base.{
  ℕ, ◌+◌, min, ◌≡◌, refl, sym, ap, ◌∙◌, subst, Text, Bool, true, false, not, ◌||◌, Option, some,
  text_eq,
}
use paws.PlatformOwner.Record.{
  ProcessIdentity, PlatformVpnOwnerJournal, JournalRead, ok, journal_eq,
}
use paws.PlatformOwner.Disk.{Codec, RoundTrips, JournalFile}
use paws.PlatformOwner.{run, read, create_pending_exact}
use paws.PlatformOwner.Protocol.{Holds}
use paws.PlatformOwner.Effects.{run-Holds, read_leaves, create-Holds}
use paws.Session.{Session, pending, is_pending}
use paws.Session.World.{
  Env, World, ◌>>◌, guard, already_pending, cleanup_pending, already_connected,
}
use paws.Session.Remote.{sync_with, sync}
use paws.Session.Stops.{owes_cleanup, u64_max}
use paws.Session.Starts.{
  attempt_name, open_attempt, pending_owner, is_missing, create_attempt, begin_synced,
  begin_checked, begin_as, begin_platform_vpn_start_for_intent,
}
use paws.Session.Promises.{
  Promises, Promises-guard, Promises-identity, Promises-journal, Promises-published, sync_journal,
}

-- The attempt has just been opened, by this issuer.
pub record IsStarted (c : Codec) (issuer : Option ProcessIdentity) (attempt : Text) (w : World c)
    : Type 0 where
  pub opened : w.session.start_attempt_id ≡ attempt
  pub waits : w.session.start_outcome ≡ pending
  pub starts : w.session.starting ≡ true
  pub leased : w.session.issuer_lease ≡ true
  pub recorded :
      (i : ProcessIdentity) × (issuer ≡ some i) × Holds c w.journal (some (pending_owner attempt i))

module _ (c : Codec) (e : Env) where
  owner_recorded :
      (attempt : Text) (issuer : ProcessIdentity) (w : World c) (v : Option PlatformVpnOwnerJournal)
      (found : JournalRead) (d d' : JournalFile c.Bytes)
      → RoundTrips c
      → Holds c w.journal v
      → read c (e.moments 1).faults (run c w.journal (e.moments 1).others) ≡ (ok found, d)
      → create_pending_exact c
          (e.moments 2).faults
          (pending_owner attempt issuer)
          (run c d (e.moments 2).others)
        ≡ (ok tt, d')
      → Holds c d' (some (pending_owner attempt issuer))
  owner_recorded attempt issuer w v found d d' rt h q q' =
      let r = run c w.journal (e.moments 1).others in
      let (v1, h1) = run-Holds c w.journal v (e.moments 1).others rt h in
      let same = sym (read_leaves c (e.moments 1).faults r) ∙ ap (λ p. p.1) q in
      let (v2, h2) = run-Holds c d v1 (e.moments 2).others rt (subst (λ x. Holds c x v1) same h1) in
      subst (λ x. Holds c x (some (pending_owner attempt issuer))) (ap (λ p. p.1) q')
        (create-Holds c (e.moments 2).faults (run c d (e.moments 2).others) v2
          (pending_owner attempt issuer) rt h2 (ap (λ p. p.0) q'))

  create-IsStarted :
      (sequence : ℕ) (attempt : Text) (issuer : ProcessIdentity) (w : World c)
      (v : Option PlatformVpnOwnerJournal)
      → RoundTrips c
      → Holds c w.journal v
      → e.identity ≡ some issuer
      → Promises c (IsStarted c e.identity) (create_attempt c e sequence attempt issuer w)
  unfolding create_attempt
  create-IsStarted sequence attempt issuer w v rt h i =
      Promises-journal c e (IsStarted c e.identity) 1 (read c) _ w (λ found d q.
        Promises-guard c (IsStarted c e.identity) (is_missing c e found) _ _
          (record w { journal = d })
          (Promises-guard c (IsStarted c e.identity) (e.moments 1).acquires _ _
            (record w { journal = d })
            (Promises-journal c e (IsStarted c e.identity) 2
              (λ f. create_pending_exact c f (pending_owner attempt issuer)) _
              (record w { journal = d })
              (λ _ d' q'.
                Promises-published c e (IsStarted c e.identity) 3 attempt
                  (record w { session = open_attempt sequence attempt w.session; journal = d' })
                  (λ lane. record {
                    opened = refl;
                    waits = refl;
                    starts = refl;
                    leased = refl;
                    recorded = (issuer, i, owner_recorded attempt issuer w v found d d' rt h q q');
                  })))))

  begin_synced-IsStarted :
      (issuer : ProcessIdentity) (now : Session) (w : World c) (v : Option PlatformVpnOwnerJournal)
      → RoundTrips c
      → Holds c w.journal v
      → e.identity ≡ some issuer
      → Promises c (IsStarted c e.identity) (begin_synced c e issuer now w)
  unfolding begin_synced
  begin_synced-IsStarted issuer now w v rt h i =
      let sequence = min (now.start_sequence + 1) u64_max in
      let create =
        create_attempt c e sequence (attempt_name (e.moments 1).unix_nanos sequence) issuer in
      let unconnected = guard (not (now.running || e.native_running)) already_connected >> create in
      let clean = guard (not (owes_cleanup now)) cleanup_pending >> unconnected in
      Promises-guard c (IsStarted c e.identity) (not (is_pending now.start_outcome)) already_pending
        clean w
        (Promises-guard c (IsStarted c e.identity) (not (owes_cleanup now)) cleanup_pending
          unconnected w
          (Promises-guard c (IsStarted c e.identity) (not (now.running || e.native_running))
            already_connected create w
            (create-IsStarted sequence (attempt_name (e.moments 1).unix_nanos sequence) issuer w v
              rt h i)))

  begin_checked-IsStarted :
      (current free : Bool) (issuer : ProcessIdentity) (w : World c)
      (v : Option PlatformVpnOwnerJournal)
      → RoundTrips c
      → Holds c w.journal v
      → e.identity ≡ some issuer
      → Promises c (IsStarted c e.identity) (begin_checked c e current free issuer w)
  unfolding begin_checked sync
  begin_checked-IsStarted false free issuer w v rt h i = tt
  begin_checked-IsStarted true false issuer w v rt h i = tt
  begin_checked-IsStarted true true issuer w v rt h i =
      let u = sync_with c e 0 e.is_ui (e.moments 0).remote w in
      begin_synced-IsStarted issuer u.session u v rt
        (subst (λ x. Holds c x v) (sym (sync_journal c e 0 w)) h) i

-- A start that is granted, on any answers of the system, of the other process and of other processes
-- that change the journal meanwhile, where the journal held the record of an owner or none and
-- serialisation is undone by parsing, has opened the attempt that it answers, pending and under the
-- lease of its issuer, and the journal holds exactly the pending owner of that attempt and issuer.
pub granted_start_is_recorded :
    (c : Codec) (e : Env) (epoch : ℕ) (w : World c) (v : Option PlatformVpnOwnerJournal)
    → RoundTrips c
    → Holds c w.journal v
    → Promises c (IsStarted c e.identity) (begin_platform_vpn_start_for_intent c e epoch w)
unfolding begin_platform_vpn_start_for_intent begin_as
granted_start_is_recorded c e epoch w v rt h =
    Promises-identity c (IsStarted c e.identity) e e.identity (begin_as c e epoch) w
      (λ issuer i. begin_checked-IsStarted c e _ _ issuer w v rt h i)
