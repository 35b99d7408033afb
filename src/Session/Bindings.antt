-- ===== src/Session/Bindings.antt =====
-- crates/paws_core/src/lib.rs: an extension that is bound is the owner in the journal.
use paws.Base.{
  ◌≡◌, refl, sym, ap, subst, Text, Bool, true, false, not, Option, none, some, arith, ◌==◌, nat_eq,
  text_eq, is_empty,
}
use paws.PlatformOwner.Record.{
  ProcessIdentity, identity_eq, PlatformVpnOwnerPhase, PlatformVpnOwnerJournal, JournalRead,
  missing, present, Result, ok, err,
}
use paws.PlatformOwner.Disk.{Codec, RoundTrips, JournalFile, Faults}
use paws.PlatformOwner.{run, read, upgrade_attached_exact, rebind_attached_exact}
use paws.PlatformOwner.Protocol.{Holds}
use paws.PlatformOwner.Effects.{
  run-Holds, Reads, read-Reads, IsOwnedBy, attach-IsOwnedBy, rebind-IsOwnedBy,
}
use paws.Session.{Session, is_terminal}
use paws.Session.World.{
  Env, World, Reply, grants, refuses, Handler, ◌>>=◌, ◌>>◌, pure, get, modify, continue, guard,
  reply_of, on_journal, lease_refused, stale_attempt, terminal_attempt, empty_attempt,
  journal_stale,
}
use paws.Session.Starts.{current_process_identity}
use paws.Session.Binding.{
  reopen, keep_lease, expect_held, expect_released, rebind_by, rebind_owner, own_journal, own_found,
  read_own, own_read, publish_binding, sync_for_binding, bind_synced, bind_platform_vpn_start,
}
use paws.Session.Promises.{Promises, Promises-guard, Promises-identity, Promises-journal}
use paws.Session.Journals.{
  Promises-after, Promises-then, expect_held-LeavesJournal, expect_released-LeavesJournal,
  publish_binding-LeavesJournal, bind_side-LeavesJournal,
}

module _ (c : Codec) (e : Env) (rt : RoundTrips c) (j : PlatformVpnOwnerJournal)
    (owner : ProcessIdentity) where
  -- The owner is this extension.
  abbrev Owned : JournalFile c.Bytes → Type 0
  Owned d = IsOwnedBy c j.attempt_id owner d

  -- A call of the journal that takes the attempt when it succeeds, for any owner on record.
  owning_call :
      (op : Faults → JournalFile c.Bytes → Result (Unit {0}) × JournalFile c.Bytes) (w : World c)
      → Holds c w.journal (some j)
      → ((f : Faults) (d : JournalFile c.Bytes) (v : Option PlatformVpnOwnerJournal)
          → Holds c d v
          → (op f d).0 ≡ ok tt
          → Owned (op f d).1)
      → Promises c (λ _ u. Owned u.journal) ((do on_journal c e 2 op; pure true) w)
  owning_call op w h owns =
      Promises-journal c e (λ (_ : Bool) u. Owned u.journal) 2 op (λ _. pure true) w
        (λ a d q.
          let (v, held) = run-Holds c w.journal (some j) (e.moments 2).others rt h in
          subst Owned (ap (λ p. p.1) q) (
            owns (e.moments 2).faults (run c w.journal (e.moments 2).others) v held
              (ap (λ p. p.0) q)))

  own_pending :
      (has_lease : Bool) (w : World c)
      → Holds c w.journal (some j)
      → Promises c
          (λ _ u. Owned u.journal)
          (own_journal c e j owner has_lease PlatformVpnOwnerPhase.pending none w)
  unfolding own_journal
  own_pending has_lease w h =
      let op = λ (f : Faults). upgrade_attached_exact c f j.attempt_id j.issuer owner in
      Promises-after c Owned (expect_held c e (e.moments 1).observes) _ w
        (expect_held-LeavesJournal c e (e.moments 1).observes)
        (λ _ u same.
          Promises-guard c (λ (_ : Bool) x. Owned x.journal) (e.moments 2).acquires lease_refused
            (do on_journal c e 2 op; pure true) u
            (owning_call op u (subst (λ d. Holds c d (some j)) (sym same) h)
              (λ f d v held ok_. attach-IsOwnedBy c f d rt v j.attempt_id j.issuer owner held ok_)))

  own_attached :
      (current : ProcessIdentity) (has_lease : Bool) (w : World c)
      → Holds c w.journal (some j)
      → j.phase ≡ PlatformVpnOwnerPhase.attached
      → j.extension ≡ some current
      → Promises c
          (λ _ u. Owned u.journal)
          (own_journal c e j owner has_lease PlatformVpnOwnerPhase.attached (some current) w)
  unfolding own_journal rebind_owner
  own_attached current has_lease w h p x = go has_lease (current == owner) refl
    where
      op : Faults → JournalFile c.Bytes → Result (Unit {0}) × JournalFile c.Bytes
      op f = rebind_attached_exact c f j.attempt_id j.issuer current owner

      mine : (current == owner) ≡ true → Owned w.journal
      mine same = (j, refl, p, ground (arith, x, same), h)

      go :
          (lease same : Bool)
          → (current == owner) ≡ same
          → Promises c (λ _ u. Owned u.journal) (rebind_by c e j owner current lease same w)
      go true true same = mine same
      go false true same =
          Promises-guard c (λ (_ : Bool) u. Owned u.journal) (e.moments 2).acquires lease_refused
            (pure true) w (mine same)
      go lease false same =
          Promises-after c Owned (expect_released c e (e.moments 1).observes) _ w
            (expect_released-LeavesJournal c e (e.moments 1).observes)
            (λ _ u left.
              Promises-guard c (λ (_ : Bool) x. Owned x.journal) (e.moments 2).acquires
                lease_refused (do on_journal c e 2 op; pure true) u
                (owning_call op u (subst (λ d. Holds c d (some j)) (sym left) h) (λ f d v held ok_.
                  rebind-IsOwnedBy c f d rt v j.attempt_id j.issuer current owner held ok_)))

  own_any :
      (phase : PlatformVpnOwnerPhase) (extension : Option ProcessIdentity) (has_lease : Bool)
      (w : World c)
      → Holds c w.journal (some j)
      → j.phase ≡ phase
      → j.extension ≡ extension
      → Promises c (λ _ u. Owned u.journal) (own_journal c e j owner has_lease phase extension w)
  unfolding own_journal
  own_any PlatformVpnOwnerPhase.pending none has_lease w h p x = own_pending has_lease w h
  own_any PlatformVpnOwnerPhase.pending (some y) has_lease w h p x = tt
  own_any PlatformVpnOwnerPhase.attached none has_lease w h p x = tt
  own_any PlatformVpnOwnerPhase.attached (some y) has_lease w h p x =
      own_attached y has_lease w h p x
  own_any PlatformVpnOwnerPhase.stopping none has_lease w h p x = tt
  own_any PlatformVpnOwnerPhase.stopping (some y) has_lease w h p x = tt

module _ (c : Codec) (e : Env) (rt : RoundTrips c) where
  read_own-Holds :
      {B : Type 0} (Q : B → World c → Type 0) (attempt : Text)
      (k : PlatformVpnOwnerJournal → Handler c B) (w : World c) (v : Option PlatformVpnOwnerJournal)
      → Holds c w.journal v
      → ((j : PlatformVpnOwnerJournal) (d : JournalFile c.Bytes)
          → Holds c d (some j)
          → j.attempt_id ≡ attempt
          → Promises c Q (k j (record w { journal = d })))
      → Promises c Q ((read_own c e attempt >>= k) w)
  unfolding read_own on_journal
  read_own-Holds {B} Q attempt k w v h named =
      let (v', held) = run-Holds c w.journal v (e.moments 1).others rt h in
      go v' (read c (e.moments 1).faults (run c w.journal (e.moments 1).others)) held
        (read-Reads c (e.moments 1).faults (run c w.journal (e.moments 1).others) v' rt held)
    where
      d0 : JournalFile c.Bytes
      d0 = run c w.journal (e.moments 1).others

      after : Reply PlatformVpnOwnerJournal × World c → Reply B × World c
      after p = continue p.0 k p.1

      own :
          (j : PlatformVpnOwnerJournal) (d : JournalFile c.Bytes) (same : Bool)
          → (j.attempt_id == attempt) ≡ same
          → Holds c d (some j)
          → Promises c Q (after ((guard same journal_stale >> pure j) (record w { journal = d })))
      own j d true same held = named j d held (ground (arith, same))
      own j d false same held = tt

      go :
          (v' : Option PlatformVpnOwnerJournal) (p : Result JournalRead × JournalFile c.Bytes)
          → Holds c d0 v'
          → Reads c d0 v' p
          → Promises c Q (
              after
                (continue (reply_of c e p.0) (own_found c e attempt) (record w { journal = p.1 })))
      go v' (err x, d) held r = tt
      go v' (ok missing, d) held r = tt
      go none (ok (present j), d) held (found, left) = absurd (ground (arith, found))
      go (some j') (ok (present j), d) held (found, left) =
          own j d (j.attempt_id == attempt) refl (ground (arith, held, found, left))

  bind_synced-IsOwnedBy :
      (attempt : Text) (owner : ProcessIdentity) (s : Session) (w : World c)
      (v : Option PlatformVpnOwnerJournal)
      → Holds c w.journal v
      → Promises c (λ _ u. IsOwnedBy c attempt owner u.journal) (bind_synced c e attempt owner s w)
  unfolding bind_synced own_read
  bind_synced-IsOwnedBy attempt owner s w v h =
      let Q = λ (_ : Unit {0}) (u : World c). IsOwnedBy c attempt owner u.journal in
      let ends =
        λ (taken : Bool). modify c e (keep_lease taken) >> publish_binding c e attempt owner in
      let owns = λ (j : PlatformVpnOwnerJournal). own_read c e owner s.extension_lease j >>= ends in
      let reads = read_own c e attempt >>= owns in
      let opens = modify c e (reopen e.native_running) >> reads in
      Promises-guard c Q (s.start_attempt_id == attempt) stale_attempt
        (guard (not (is_terminal s.start_outcome)) terminal_attempt >> opens) w
        (Promises-guard c Q (not (is_terminal s.start_outcome)) terminal_attempt opens w (
          read_own-Holds Q attempt owns (record w { session = reopen e.native_running w.session }) v
            h
            (λ j d held named.
              let u = record w { session = reopen e.native_running w.session; journal = d } in
              Promises-then c (IsOwnedBy c attempt owner) (own_read c e owner s.extension_lease j)
                ends u
                (subst
                  (λ a.
                    Promises c (λ (_ : Bool) x. IsOwnedBy c a owner x.journal)
                      (own_read c e owner s.extension_lease j u))
                  named
                  (own_any c e rt j owner j.phase j.extension s.extension_lease u held refl refl))
                (λ taken x.
                  publish_binding-LeavesJournal c e attempt owner
                    (record x { session = keep_lease taken x.session })))))

-- The process of the handler has the attempt in the journal.
abbrev pub IsBound : (c : Codec) → Env → Text → JournalFile c.Bytes → Type 0
IsBound c e attempt d =
    (owner : ProcessIdentity) × (e.identity ≡ some owner) × IsOwnedBy c attempt owner d

-- An extension whose bind is granted, on any answers of the system, of the other process and of
-- other processes that change the journal meanwhile, where the journal held the record of an owner
-- or none and serialisation is undone by parsing, is the owner of that attempt in the journal,
-- attached under its own identity, whether it took the attempt, took it over or had it already.
pub granted_bind_is_owner :
    (c : Codec) (e : Env) (attempt : Text) (w : World c) (v : Option PlatformVpnOwnerJournal)
    → RoundTrips c
    → Holds c w.journal v
    → Promises c (λ _ u. IsBound c e attempt u.journal) (bind_platform_vpn_start c e attempt w)
unfolding bind_platform_vpn_start
granted_bind_is_owner c e attempt w v rt h =
    Promises-guard c Q (not (is_empty attempt)) empty_attempt
      (current_process_identity c e >>= synced) w
      (Promises-identity c Q e e.identity synced w (λ owner i.
        Promises-after c (IsBound c e attempt) (sync_for_binding c e attempt) (bound owner) w
          (bind_side-LeavesJournal c e attempt)
          (λ _ u same. lift owner i (bind_synced c e attempt owner u.session u) (
            bind_synced-IsOwnedBy c e rt attempt owner u.session u v
              (subst (λ d. Holds c d v) (sym same) h)))))
  where
    Q : Unit {0} → World c → Type 0
    Q _ u = IsBound c e attempt u.journal

    bound : ProcessIdentity → Unit {0} → Handler c (Unit {0})
    bound owner _ = do s ← get; bind_synced c e attempt owner s

    synced : ProcessIdentity → Handler c (Unit {0})
    synced owner = sync_for_binding c e attempt >>= bound owner

    lift :
        (owner : ProcessIdentity)
        → e.identity ≡ some owner
        → (p : Reply (Unit {0}) × World c)
        → Promises c (λ _ u. IsOwnedBy c attempt owner u.journal) p
        → Promises c Q p
    lift owner i (grants a, u) x = (owner, i, x)
    lift owner i (refuses r, u) x = tt
