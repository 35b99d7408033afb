-- ===== src/Session/Leads/Binding.antt =====
-- crates/paws_core/src/lib.rs: a binding moves the session along.
use paws.Base.{
  ℕ, ◌≡◌, refl, ap, ◌∙◌, ◌⊎◌, Text, Bool, true, false, not, ◌&&◌, Option, none, some, arith, ◌==◌,
  nat_eq, text_eq, is_empty,
}
use paws.PlatformOwner.Record.{
  ProcessIdentity, identity_eq, PlatformVpnOwnerPhase, PlatformVpnOwnerJournal, JournalRead,
  missing, present, Result,
}
use paws.PlatformOwner.Lease.{PlatformVpnOwnerLeaseObservation, held_exact, held_other, released}
use paws.PlatformOwner.Disk.{Codec, JournalFile, Faults}
use paws.PlatformOwner.{read, upgrade_attached_exact, rebind_attached_exact}
use paws.Session.{Session, PlatformVpnState, is_pending, is_terminal}
use paws.Session.World.{
  Refusal, Remote, envelope, nothing, unreadable, Env, World, ◌>>=◌, ◌>>◌, pure, guard, get, modify,
  on_journal, persist, lease_refused, empty_attempt, stale_attempt, terminal_attempt, journal_stale,
  superseded_after_attachment,
}
use paws.Session.Binding.{
  reopen, name_owner, owner_changed, attach, keep_lease, start_refusal, take_valid, bind_remote,
  bind_side, sync_for_binding, expect_held, expect_released, rebind_by, rebind_owner, own_journal,
  own_found, own_read, read_own, publish_attached, publish_synced, publish_binding, bind_synced,
  bind_platform_vpn_start, attach_platform_shared_memory,
}
use paws.Session.Moves.{
  Scope, replaces, next, reattaches, here, binds, reopens, leases, names, attaches, observes,
}
use paws.Session.Leads.{
  Leads, Leads-if, Leads-guard, Leads-bind, Leads-persist, Leads-synced, Leads-modify,
  Leads-identity, Leads-envelope, Stays, Stays-guard, Stays-journal, Stays-bind, Leads-after_still,
}

module _ (c : Codec) (e : Env) (a : Scope) (b : Bool) where
  -- The attempt may be replaced, or it is the session's.
  abbrev pub MayBind : Text → Session → Type 0
  MayBind attempt s = (replaces a ≡ true) ⊎ (s.start_attempt_id ≡ attempt)

  bind_side-Leads :
      (attempt : Text) (side : Option Bool) (w : World c)
      → MayBind attempt w.session
      → Leads c e a b (bind_side c e attempt side) w
  bind_side-Leads attempt none w h = here
  bind_side-Leads attempt (some true) w h = here
  bind_side-Leads attempt (some false) w h = go (e.moments 0).remote
    where
      valid :
          (r : Option PlatformVpnState) (refusal : Option Refusal)
          → Leads c e a b (take_valid c e attempt r refusal) w
      valid r (some refusal) = here
      valid r none =
          Leads-envelope c e a b 0 false (some attempt) r w
            (binds (e.moments 0).instant attempt r h)

      go : (r : Remote) → Leads c e a b (bind_remote c e attempt r) w
      go unreadable = here
      go nothing = here
      go (envelope r) = valid r (start_refusal attempt r)

  sync_for_binding-Leads :
      (attempt : Text) (w : World c)
      → MayBind attempt w.session
      → Leads c e a b (sync_for_binding c e attempt) w
  unfolding sync_for_binding
  sync_for_binding-Leads attempt w h = bind_side-Leads attempt e.is_ui w h

  -- None of the steps that own the journal changes the session.
  expect_held-Stays :
      (o : Option PlatformVpnOwnerLeaseObservation) (w : World c)
      → Stays c e a b (expect_held c e o) w
  expect_held-Stays none w = refl
  expect_held-Stays (some held_exact) w = refl
  expect_held-Stays (some released) w = refl
  expect_held-Stays (some held_other) w = refl

  expect_released-Stays :
      (o : Option PlatformVpnOwnerLeaseObservation) (w : World c)
      → Stays c e a b (expect_released c e o) w
  expect_released-Stays none w = refl
  expect_released-Stays (some held_exact) w = refl
  expect_released-Stays (some released) w = refl
  expect_released-Stays (some held_other) w = refl

  -- A lease is taken, then the journal is written.
  acquired-Stays :
      (n : ℕ) (op : Faults → JournalFile c.Bytes → Result (Unit {0}) × JournalFile c.Bytes)
      (w : World c)
      → Stays c e a b
          (do guard (e.moments n).acquires lease_refused; on_journal c e n op; pure true)
          w
  acquired-Stays n op w =
      Stays-bind c e a b (guard (e.moments n).acquires lease_refused)
        (λ _. do on_journal c e n op; pure true) w
        (Stays-guard c e a b (e.moments n).acquires lease_refused w)
        (λ _ v.
          Stays-bind c e a b (on_journal c e n op) (λ _. pure true) v (Stays-journal c e a b n op v)
            (λ _ u. refl))

  rebind-Stays :
      (j : PlatformVpnOwnerJournal) (owner current : ProcessIdentity) (has_lease same : Bool)
      (w : World c)
      → Stays c e a b (rebind_by c e j owner current has_lease same) w
  rebind-Stays j owner current true true w = refl
  rebind-Stays j owner current false true w =
      Stays-bind c e a b (guard (e.moments 2).acquires lease_refused) (λ _. pure true) w
        (Stays-guard c e a b (e.moments 2).acquires lease_refused w) (λ _ v. refl)
  rebind-Stays j owner current has_lease false w =
      Stays-bind c e a b (expect_released c e (e.moments 1).observes) _ w
        (expect_released-Stays (e.moments 1).observes w)
        (λ _ v.
          acquired-Stays 2 (λ f. rebind_attached_exact c f j.attempt_id j.issuer current owner) v)

  own-Stays :
      (j : PlatformVpnOwnerJournal) (owner : ProcessIdentity) (has_lease : Bool)
      (phase : PlatformVpnOwnerPhase) (x : Option ProcessIdentity) (w : World c)
      → Stays c e a b (own_journal c e j owner has_lease phase x) w
  unfolding own_journal rebind_owner
  own-Stays j owner has_lease PlatformVpnOwnerPhase.pending none w =
      Stays-bind c e a b (expect_held c e (e.moments 1).observes) _ w
        (expect_held-Stays (e.moments 1).observes w)
        (λ _ v. acquired-Stays 2 (λ f. upgrade_attached_exact c f j.attempt_id j.issuer owner) v)
  own-Stays j owner has_lease PlatformVpnOwnerPhase.pending (some x) w = refl
  own-Stays j owner has_lease PlatformVpnOwnerPhase.attached none w = refl
  own-Stays j owner has_lease PlatformVpnOwnerPhase.attached (some x) w =
      rebind-Stays j owner x has_lease (x == owner) w
  own-Stays j owner has_lease PlatformVpnOwnerPhase.stopping none w = refl
  own-Stays j owner has_lease PlatformVpnOwnerPhase.stopping (some x) w = refl

  read_own-Stays : (attempt : Text) (w : World c) → Stays c e a b (read_own c e attempt) w
  unfolding read_own
  read_own-Stays attempt w =
      Stays-bind c e a b (on_journal c e 1 (read c)) (λ found. own_found c e attempt found) w
        (Stays-journal c e a b 1 (read c) w) go
    where
      go : (found : JournalRead) (v : World c) → Stays c e a b (own_found c e attempt found) v
      go missing v = refl
      go (present j) v =
          Stays-bind c e a b (guard (j.attempt_id == attempt) journal_stale) (λ _. pure j) v
            (Stays-guard c e a b (j.attempt_id == attempt) journal_stale v) (λ _ u. refl)

  publish_attached-Leads :
      (changed : Bool) (s : Session) (w : World c)
      → w.session.extension_attached ≡ s.extension_attached
      → Leads c e a b (publish_attached c e changed s) w
  publish_attached-Leads changed s w h =
      Leads-if c e a b (not s.extension_attached) _ _ w
        (λ new.
          Leads-modify c e a b attach (persist c e 4) w (attaches (ground (arith, new)))
            (Leads-persist c e a b 4 _))
        (λ _.
          Leads-if c e a b (is_pending s.start_outcome && s.starting && not s.running) _ _ w
            (λ _.
              Leads-modify c e a b (λ s. record s { delivery_observed = true }) (persist c e 4) w
                observes (Leads-persist c e a b 4 _))
            (λ _.
              Leads-if c e a b changed (persist c e 4) (pure tt) w (λ _. Leads-persist c e a b 4 w)
                (λ _. here)))

  publish_synced-Leads :
      (attempt : Text) (owner : ProcessIdentity) (w : World c)
      → Leads c e a b (publish_synced c e attempt owner w.session) w
  unfolding publish_synced
  publish_synced-Leads attempt owner w =
      Leads-guard c e a b (w.session.start_attempt_id == attempt) superseded_after_attachment _ w
        (λ _.
          Leads-modify c e a b (name_owner owner)
            (publish_attached c e (owner_changed owner w.session) w.session) w (names owner)
            (publish_attached-Leads (owner_changed owner w.session) w.session
              (record w { session = name_owner owner w.session }) refl))

  publish_binding-Leads :
      (attempt : Text) (owner : ProcessIdentity) (w : World c)
      → Leads c e a b (publish_binding c e attempt owner) w
  unfolding publish_binding
  publish_binding-Leads attempt owner w =
      Leads-synced c e a b 3 (publish_synced c e attempt owner) w
        (λ v _. publish_synced-Leads attempt owner v)

  reopen_keeps :
      (native_running : Bool) (s : Session)
      → is_terminal s.start_outcome ≡ false
      → is_terminal (reopen native_running s).start_outcome ≡ false
  unfolding reopen
  reopen_keeps native_running s h = ground arith

  bind_synced-Leads :
      (attempt : Text) (owner : ProcessIdentity) (w : World c)
      → Leads c e a b (bind_synced c e attempt owner w.session) w
  unfolding bind_synced own_read
  bind_synced-Leads attempt owner w =
      Leads-guard c e a b (w.session.start_attempt_id == attempt) stale_attempt _ w (λ _.
        Leads-guard c e a b (not (is_terminal w.session.start_outcome)) terminal_attempt _ w
          (λ open_.
            let w' = record w { session = reopen e.native_running w.session } in
            let s = w.session in
            let own = λ (j : PlatformVpnOwnerJournal).
              own_journal c e j owner s.extension_lease j.phase j.extension in
            let rest = λ (j : PlatformVpnOwnerJournal). (do
              taken ← own j
              modify c e (keep_lease taken)
              publish_binding c e attempt owner) in
            Leads-modify c e a b (reopen e.native_running) (do j ← read_own c e attempt; rest j) w
              (reopens e.native_running (ground (arith, open_)))
              (Leads-after_still c e a b (read_own c e attempt) rest w' (read_own-Stays attempt w')
                (λ j v still.
                  Leads-after_still c e a b (own j)
                    (λ taken. do modify c e (keep_lease taken); publish_binding c e attempt owner) v
                    (own-Stays j owner s.extension_lease j.phase j.extension v)
                    (λ taken u again.
                      Leads-modify c e a b (keep_lease taken) (publish_binding c e attempt owner) u
                        (leases taken (
                          ap (λ (t : Session). is_terminal t.start_outcome) (again ∙ still)
                          ∙ reopen_keeps e.native_running s (ground (arith, open_))))
                        (publish_binding-Leads attempt owner
                          (record u { session = keep_lease taken u.session })))))))

  pub bind-Leads :
      (attempt : Text) (w : World c)
      → MayBind attempt w.session
      → Leads c e a b (bind_platform_vpn_start c e attempt) w
  unfolding bind_platform_vpn_start
  bind-Leads attempt w h = Leads-guard c e a b (not (is_empty attempt)) empty_attempt _ w (λ _.
      Leads-identity c e a b _ w (λ owner.
        Leads-bind c e a b (sync_for_binding c e attempt)
          (λ _. do s ← get; bind_synced c e attempt owner s) w (sync_for_binding-Leads attempt w h)
          (λ _ v. bind_synced-Leads attempt owner v)))

  pub attach_memory-Leads :
      (opens : Bool) (lane : Option PlatformVpnState) (w : World c)
      → Leads c e a b (attach_platform_shared_memory c opens lane) w
  unfolding attach_platform_shared_memory
  attach_memory-Leads false lane w = here
  attach_memory-Leads true lane w = next here reattaches
