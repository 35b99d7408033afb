-- ===== src/Session/Promises.antt =====
-- crates/paws_core/src/lib.rs: what holds where a handler grants, and which parts leave the journal.
use paws.Base.{ℕ, ◌≡◌, refl, Text, Bool, true, false, Option, none, some, text_eq, if◌then◌else◌}
use paws.PlatformOwner.Record.{ProcessIdentity, Result, ok, err, journal_eq}
use paws.PlatformOwner.Disk.{Codec, JournalFile, Faults}
use paws.PlatformOwner.{run}
use paws.Session.{Session, PlatformVpnState}
use paws.Session.World.{
  Publication, delivered, unwritten, unnotified, Remote, envelope, nothing, unreadable, Env, World,
  Refusal, Reply, grants, refuses, Handler, ◌>>=◌, ◌>>◌, pure, continue, guard, reply_of,
  on_journal, stamped, publish_to, persist,
}
use paws.Session.Remote.{apply_state, apply_platform_envelope, sync_with}
use paws.Session.Starts.{identified}

module _ (c : Codec) where
  -- What holds of the answer and the world where a handler grants.
  abbrev pub Promises : {A : Type 0} → (A → World c → Type 0) → Reply A × World c → Type 0
  Promises Q (grants a, w) = Q a w
  Promises Q (refuses r, w) = Unit {0}

  pub Promises-guard :
      {A : Type 0} (Q : A → World c → Type 0) (b : Bool) (r : Refusal) (k : Handler c A)
      (w : World c)
      → Promises Q (k w)
      → Promises Q ((guard b r >> k) w)
  Promises-guard Q true r k w h = h
  Promises-guard Q false r k w h = tt

  pub Promises-identity :
      {A : Type 0} (Q : A → World c → Type 0) (e : Env) (i : Option ProcessIdentity)
      (k : ProcessIdentity → Handler c A) (w : World c)
      → ((identity : ProcessIdentity) → i ≡ some identity → Promises Q (k identity w))
      → Promises Q ((identified c e i >>= k) w)
  Promises-identity Q e none k w h = tt
  Promises-identity Q e (some identity) k w h = h identity refl

module _ (c : Codec) (e : Env) where
  pub Promises-journal :
      {A B : Type 0} (Q : B → World c → Type 0) (n : ℕ)
      (op : Faults → JournalFile c.Bytes → Result A × JournalFile c.Bytes) (k : A → Handler c B)
      (w : World c)
      → ((a : A) (d : JournalFile c.Bytes)
          → op (e.moments n).faults (run c w.journal (e.moments n).others) ≡ (ok a, d)
          → Promises c Q (k a (record w { journal = d })))
      → Promises c Q ((on_journal c e n op >>= k) w)
  unfolding on_journal
  Promises-journal {A} Q n op k w h =
      go (op (e.moments n).faults (run c w.journal (e.moments n).others)) refl
    where
      go :
          (p : Result A × JournalFile c.Bytes)
          → op (e.moments n).faults (run c w.journal (e.moments n).others) ≡ p
          → Promises c Q (continue (reply_of c e p.0) k (record w { journal = p.1 }))
      go (ok a, d) q = h a d q
      go (err r, d) q = tt

  -- A publication that succeeds leaves the session but for its stamp, and the journal.
  pub Promises-published :
      {A : Type 0} (Q : A → World c → Type 0) (n : ℕ) (a : A) (w : World c)
      → ((lane : Option PlatformVpnState)
          → Q a (record w { session = stamped c e n w.session; lane = lane }))
      → Promises c Q ((do persist c e n; pure a) w)
  unfolding persist
  Promises-published {A} Q n a w h = go e.is_ui (e.moments n).publication
    where
      go :
          (side : Option Bool) (p : Publication)
          → Promises c Q (
              continue
                (publish_to c e side (stamped c e n w.session) p w).0
                (λ _. pure a)
                (publish_to c e side (stamped c e n w.session) p w).1)
      go none p = h w.lane
      go (some ui) delivered = h (some _)
      go (some ui) unwritten = tt
      go (some ui) unnotified = tt

  pub persist_journal : (n : ℕ) (w : World c) → (persist c e n w).1.journal ≡ w.journal
  unfolding persist
  persist_journal n w = go e.is_ui (e.moments n).publication
    where
      go :
          (side : Option Bool) (p : Publication)
          → (publish_to c e side (stamped c e n w.session) p w).1.journal ≡ w.journal
      go none p = refl
      go (some ui) delivered = refl
      go (some ui) unwritten = refl
      go (some ui) unnotified = refl

  pub envelope_journal :
      (n : ℕ) (is_ui : Bool) (expected : Option Text) (r : Option PlatformVpnState) (w : World c)
      → (apply_platform_envelope c e n is_ui expected r w).journal ≡ w.journal
  unfolding apply_platform_envelope
  envelope_journal n is_ui expected r w =
      go (apply_state (e.moments n).instant is_ui expected r w.session)
    where
      go :
          (p : Bool × Session)
          → (if p.0
              then (persist c e n (record w { session = p.1 })).1
              else record w { session = p.1 }).journal
            ≡ w.journal
      go (true, s) = persist_journal n (record w { session = s })
      go (false, s) = refl

  pub sync_journal :
      (n : ℕ) (w : World c) → (sync_with c e n e.is_ui (e.moments n).remote w).journal ≡ w.journal
  sync_journal n w = go e.is_ui (e.moments n).remote
    where
      go : (side : Option Bool) (r : Remote) → (sync_with c e n side r w).journal ≡ w.journal
      go none r = refl
      go (some is_ui) (envelope r) = envelope_journal n is_ui none r w
      go (some is_ui) nothing = refl
      go (some is_ui) unreadable = refl
