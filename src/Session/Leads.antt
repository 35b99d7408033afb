-- ===== src/Session/Leads.antt =====
-- How the moves of a handler follow from those of its parts.
pub mod Stops
pub mod Starts
pub mod Binding
pub mod Cleanup
pub mod Updates
pub mod Recovery
pub mod Heartbeats
use paws.Base.{
  ℕ, ◌≡◌, refl, ◌∙◌, subst, Text, Bool, true, false, Option, none, some, List, if◌then◌else◌,
}
use paws.PlatformOwner.Record.{ProcessIdentity, Result, ok, err}
use paws.Session.Starts.{identified, current_process_identity}
use paws.PlatformOwner.Disk.{Codec, JournalFile, Faults}
use paws.PlatformOwner.{run}
use paws.Session.{Session, PlatformVpnState}
use paws.Session.World.{
  Publication, delivered, unwritten, unnotified, Remote, envelope, nothing, unreadable, Env, World,
  Refusal, Reply, grants, refuses, Handler, ◌>>=◌, ◌>>◌, pure, get, modify, continue, guard,
  reply_of, on_journal, stamped, publish_to, persist,
}
use paws.Session.Remote.{apply_state, apply_platform_envelope, sync_with, sync}
use paws.Session.Keeps.{Keeps, sync-Keeps}
use paws.Session.Moves.{Scope, Move, Moves, here, next, frames, stamps, Moves-trans}

module _ (c : Codec) (e : Env) (fresh : Scope) (confirmed : Bool) where
  -- The handler takes the session there by moves.
  abbrev pub Leads : {A : Type 0} → Handler c A → World c → Type 0
  Leads m w = Moves fresh confirmed w.session (m w).1.session

  pub Leads-if :
      {A : Type 0} (b : Bool) (m n : Handler c A) (w : World c)
      → (b ≡ true → Leads m w)
      → (b ≡ false → Leads n w)
      → Leads (if b then m else n) w
  Leads-if true m n w h k = h refl
  Leads-if false m n w h k = k refl

  pub Leads-guard :
      {A : Type 0} (b : Bool) (r : Refusal) (k : Handler c A) (w : World c)
      → (b ≡ true → Leads k w)
      → Leads (guard b r >> k) w
  Leads-guard true r k w h = h refl
  Leads-guard false r k w h = here

  pub Leads-guard_only : (b : Bool) (r : Refusal) (w : World c) → Leads (guard b r) w
  Leads-guard_only true r w = here
  Leads-guard_only false r w = here

  pub Leads-bind :
      {A B : Type 0} (m : Handler c A) (f : A → Handler c B) (w : World c)
      → Leads m w
      → ((a : A) (w' : World c) → Leads (f a) w')
      → Leads (m >>= f) w
  Leads-bind {A} m f w h k = go (m w).0 (m w).1 h
    where
      go :
          (r : Reply A) (w' : World c)
          → Moves fresh confirmed w.session w'.session
          → Moves fresh confirmed w.session (continue r f w').1.session
      go (grants a) w' h = Moves-trans h (k a w')
      go (refuses r) w' h = h

  -- A call of the journal leaves the session.
  pub Leads-journal :
      {A B : Type 0} (n : ℕ) (op : Faults → JournalFile c.Bytes → Result A × JournalFile c.Bytes)
      (f : A → Handler c B) (w : World c)
      → ((a : A) (d : JournalFile c.Bytes) → Leads (f a) (record w { journal = d }))
      → Leads (on_journal c e n op >>= f) w
  unfolding on_journal
  Leads-journal {A} n op f w h = go (op (e.moments n).faults (run c w.journal (e.moments n).others))
    where
      go :
          (p : Result A × JournalFile c.Bytes)
          → Moves fresh confirmed w.session
              (continue (reply_of c e p.0) f (record w { journal = p.1 })).1.session
      go (ok a, d) = h a d
      go (err r, d) = here

  pub Leads-persist : (n : ℕ) (w : World c) → Leads (persist c e n) w
  unfolding persist
  Leads-persist n w = go e.is_ui (e.moments n).publication
    where
      go :
          (side : Option Bool) (p : Publication)
          → Moves fresh confirmed w.session
              (publish_to c e side (stamped c e n w.session) p w).1.session
      go none p = next here (stamps _)
      go (some ui) delivered = next here (stamps _)
      go (some ui) unwritten = next here (stamps _)
      go (some ui) unnotified = next here (stamps _)

  pub Leads-after_persist :
      {A : Type 0} (n : ℕ) (k : Handler c A) (w : World c)
      → ((w' : World c) → Leads k w')
      → Leads (persist c e n >> k) w
  Leads-after_persist n k w h =
      Leads-bind (persist c e n) (λ _. k) w (Leads-persist n w) (λ a w'. h w')

  -- A frame that is taken, and the publication where the watchdog gave up.
  pub Leads-envelope :
      (n : ℕ) (is_ui : Bool) (expected : Option Text) (remote : Option PlatformVpnState)
      (w : World c)
      → Move fresh confirmed w.session
          (apply_state (e.moments n).instant is_ui expected remote w.session).1
      → Moves fresh confirmed w.session
          (apply_platform_envelope c e n is_ui expected remote w).session
  unfolding apply_platform_envelope
  Leads-envelope n is_ui expected remote w m =
      go (apply_state (e.moments n).instant is_ui expected remote w.session) m
    where
      go :
          (p : Bool × Session)
          → Move fresh confirmed w.session p.1
          → Moves fresh confirmed w.session
              (if p.0
                then (persist c e n (record w { session = p.1 })).1
                else record w { session = p.1 }).session
      go (true, s) m = Moves-trans (next here m) (Leads-persist n (record w { session = s }))
      go (false, s) m = next here m

  pub Leads-sync : (n : ℕ) (w : World c) → Leads (sync c e n) w
  unfolding sync
  Leads-sync n w = go e.is_ui (e.moments n).remote
    where
      go :
          (side : Option Bool) (r : Remote)
          → Moves fresh confirmed w.session (sync_with c e n side r w).session
      go none r = here
      go (some is_ui) (envelope remote) =
          Leads-envelope n is_ui none remote w (frames (e.moments n).instant is_ui remote)
      go (some is_ui) nothing = here
      go (some is_ui) unreadable = here

  pub Leads-after_sync :
      {A : Type 0} (n : ℕ) (k : Handler c A) (w : World c)
      → ((w' : World c) → Keeps w.session w'.session → Leads k w')
      → Leads (sync c e n >> k) w
  unfolding sync
  Leads-after_sync n k w h =
      Moves-trans (Leads-sync n w)
        (h (sync_with c e n e.is_ui (e.moments n).remote w) (sync-Keeps c e n w))

  -- What the handler does with the session that it finds after a frame.
  pub Leads-synced :
      {A : Type 0} (n : ℕ) (k : Session → Handler c A) (w : World c)
      → ((v : World c) → Keeps w.session v.session → Leads (k v.session) v)
      → Leads (do sync c e n; s ← get; k s) w
  Leads-synced n k w h = Leads-after_sync n (do s ← get; k s) w h

  -- The own identity leaves the world.
  pub Leads-identity :
      {A : Type 0} (f : ProcessIdentity → Handler c A) (w : World c)
      → ((i : ProcessIdentity) → Leads (f i) w)
      → Leads (current_process_identity c e >>= f) w
  Leads-identity f w h = go e.identity
    where
      go :
          (i : Option ProcessIdentity)
          → Moves fresh confirmed w.session ((identified c e i >>= f) w).1.session
      go none = here
      go (some i) = h i

  -- A move, then the rest.
  pub Leads-modify :
      {A : Type 0} (f : Session → Session) (k : Handler c A) (w : World c)
      → Move fresh confirmed w.session (f w.session)
      → Leads k (record w { session = f w.session })
      → Leads (modify c e f >> k) w
  Leads-modify f k w m h = Moves-trans (next here m) h

  pub Leads-published :
      {A : Type 0} (f : Session → Session) (n : ℕ) (a : A) (w : World c)
      → Move fresh confirmed w.session (f w.session)
      → Leads (do modify c e f; persist c e n; pure a) w
  Leads-published f n a w m =
      Leads-modify f (do persist c e n; pure a) w m
        (Leads-after_persist n (pure a) (record w { session = f w.session }) (λ w'. here))

  -- The handler leaves the session.
  abbrev pub Stays : {A : Type 0} → Handler c A → World c → Type 0
  Stays m w = (m w).1.session ≡ w.session

  pub Stays-guard : (b : Bool) (r : Refusal) (w : World c) → Stays (guard b r) w
  Stays-guard true r w = refl
  Stays-guard false r w = refl

  pub Stays-journal :
      {A : Type 0} (n : ℕ) (op : Faults → JournalFile c.Bytes → Result A × JournalFile c.Bytes)
      (w : World c)
      → Stays (on_journal c e n op) w
  unfolding on_journal
  Stays-journal n op w = refl

  pub Stays-bind :
      {A B : Type 0} (m : Handler c A) (f : A → Handler c B) (w : World c)
      → Stays m w
      → ((a : A) (v : World c) → Stays (f a) v)
      → Stays (m >>= f) w
  Stays-bind {A} m f w h k = go (m w).0 (m w).1 h
    where
      go :
          (r : Reply A) (v : World c)
          → v.session ≡ w.session
          → (continue r f v).1.session ≡ w.session
      go (grants a) v h = k a v ∙ h
      go (refuses r) v h = h

  pub Leads-after_still :
      {A B : Type 0} (m : Handler c A) (f : A → Handler c B) (w : World c)
      → Stays m w
      → ((a : A) (v : World c) → v.session ≡ w.session → Leads (f a) v)
      → Leads (m >>= f) w
  Leads-after_still {A} m f w h k = go (m w).0 (m w).1 h
    where
      go :
          (r : Reply A) (v : World c)
          → v.session ≡ w.session
          → Moves fresh confirmed w.session (continue r f v).1.session
      go (grants a) v h = subst (λ s. Moves fresh confirmed s (f a v).1.session) h (k a v h)
      go (refuses r) v h = subst (λ s. Moves fresh confirmed s v.session) h here
