-- ===== src/Session/Journals.antt =====
-- crates/paws_core/src/lib.rs: which handlers leave the owner journal, for what is said of it alone.
use paws.Base.{
  ◌≡◌, refl, sym, ◌∙◌, subst, Text, Bool, true, false, not, ◌&&◌, Option, none, some, ◌==◌, nat_eq,
  text_eq, if◌then◌else◌,
}
use paws.PlatformOwner.Record.{ProcessIdentity, identity_eq}
use paws.PlatformOwner.Lease.{PlatformVpnOwnerLeaseObservation, held_exact, held_other, released}
use paws.PlatformOwner.Disk.{Codec, JournalFile}
use paws.Session.{Session, PlatformVpnState, is_pending}
use paws.Session.World.{
  Remote, envelope, nothing, unreadable, Env, World, Refusal, Reply, grants, refuses, Handler,
  ◌>>=◌, ◌>>◌, pure, modify, continue, guard, persist, superseded_after_attachment,
}
use paws.Session.Remote.{sync_with, sync}
use paws.Session.Binding.{
  name_owner, owner_changed, attach, expect_held, expect_released, publish_attached, publish_synced,
  publish_binding, start_refusal, take_valid, bind_remote, bind_side, sync_for_binding,
}
use paws.Session.Promises.{Promises, persist_journal, envelope_journal, sync_journal}

module _ (c : Codec) where
  -- The handler leaves the journal.
  abbrev pub LeavesJournal : {A : Type 0} → Handler c A → Type 0
  LeavesJournal m = (w : World c) → (m w).1.journal ≡ w.journal

  -- What is said of the journal alone holds after a handler that leaves it.
  pub Promises-after :
      {A B : Type 0} (P : JournalFile c.Bytes → Type 0) (m : Handler c A) (k : A → Handler c B)
      (w : World c)
      → LeavesJournal m
      → ((a : A) (v : World c) → v.journal ≡ w.journal → Promises c (λ _ u. P u.journal) (k a v))
      → Promises c (λ _ u. P u.journal) ((m >>= k) w)
  Promises-after {A} P m k w leaves h = go (m w) (leaves w)
    where
      go :
          (p : Reply A × World c)
          → p.1.journal ≡ w.journal
          → Promises c (λ _ u. P u.journal) (continue p.0 k p.1)
      go (grants a, v) q = h a v q
      go (refuses r, v) q = tt

  pub Promises-then :
      {A B : Type 0} (P : JournalFile c.Bytes → Type 0) (m : Handler c A) (k : A → Handler c B)
      (w : World c)
      → Promises c (λ _ u. P u.journal) (m w)
      → ((a : A) → LeavesJournal (k a))
      → Promises c (λ _ u. P u.journal) ((m >>= k) w)
  Promises-then {A} {B} P m k w h leaves = go (m w) h
    where
      kept :
          (p : Reply B × World c) (v : World c)
          → p.1.journal ≡ v.journal
          → P v.journal
          → Promises c (λ _ u. P u.journal) p
      kept (grants b, u) v same x = subst P (sym same) x
      kept (refuses r, u) v same x = tt

      go :
          (p : Reply A × World c)
          → Promises c (λ _ u. P u.journal) p
          → Promises c (λ _ u. P u.journal) (continue p.0 k p.1)
      go (grants a, v) x = kept (k a v) v (leaves a v) x
      go (refuses r, v) x = tt

module _ (c : Codec) (e : Env) where
  pub expect_held-LeavesJournal :
      (o : Option PlatformVpnOwnerLeaseObservation) → LeavesJournal c (expect_held c e o)
  expect_held-LeavesJournal none w = refl
  expect_held-LeavesJournal (some held_exact) w = refl
  expect_held-LeavesJournal (some held_other) w = refl
  expect_held-LeavesJournal (some released) w = refl

  pub expect_released-LeavesJournal :
      (o : Option PlatformVpnOwnerLeaseObservation) → LeavesJournal c (expect_released c e o)
  expect_released-LeavesJournal none w = refl
  expect_released-LeavesJournal (some held_exact) w = refl
  expect_released-LeavesJournal (some held_other) w = refl
  expect_released-LeavesJournal (some released) w = refl

  publish_attached-LeavesJournal :
      (changed : Bool) (s : Session) → LeavesJournal c (publish_attached c e changed s)
  publish_attached-LeavesJournal changed s w =
      go s.extension_attached (is_pending s.start_outcome && s.starting && not s.running) changed
    where
      go :
          (attached waits changed_ : Bool)
          → ((if not attached
                then (do modify c e attach; persist c e 4)
                else if waits
                then (do modify c e (λ s. record s { delivery_observed = true }); persist c e 4)
                else if changed_
                then persist c e 4
                else pure tt)
              w).1.journal
            ≡ w.journal
      go false waits changed_ = persist_journal c e 4 (record w { session = attach w.session })
      go true true changed_ =
          persist_journal c e 4
            (record w { session = record w.session { delivery_observed = true } })
      go true false true = persist_journal c e 4 w
      go true false false = refl

  pub publish_binding-LeavesJournal :
      (attempt : Text) (owner : ProcessIdentity)
      → LeavesJournal c (publish_binding c e attempt owner)
  unfolding publish_binding publish_synced sync
  publish_binding-LeavesJournal attempt owner w = go (v.session.start_attempt_id == attempt)
    where
      v : World c
      v = sync_with c e 3 e.is_ui (e.moments 3).remote w

      go :
          (current : Bool)
          → ((guard current superseded_after_attachment >> (do
            modify c e (name_owner owner)
            publish_attached c e (owner_changed owner v.session) v.session))
              v).1.journal
            ≡ w.journal
      go false = sync_journal c e 3 w
      go true =
          publish_attached-LeavesJournal (owner_changed owner v.session) v.session
            (record v { session = name_owner owner v.session })
          ∙ sync_journal c e 3 w

  pub bind_side-LeavesJournal : (attempt : Text) → LeavesJournal c (sync_for_binding c e attempt)
  unfolding sync_for_binding
  bind_side-LeavesJournal attempt w = side e.is_ui
    where
      valid :
          (remote : Option PlatformVpnState) (refusal : Option Refusal)
          → (take_valid c e attempt remote refusal w).1.journal ≡ w.journal
      valid remote none = envelope_journal c e 0 false (some attempt) remote w
      valid remote (some refusal) = refl

      remotely : (r : Remote) → (bind_remote c e attempt r w).1.journal ≡ w.journal
      remotely unreadable = refl
      remotely nothing = refl
      remotely (envelope remote) = valid remote (start_refusal attempt remote)

      side : (ui : Option Bool) → (bind_side c e attempt ui w).1.journal ≡ w.journal
      side none = refl
      side (some true) = refl
      side (some false) = remotely (e.moments 0).remote
