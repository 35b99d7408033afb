-- ===== src/Session/World.antt =====
-- crates/paws_core/src/lib.rs: what the handlers of a session meet outside of it.
use paws.Base.{ℕ, ◌+◌, max, min, Text, Bool, true, false, Option, none, some, List}
use paws.PlatformOwner.Record.{ProcessIdentity, PawsError, Result, ok, err}
use paws.PlatformOwner.Lease.{PlatformVpnOwnerLeaseObservation}
use paws.PlatformOwner.Disk.{Codec, JournalFile, Faults}
use paws.PlatformOwner.{Call, run}
use paws.Session.{Session, PlatformVpnState, platform_vpn_state}

-- What `read_remote` answers: the state in an envelope, if it has one, no envelope, or an error.
pub data Remote : Type 0 where
  envelope : Option PlatformVpnState → Remote
  nothing unreadable : Remote

-- How the publication of a frame ends: delivered, not written, or written with no notification.
pub data Publication : Type 0 where
  delivered unwritten unnotified : Publication

-- `NativeVpnLifecycle`
pub data NativeVpnLifecycle : Type 0 where
  runs : ℕ → NativeVpnLifecycle
  fails : ℕ → Text → NativeVpnLifecycle
  stopped : NativeVpnLifecycle

-- What a handler meets when it looks outside: the clocks, the frame of the other process, how the
-- own frame is published, what other processes did to the journal, the faults of its own call
-- of it, and the answers of the leases, `none` for an error.
pub record Moment : Type 0 where
  pub unix_nanos : ℕ
  pub instant : ℕ
  pub remote : Remote
  pub publication : Publication
  pub others : List (Faults × Call)
  pub faults : Faults
  pub acquires : Bool
  pub observes : Option PlatformVpnOwnerLeaseObservation
  pub locks_released : Option Bool

-- One call of a handler. Its looks outside are numbered in their order. The platform memory is
-- attached as the interface, as the extension, or not at all.
pub record Env : Type 0 where
  pub is_ui : Option Bool
  pub identity : Option ProcessIdentity
  pub native_running : Bool
  pub lifecycle : NativeVpnLifecycle
  pub moments : ℕ → Moment

pub record World (c : Codec) : Type 0 where
  pub session : Session
  pub journal : JournalFile c.Bytes
  pub lane : Option PlatformVpnState

-- The messages of the handlers, each a constructor.
pub data Refusal : Type 0 where
  intent_exhausted intent_superseded os_stop_pending already_pending cleanup_pending : Refusal
  already_connected journal_pending no_identity lease_refused lease_released : Refusal
  lease_unverified empty_attempt stale_attempt terminal_attempt journal_missing journal_stale :
      Refusal
  still_owned invalid_phase superseded_after_attachment not_in_extension no_ui_state : Refusal
  not_active lease_missing owner_mismatch journal_changed os_stop_in_flight fence_mismatch : Refusal
  state_mismatch publish_failed unreadable_platform no_owner undecided : Refusal
  unsupported_engine : Refusal
  journal_error : PawsError → Refusal

pub data Reply {ℓ} (A : Type ℓ) : Type ℓ where
  grants : A → Reply A
  refuses : Refusal → Reply A

-- A handler takes the world to its reply and the world that it leaves.
abbrev pub Handler : Codec → Type 0 → Type 0
Handler c A = World c → Reply A × World c

abbrev pub continue : {c : Codec} {A B : Type 0} → Reply A → (A → Handler c B) → Handler c B
continue (grants a) f w = f a w
continue (refuses e) f w = (refuses e, w)

infixl 5 ◌>>=◌ ◌>>◌
abbrev pub ◌>>=◌ : {c : Codec} {A B : Type 0} → Handler c A → (A → Handler c B) → Handler c B
◌>>=◌ m f w = let (r, w') = m w in continue r f w'

abbrev pub ◌>>◌ : {c : Codec} {B : Type 0} → Handler c (Unit {0}) → Handler c B → Handler c B
m >> k = m >>= λ _. k

abbrev pub pure : {c : Codec} {A : Type 0} → A → Handler c A
pure a w = (grants a, w)

abbrev pub refuse : {c : Codec} {A : Type 0} → Refusal → Handler c A
refuse e w = (refuses e, w)

abbrev pub guard : {c : Codec} → Bool → Refusal → Handler c (Unit {0})
guard true e w = (grants tt, w)
guard false e w = (refuses e, w)

abbrev pub get : {c : Codec} → Handler c Session
get w = (grants w.session, w)

-- `saturating_add(1)` on `u128`
abbrev pub u128_max : ℕ
u128_max = 340282366920938463463374607431768211455

abbrev pub next_nanos : ℕ → ℕ
next_nanos n = min (n + 1) u128_max

module _ (c : Codec) (e : Env) where
  abbrev pub modify : (Session → Session) → Handler c (Unit {0})
  modify f w = (grants tt, record w { session = f w.session })

  abbrev pub reply_of : {A : Type 0} → Result A → Reply A
  reply_of (ok a) = grants a
  reply_of (err e) = refuses (journal_error e)

  -- A call of the journal, after what other processes did to it.
  unfoldable pub on_journal :
      {A : Type 0}
      → ℕ
      → (Faults → JournalFile c.Bytes → Result A × JournalFile c.Bytes)
      → Handler c A
  on_journal k op w =
      let (r, d) = op (e.moments k).faults (run c w.journal (e.moments k).others) in
      (reply_of r, record w { journal = d })

  -- The own state, as it is when it is published.
  abbrev pub stamped : ℕ → Session → Session
  stamped k s = record s {
    state_updated_at = max (e.moments k).unix_nanos (next_nanos s.state_updated_at);
  }

  abbrev pub published : Session → Publication → Handler c (Unit {0})
  published s delivered w =
      (grants tt, record w { session = s; lane = some (platform_vpn_state s) })
  published s unwritten w = (refuses publish_failed, record w { session = s })
  published s unnotified w =
      (refuses publish_failed, record w { session = s; lane = some (platform_vpn_state s) })

  abbrev pub publish_to : Option Bool → Session → Publication → Handler c (Unit {0})
  publish_to none s p w = (grants tt, record w { session = s })
  publish_to (some is_ui) s p w = published s p w

  -- `persist_platform_vpn_state_locked`
  unfoldable pub persist : ℕ → Handler c (Unit {0})
  persist k w = publish_to e.is_ui (stamped k w.session) (e.moments k).publication w
