-- ===== src/Session/Owners.antt =====
-- crates/paws_core/src/lib.rs: what the recovery of a cleanup does with the owner on record.
use paws.Base.{
  ℕ, ◌≡◌, ◌≢◌, refl, sym, ap, subst, Text, Bool, true, false, not, ◌&&◌, Option, none, some, arith,
  ◌==◌, text_eq, leb, is_empty, if◌then◌else◌,
}
use paws.PlatformOwner.Record.{
  ProcessIdentity, PlatformVpnOwnerPhase, PlatformVpnOwnerJournal, JournalRead, present, Result, ok,
  err,
}
use paws.PlatformOwner.Lease.{PlatformVpnOwnerLeaseObservation, held_exact, held_other, released}
use paws.PlatformOwner.Disk.{Codec, RoundTrips, JournalFile}
use paws.PlatformOwner.{run, read}
use paws.PlatformOwner.Protocol.{Holds}
use paws.PlatformOwner.Effects.{Reads, read-Reads}
use paws.Session.World.{
  Env, World, Reply, grants, refuses, Handler, ◌>>=◌, ◌>>◌, pure, get, continue, reply_of,
  on_journal,
}
use paws.Session.Remote.{sync_with, sync}
use paws.Session.Cleanup.{
  Turn, answers, again, is_unattached_fence, prove_gone, proof_of, recover_proof, recover_found,
  recover_synced, recover_platform_vpn_cleanup,
}

-- The owner of the attempt has the extension, and nothing shows that it is gone.
pub record IsAlive (e : Env) (j : PlatformVpnOwnerJournal) : Type 0 where
  pub owned : j.phase ≡ PlatformVpnOwnerPhase.attached
  pub held : (e.moments 0).observes ≢ some released

-- The turn leaves the session and the journal, and does not answer that the attempt is recovered.
abbrev pub Spares : (c : Codec) → World c → Reply Turn × World c → Type 0
Spares c w (grants (answers true), w') = ⊥
Spares c w (grants (answers false), w') = w' ≡ w
Spares c w (grants again, w') = w' ≡ w
Spares c w (refuses r, w') = w' ≡ w

module _ (c : Codec) (e : Env) where
  -- The world once the frame of the other process is taken.
  abbrev pub synced : World c → World c
  synced w = sync_with c e 0 e.is_ui (e.moments 0).remote w

  alive_proof-Spares :
      (deadline : ℕ) (attempt : Text) (extension : Option ProcessIdentity)
      (o : Option PlatformVpnOwnerLeaseObservation) (w : World c)
      → o ≢ some released
      → Spares c w ((proof_of c e o >>= recover_proof c e deadline attempt extension) w)
  unfolding recover_proof
  alive_proof-Spares deadline attempt extension none w h = refl
  alive_proof-Spares deadline attempt extension (some released) w h = absurd (h refl)
  alive_proof-Spares deadline attempt extension (some held_other) w h = refl
  alive_proof-Spares deadline attempt extension (some held_exact) w h =
      late (leb deadline (e.moments 1).instant)
    where
      late : (b : Bool) → Spares c w (grants (if b then answers false else again), w)
      late true = refl
      late false = refl

  alive_gone-Spares :
      (deadline : ℕ) (attempt : Text) (fenced : Bool) (phase : PlatformVpnOwnerPhase)
      (extension : Option ProcessIdentity) (w : World c)
      → phase ≡ PlatformVpnOwnerPhase.attached
      → (e.moments 0).observes ≢ some released
      → Spares c w (
          (prove_gone c e fenced phase extension >>= recover_proof c e deadline attempt extension)
            w)
  unfolding prove_gone
  alive_gone-Spares deadline attempt fenced PlatformVpnOwnerPhase.attached none w p h = refl
  alive_gone-Spares deadline attempt fenced PlatformVpnOwnerPhase.attached (some extension) w p h =
      alive_proof-Spares deadline attempt (some extension) (e.moments 0).observes w h
  alive_gone-Spares deadline attempt fenced PlatformVpnOwnerPhase.pending extension w p h =
      absurd (ground (arith, p))
  alive_gone-Spares deadline attempt fenced PlatformVpnOwnerPhase.stopping extension w p h =
      absurd (ground (arith, p))

  alive_found-Spares :
      (deadline : ℕ) (attempt : Text) (fenced : Bool) (j : PlatformVpnOwnerJournal) (w : World c)
      → IsAlive e j
      → Spares c w (recover_found c e deadline attempt fenced (present j) w)
  unfolding recover_found
  alive_found-Spares deadline attempt fenced j w alive = go (j.attempt_id == attempt)
    where
      go :
          (same : Bool)
          → Spares c w (
              (if not same then pure (answers false) else do
                proof ← prove_gone c e fenced j.phase j.extension
                recover_proof c e deadline attempt j.extension proof)
                w)
      go false = refl
      go true =
          alive_gone-Spares deadline attempt fenced j.phase j.extension w alive.owned alive.held

  alive_synced-Spares :
      (deadline : ℕ) (attempt : Text) (w : World c) (j : PlatformVpnOwnerJournal)
      → RoundTrips c
      → Holds c (run c w.journal (e.moments 0).others) (some j)
      → IsAlive e j
      → (w.session.start_attempt_id == attempt && w.session.cleanup_complete) ≡ false
      → Spares c
          (record w { journal = run c w.journal (e.moments 0).others })
          (recover_synced c e deadline attempt w.session w)
  unfolding recover_synced on_journal
  alive_synced-Spares deadline attempt w j rt h alive clean =
      go (w.session.start_attempt_id == attempt && w.session.cleanup_complete) clean
    where
      v : World c
      v = record w { journal = run c w.journal (e.moments 0).others }

      k : JournalRead → Handler c Turn
      k = recover_found c e deadline attempt (is_unattached_fence attempt w.session)

      found :
          (p : Result JournalRead × JournalFile c.Bytes)
          → Reads c v.journal (some j) p
          → Spares c v (continue (reply_of c e p.0) k (record w { journal = p.1 }))
      found (ok a, d) (same, left) =
          subst (λ (x : JournalRead). Spares c v (k x (record w { journal = d }))) (sym same)
            (subst
              (λ (y : JournalFile c.Bytes). Spares c v (k (present j) (record w { journal = y })))
              (sym left)
              (alive_found-Spares deadline attempt (is_unattached_fence attempt w.session) j v
                alive))
      found (err x, d) left = ap (λ (y : JournalFile c.Bytes). record w { journal = y }) left

      go :
          (clean : Bool)
          → clean ≡ false
          → Spares c v
              ((if clean then pure (answers true) else (on_journal c e 0 (read c) >>= k)) w)
      go true n = absurd (ground (arith, n))
      go false n =
          found (read c (e.moments 0).faults v.journal)
            (read-Reads c (e.moments 0).faults v.journal (some j) rt h)

-- Whatever the frames of the other process and the faults of the system, a turn of the recovery of a
-- cleanup spares an owner that is attached on record and whose lease is not seen released, for an
-- attempt that the session, once it has taken the frame, does not already hold as clean: the session
-- and the journal stay, and the turn does not answer that the attempt is recovered.
pub live_owner_is_spared :
    (c : Codec) (e : Env) (deadline : ℕ) (attempt : Text) (w : World c)
    (j : PlatformVpnOwnerJournal)
    → RoundTrips c
    → Holds c (run c (synced c e w).journal (e.moments 0).others) (some j)
    → IsAlive e j
    → is_empty attempt ≡ false
    → ((synced c e w).session.start_attempt_id == attempt
        && (synced c e w).session.cleanup_complete)
      ≡ false
    → Spares c
        (record (synced c e w) { journal = run c (synced c e w).journal (e.moments 0).others })
        (recover_platform_vpn_cleanup c e deadline attempt w)
unfolding recover_platform_vpn_cleanup sync
live_owner_is_spared c e deadline attempt w j rt h alive named clean = go (is_empty attempt) named
  where
    v : World c
    v = synced c e w

    go :
        (b : Bool)
        → b ≡ false
        → Spares c
            (record v { journal = run c v.journal (e.moments 0).others })
            ((if b
                then pure (answers false)
                else do sync c e 0; s ← get; recover_synced c e deadline attempt s)
              w)
    go true n = absurd (ground (arith, n))
    go false n = alive_synced-Spares c e deadline attempt v j rt h alive clean
