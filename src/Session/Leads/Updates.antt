-- ===== src/Session/Leads/Updates.antt =====
-- crates/paws_core/src/lib.rs: reports about an attempt and stops of it move the session along.
use paws.Base.{
  ◌≡◌, Text, Bool, true, false, not, ◌&&◌, ◌||◌, Option, none, some, some, arith, ◌==◌, text_eq,
  is_empty, nat_eq, if◌then◌else◌,
}
use paws.PlatformOwner.Disk.{Codec}
use paws.Session.{
  Session, VpnEngine, meow, is_pending, is_terminal, apply_platform_failure, connected,
}
use paws.Session.World.{
  unsupported_engine, Env, World, ◌>>=◌, ◌>>◌, pure, get, modify, persist, not_active,
}
use paws.Session.Updates.{
  accepts_updates, set_starting, filter_blank, set_connected, is_active, stop_attempt, stop_ended,
  may_request_stop, on_open, set_platform_vpn_starting_for_attempt,
  set_platform_vpn_failed_for_attempt, set_platform_network_protected_for_attempt, commit_open,
  commit_engine, commit_start, external_open, is_external, start_external_platform_vpn, stop_open,
  begin_stop_platform_vpn, is_other, end_stop_platform_vpn, ask_stop, request_open,
  request_platform_vpn_stop,
}
use paws.Session.Recovery.{forget_recovery}
use paws.Session.Moves.{
  is_unnamed, connects_unnamed, Scope, Move, here, sets_starting, fails, protects, connects,
  connects_external, proxies, stops, ends_stop, asks_stop, forgets,
}
use paws.Session.Remote.{sync}
use paws.Session.Leads.{
  Leads, Leads-if, Leads-guard, Leads-persist, Leads-synced, Leads-modify, Leads-published,
}

-- An attempt that takes updates is not terminal.
accepts_open :
    (attempt : Text) (s : Session)
    → accepts_updates attempt s ≡ true
    → is_terminal s.start_outcome ≡ false
unfolding accepts_updates
accepts_open attempt s h = ground (arith, h)

-- A commit for no attempt is made where one may be.
abbrev pub MayCommit : Scope → Option Text → Type 0
MayCommit fresh none = is_unnamed fresh ≡ true
MayCommit fresh (some attempt) = Unit {0}

module _ (c : Codec) (e : Env) (a : Scope) (b : Bool) where
  on_open-Leads :
      (attempt : Text) (allowed : Session → Bool) (f : Session → Session) (w : World c)
      → (is_terminal w.session.start_outcome ≡ false
          → allowed w.session ≡ true
          → Move a b w.session (f w.session))
      → Leads c e a b (on_open c e attempt allowed f w.session) w
  on_open-Leads attempt allowed f w h =
      Leads-if c e a b (accepts_updates attempt w.session && allowed w.session)
        (do modify c e f; persist c e 1; pure true) (pure false) w
        (λ ok.
          Leads-published c e a b f 1 true w
            (h (accepts_open attempt w.session (ground (arith, ok))) (ground (arith, ok))))
        (λ _. here)

  pub starting-Leads :
      (attempt : Text) (starting_ : Bool) (w : World c)
      → Leads c e a b (set_platform_vpn_starting_for_attempt c e attempt starting_) w
  unfolding set_platform_vpn_starting_for_attempt
  starting-Leads attempt starting_ w =
      Leads-synced c e a b 0
        (on_open c e attempt (λ s. not starting_ || is_pending s.start_outcome)
          (set_starting starting_))
        w
        (λ v _.
          on_open-Leads attempt (λ s. not starting_ || is_pending s.start_outcome)
            (set_starting starting_) v (sets_starting starting_))

  pub failed-Leads :
      (attempt error : Text) (w : World c)
      → Leads c e a b (set_platform_vpn_failed_for_attempt c e attempt error) w
  unfolding set_platform_vpn_failed_for_attempt
  failed-Leads attempt error w =
      Leads-synced c e a b 0 (on_open c e attempt (λ s. true) (apply_platform_failure error)) w
        (λ v _.
          on_open-Leads attempt (λ s. true) (apply_platform_failure error) v (λ h _. fails error h))

  pub protected-Leads :
      (attempt : Text) (protected : Bool) (error : Option Text) (w : World c)
      → Leads c e a b (set_platform_network_protected_for_attempt c e attempt protected error) w
  unfolding set_platform_network_protected_for_attempt
  protected-Leads attempt protected error w =
      let f = λ (s : Session). record s {
        network_protected = protected;
        network_protect_error = filter_blank error;
      } in
      Leads-synced c e a b 0 (on_open c e attempt (λ s. true) f) w (λ v _.
        on_open-Leads attempt (λ s. true) f v (λ _ _. protects protected (filter_blank error)))

  commit_engine-Leads :
      (proxy : Option Text) (w : World c)
      → Move a b w.session (set_connected (some meow) w.session)
      → Leads c e a b (commit_engine c e proxy) w
  commit_engine-Leads proxy w m =
      let put = λ (s : Session). record s { app_http_proxy = proxy } in
      let w' = record w { session = set_connected (some meow) w.session } in
      Leads-modify c e a b (set_connected (some meow)) (do modify c e put; persist c e 1) w m
        (Leads-modify c e a b put (persist c e 1) w' (proxies proxy)
          (Leads-persist c e a b 1 (record w' { session = put w'.session })))

  commit_open-Leads :
      (attempt : Text) (proxy : Option Text) (w : World c)
      → Leads c e a b (commit_open c e attempt proxy w.session) w
  commit_open-Leads attempt proxy w =
      Leads-guard c e a b (is_active attempt w.session) not_active _ w
        (λ active. commit_engine-Leads proxy w (connects (some meow) (ground (arith, active))))

  pub commit-Leads :
      (attempt proxy : Option Text) (w : World c)
      → MayCommit a attempt
      → Leads c e a b (commit_start c e attempt proxy) w
  unfolding commit_start
  commit-Leads none proxy w h = commit_engine-Leads proxy w (connects_unnamed (some meow) h)
  commit-Leads (some attempt) proxy w h =
      Leads-synced c e a b 0 (commit_open c e attempt proxy) w
        (λ v _. commit_open-Leads attempt proxy v)

  external_open-Leads :
      (attempt : Text) (engine : VpnEngine) (w : World c)
      → Leads c e a b (external_open c e attempt engine w.session) w
  external_open-Leads attempt engine w =
      let f =
        λ (s : Session). record (set_connected (some engine) s) { start_outcome = connected } in
      Leads-guard c e a b (is_active attempt w.session) not_active _ w (λ active.
        Leads-modify c e a b f (persist c e 1) w
          (connects_external (some engine) (ground (arith, active)))
          (Leads-persist c e a b 1 (record w { session = f w.session })))

  pub external-Leads :
      (attempt : Text) (engine : VpnEngine) (w : World c)
      → Leads c e a b (start_external_platform_vpn c e attempt engine) w
  unfolding start_external_platform_vpn
  external-Leads attempt engine w =
      Leads-guard c e a b (is_external (some engine)) unsupported_engine _ w (λ _.
        Leads-synced c e a b 0 (external_open c e attempt engine) w
          (λ v _. external_open-Leads attempt engine v))

  pub begin_stop-Leads :
      (attempt : Text) (w : World c) → Leads c e a b (begin_stop_platform_vpn c e attempt) w
  unfolding begin_stop_platform_vpn
  begin_stop-Leads attempt w = Leads-synced c e a b 0 (stop_open c e attempt) w (λ v _.
      Leads-if c e a b (v.session.start_attempt_id == attempt)
        (do modify c e stop_attempt; persist c e 1; pure true) (pure false) v
        (λ _. Leads-published c e a b stop_attempt 1 true v stops) (λ _. here))

  pub end_stop-Leads :
      (attempt : Option Text) (w : World c) → Leads c e a b (end_stop_platform_vpn c e attempt) w
  unfolding end_stop_platform_vpn
  end_stop-Leads attempt w =
      Leads-if c e a b (is_other c e attempt w.session.start_attempt_id) (pure true)
        (do modify c e stop_ended; persist c e 0; pure true) w (λ _. here)
        (λ _. Leads-published c e a b stop_ended 0 true w ends_stop)

  ask_stop-Leads : (w : World c) → Leads c e a b (ask_stop c e) w
  unfolding ask_stop
  ask_stop-Leads w =
      let f = λ (s : Session). record s { stop_requested = true } in
      let w' = record w { session = forget_recovery w.session } in
      Leads-modify c e a b forget_recovery
        (if w.session.stop_requested then pure true else do modify c e f; persist c e 1; pure true)
        w forgets
        (Leads-if c e a b w.session.stop_requested (pure true)
          (do modify c e f; persist c e 1; pure true) w' (λ _. here)
          (λ _. Leads-published c e a b f 1 true w' asks_stop))

  request_open-Leads :
      (attempt : Text) (w : World c) → Leads c e a b (request_open c e attempt w.session) w
  request_open-Leads attempt w =
      Leads-if c e a b (not (w.session.start_attempt_id == attempt)) (pure false) _ w (λ _. here)
        (λ _.
          Leads-if c e a b w.session.cleanup_complete (pure true) _ w (λ _. here)
            (λ _.
              Leads-if c e a b (may_request_stop w.session) (ask_stop c e) (pure false) w
                (λ _. ask_stop-Leads w) (λ _. here)))

  pub request-Leads :
      (attempt : Text) (w : World c) → Leads c e a b (request_platform_vpn_stop c e attempt) w
  unfolding request_platform_vpn_stop
  request-Leads attempt w =
      Leads-if c e a b (is_empty attempt) (pure false)
        (do sync c e 0; s ← get; request_open c e attempt s) w (λ _. here)
        (λ _.
          Leads-synced c e a b 0 (request_open c e attempt) w (λ v _. request_open-Leads attempt v))
