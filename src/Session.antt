-- ===== src/Session.antt =====
-- The host's half of qcbridge/ring0/session.py: the handshake, the peer's transitions and the
-- watcher, over the host of HostSync.antt and the policy of Liveness.antt. Times are milliseconds;
-- what the panel shows, the colour state, the viewer card, the shot request, the mirrored paths and
-- a session that was stopped are left out.
pub mod Driven
pub mod Spaced
use qcbridge.Prelude.{
  ℕ, ◌+◌, Eq, Bool, true, false, not, ◌&&◌, ◌||◌, Option, none, some, List, [], ◌∷◌, String,
  string_eq, ◌==◌, if◌then◌else◌, ltb,
}
use qcbridge.FastLog.{covers}
use qcbridge.HostSync.{World, Host}
use qcbridge.HostSync.Boot.{send_bootstrap, serve_lib_requests}
use qcbridge.HostSync.Repair.{
  Reply, delta_state, plan_from_manifest, resend_fast_window, send_delta,
}
use qcbridge.KeySet.{has}
use qcbridge.Liveness
use qcbridge.Liveness.{
  ResyncPolicy, Question, Status, DeltaState, absent, Verdict, nothing, fast, delta, full,
  replica_restarted, decide, allow_full,
}
use qcbridge.Resync.{DeltaPlan, nonempty}

-- The entries of the pong that the watcher reads beside those of the policy.
pub record Pong : Type 0 where
  pub status : Status
  pub scene_digest : Option String
  pub held_digest : Option String
  pub need_libs : List String

-- The reply to a hello.
pub data HelloReply : Type 0 where
  accepted : Option String → List String → HelloReply
  denied : HelloReply

-- `pending`, `flags`, and of `state` what the host's control flow reads; `request` is the time
-- of the hello that waits for its reply, `epochs` counts the epochs made for a new handshake.
pub record Session {ℓ} (V : Type ℓ) : Type ℓ where
  pub host : Host V
  pub policy : ResyncPolicy
  pub armed : Bool
  pub request : Option ℕ
  pub lost : Bool
  pub reconnect : Bool
  pub peer_epoch : Option String
  pub peer_caps : List String
  pub epochs : ℕ
  pub auto_resyncs : ℕ
  pub fast_resyncs : ℕ
  pub delta_resyncs : ℕ

-- `_HANDSHAKE_TIMEOUT`
abbrev pub handshake_timeout : ℕ
handshake_timeout = 8000

abbrev pub or_nought : Option ℕ → ℕ
or_nought none = 0
or_nought (some n) = n

module _ {ℓ} {V : Type ℓ} where
  unfoldable pub arm_handshake : Session V → Bool → Session V
  arm_handshake s new_epoch = if s.armed then s else record s {
    armed = true;
    request = none;
    epochs = (if new_epoch then s.epochs + 1 else s.epochs);
  }

  -- `_on_peer`; `in_flight` is that the link is up and a bootstrap is on its way.
  unfoldable pub on_peer : Session V → Bool → Bool → Session V
  on_peer s alive in_flight =
      if not alive
      then (if in_flight then s else record s { lost = true })
      else if s.lost
      then record s { reconnect = true }
      else s

  -- What a reply changes; `last` is `(bootstraps, resyncs)` of the last pong.
  unfoldable pub handle_reply :
      World V → ℕ → Option Liveness.State → Session V → HelloReply → Session V
  unfolding send_bootstrap Liveness.reset
  handle_reply w now last s (accepted epoch caps) = record s {
    peer_epoch = epoch;
    peer_caps = caps;
    policy = Liveness.reset s.policy last;
    host = send_bootstrap w now s.host;
    request = none;
    armed = false;
  }
  handle_reply w now last s denied = record s { request = none }

  -- A hello that waits since `sent_at`.
  unfoldable pub await_reply :
      World V → ℕ → Option Liveness.State → Option HelloReply → ℕ → Session V → Session V
  unfolding handle_reply
  await_reply w now last (some reply) sent_at s = handle_reply w now last s reply
  await_reply w now last none sent_at s =
      if ltb (sent_at + handshake_timeout) now then record s { request = none } else s

  -- `_handshake`, a timer that runs while the handshake is armed.
  unfoldable pub handshake :
      World V → ℕ → Option Liveness.State → Option HelloReply → Session V → Session V
  unfolding await_reply
  handshake w now last reply s = if not s.armed then s else elim s.request [
    | none ↦ record s { request = some now }
    | some sent_at ↦ await_reply w now last reply sent_at s
  ]

  -- `sync.delta_state(status)`, where the watcher asks for it.
  unfoldable pub asks_delta : Session V → Pong → Bool
  unfolding has
  asks_delta s pong =
      pong.status.want_resync
      && has s.peer_caps "delta_resync"
      && (pong.status.gap_lane == "cold"
          || pong.status.gap_lane == "both"
          || pong.status.gap_lane == "unknown")

  unfoldable pub delta_answer : World V → ℕ → Reply → Pong → Session V → Session V × DeltaState
  unfolding asks_delta delta_state
  delta_answer w now reply pong s =
      let (host, answer) = delta_state w now reply pong.scene_digest pong.held_digest s.host in
      if asks_delta s pong then (record s { host = host }, answer) else (s, absent)

  -- The plan of a delta, or the bootstrap in its place.
  unfoldable pub act_on_plan : World V → ℕ → Session V → Option DeltaPlan → Session V
  unfolding send_delta send_bootstrap allow_full
  act_on_plan w now s (some plan) = record s {
    host = send_delta w s.host plan;
    delta_resyncs = s.delta_resyncs + 1;
  }
  act_on_plan w now s none =
      let (policy, granted) = allow_full s.policy now in
      if granted
      then record s {
        policy = policy;
        host = send_bootstrap w now s.host;
        auto_resyncs = s.auto_resyncs + 1;
      }
      else record s { policy = policy }

  -- What the watcher does with a verdict.
  unfoldable pub act_on : World V → ℕ → Pong → Session V → Verdict → Session V
  unfolding resend_fast_window plan_from_manifest act_on_plan send_bootstrap
  act_on w now pong s nothing = s
  act_on w now pong s fast = record s {
    host = resend_fast_window s.host (or_nought pong.status.fast_gap_at);
    fast_resyncs = s.fast_resyncs + 1;
  }
  act_on w now pong s delta = act_on_plan w now s (plan_from_manifest w pong.status.gap_lane s.host)
  act_on w now pong s full = record s {
    host = send_bootstrap w now s.host;
    auto_resyncs = s.auto_resyncs + 1;
  }

  -- The question that the watcher puts to the policy.
  abbrev pub question_of : Session V → ℕ → Pong → DeltaState → Question
  question_of s now pong answer = record {
    status = pong.status;
    now = now;
    caps = some s.peer_caps;
    fast_covers = some (covers s.host.lanes.fastlog);
    delta_state = answer;
  }

  -- The last part of `_watch`, where no handshake is under way.
  unfoldable pub watch_status : World V → ℕ → Reply → Pong → Session V → Session V
  unfolding serve_lib_requests delta_answer decide act_on
  watch_status w now reply pong s =
      let served = record s { host = serve_lib_requests w s.host pong.need_libs } in
      let (asked, answer) = delta_answer w now reply pong served in
      let (policy, verdict) = decide asked.policy (question_of asked now pong answer) in
      act_on w now pong (record asked { policy = policy }) verdict

  unfoldable pub watch : World V → ℕ → Reply → Pong → Session V → Session V
  unfolding arm_handshake replica_restarted watch_status
  watch w now reply pong s =
      if s.reconnect
      then arm_handshake (record s { reconnect = false; lost = false }) true
      else if not s.armed && replica_restarted pong.status s.peer_epoch
      then arm_handshake s true
      else if s.armed
      then s
      else watch_status w now reply pong s
