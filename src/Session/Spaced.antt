-- ===== src/Session/Spaced.antt =====
-- The bootstraps that the watcher sends of its own accord, over any sequence of events.
use mathlib.Core.List.{append_assoc, append-nil}
use qcbridge.Prelude.{
  ℕ, zero, suc, ◌-◌, ◌+◌, ◌≡◌, refl, ◌∙◌, sym, ap, Bool, true, false, not, ◌&&◌, Option, none, some,
  List, [], ◌∷◌, ◌++◌, string_eq, arith, if◌then◌else◌, ltb, Bool-cases, inl, inr,
}
use qcbridge.HostSync.{World}
use qcbridge.HostSync.Boot.{serve_lib_requests, send_bootstrap}
use qcbridge.HostSync.Sent.{
  sent-send_bootstrap, sent-serve_lib_requests, sent-delta_state, sent-send_delta,
}
use qcbridge.HostSync.Repair.{Reply, plan_from_manifest, resend_fast_window}
use qcbridge.HostSync.Targets.{if-lem, option-lem}
use qcbridge.Liveness
use qcbridge.Liveness.{
  ResyncPolicy, Question, Verdict, nothing, fast, delta, full, is_full, decide, allow_full,
  replica_restarted,
}
use qcbridge.Liveness.Rate
use qcbridge.Liveness.Rate.{
  Call, decide_call, allow_call, reset_call, full_times, all_full_times, Spaced, grants-Spaced,
}
use qcbridge.Resync.{DeltaPlan}
use qcbridge.Session.{
  Session, Pong, HelloReply, accepted, denied, arm_handshake, on_peer, handle_reply, await_reply,
  handshake, handshake_timeout, delta_answer, asks_delta, act_on_plan, act_on, question_of,
  watch_status, watch,
}

-- What happens to the host's session: a transition of the peer, a turn of the handshake's timer,
-- a turn of the watcher's.
pub data Event {ℓ} (V : Type ℓ) : Type ℓ where
  peer_event : Bool → Bool → Event V
  hello_event : World V → ℕ → Option Liveness.State → Option HelloReply → Event V
  watch_event : World V → ℕ → Reply → Pong → Event V

-- The policy after calls, one after the other.
unfoldable pub after_calls : ResyncPolicy → List Call → ResyncPolicy
after_calls p [] = p
after_calls p (c ∷ cs) = after_calls (Rate.after p c) cs

all_full_times-append :
    (p : ResyncPolicy) (cs ds : List Call)
    → all_full_times p (cs ++ ds) ≡ all_full_times p cs ++ all_full_times (after_calls p cs) ds
unfolding all_full_times after_calls
all_full_times-append p [] ds = refl
all_full_times-append p (c ∷ cs) ds =
    ap (λ (z : List ℕ). full_times p c ++ z) (all_full_times-append (Rate.after p c) cs ds)
    ∙ sym (append_assoc (full_times p c) _ _)

after_calls-append :
    (p : ResyncPolicy) (cs ds : List Call)
    → after_calls p (cs ++ ds) ≡ after_calls (after_calls p cs) ds
unfolding after_calls
after_calls-append p [] ds = refl
after_calls-append p (c ∷ cs) ds = after_calls-append (Rate.after p c) cs ds

abbrev repeated : ℕ → ℕ → List ℕ
repeated zero now = []
repeated (suc n) now = now ∷ repeated n now

-- The time `now`, as often as the count of bootstraps queued grew.
abbrev pub sent_at : ℕ → ℕ → ℕ → List ℕ
sent_at before count now = repeated (count - before) now

sent_none : (before count now : ℕ) → count ≡ before → sent_at before count now ≡ []
sent_none before count now e =
    let d : count - before ≡ 0 = omega arith in ap (λ n. repeated n now) d

sent_one : (before count now : ℕ) → count ≡ before + 1 → sent_at before count now ≡ now ∷ []
sent_one before count now e = let d : count - before ≡ 1 = omega arith in ap (λ n. repeated n now) d

-- What a turn did to the policy is calls of it, and the bootstrap it sent is the one they grant.
record Matched {ℓ} {V : Type ℓ} (p : ResyncPolicy) (count now : ℕ) (s : Session V) : Type 0 where
  calls : List Call
  policy : s.policy ≡ after_calls p calls
  times : sent_at count s.host.sent_boot now ≡ all_full_times p calls

-- The whole run as calls of the policy.
record Granted (p : ResyncPolicy) (times : List ℕ) : Type 0 where
  calls : List Call
  same : times ≡ all_full_times p calls

joined :
    (p p' : ResyncPolicy) (first rest : List ℕ) (calls : List Call)
    → p' ≡ after_calls p calls
    → first ≡ all_full_times p calls
    → Granted p' rest
    → Granted p (first ++ rest)
joined p p' first rest calls same t g = record {
  calls = calls ++ g.calls;
  same = rw (all_full_times-append, ← same, ← t, ← g.same) refl;
}

module _ {ℓ} {V : Type ℓ} where
  still :
      (s : Session V) (p : ResyncPolicy) (count now : ℕ)
      → s.policy ≡ p
      → s.host.sent_boot ≡ count
      → Matched p count now s
  unfolding after_calls all_full_times
  still s p count now same n = record { calls = []; policy = same; times = sent_none count _ now n }

  decided :
      (p p' : ResyncPolicy) (q : Question) (v : Verdict) (s : Session V) (count : ℕ)
      → decide p q ≡ (p', v)
      → s.policy ≡ p'
      → sent_at count s.host.sent_boot q.now ≡ (if is_full v then q.now ∷ [] else [])
      → Matched p count q.now s
  unfolding after_calls all_full_times Rate.after full_times
  decided p p' q v s count e same t = record {
    calls = decide_call q ∷ [];
    policy = same ∙ sym (ap (λ r. r.0) e);
    times =
        t
        ∙ sym (ap (λ (r : ResyncPolicy × Verdict). if is_full r.1 then q.now ∷ [] else []) e)
        ∙ sym (append-nil _);
  }

  act_on_plan-Matched :
      (w : World V) (a : Session V) (q : Question) (p' : ResyncPolicy) (plan : Option DeltaPlan)
      → decide a.policy q ≡ (p', delta)
      → Matched a.policy a.host.sent_boot q.now
          (act_on_plan w q.now (record a { policy = p' }) plan)
  unfolding act_on_plan after_calls all_full_times Rate.after full_times
  act_on_plan-Matched w a q p' (some plan) e =
      decided a.policy p' q delta _ a.host.sent_boot e refl
        (sent_none a.host.sent_boot _ q.now (sent-send_delta w a.host plan))
  act_on_plan-Matched w a q p' none e =
      let F : ResyncPolicy × Verdict → List ℕ = λ r.
        (if is_full r.1 then q.now ∷ [] else [])
        ++ ((if (allow_full r.0 q.now).1 then q.now ∷ [] else []) ++ []) in
      let same = sym (ap (λ (r : ResyncPolicy × Verdict). (allow_full r.0 q.now).0) e) in
      elim (Bool-cases (allow_full p' q.now).1) [
        | inl granted ↦
            let t : sent_at a.host.sent_boot (send_bootstrap w q.now a.host).sent_boot q.now
                ≡ F (p', delta) =
              rw granted (sent_one a.host.sent_boot _ q.now (sent-send_bootstrap w q.now a.host)) in
            rw (granted, act_on_plan)
              (record {
                calls = decide_call q ∷ allow_call q.now ∷ [];
                policy = same;
                times = t ∙ sym (ap F e);
              })
        | inr early ↦
            let t : sent_at a.host.sent_boot a.host.sent_boot q.now ≡ F (p', delta) =
              rw early (sent_none a.host.sent_boot _ q.now refl) in
            rw (early, act_on_plan)
              (record {
                calls = decide_call q ∷ allow_call q.now ∷ [];
                policy = same;
                times = t ∙ sym (ap F e);
              })
      ]

  act_on-Matched :
      (w : World V) (pong : Pong) (a : Session V) (q : Question) (p' : ResyncPolicy) (v : Verdict)
      → decide a.policy q ≡ (p', v)
      → Matched a.policy a.host.sent_boot q.now (act_on w q.now pong (record a { policy = p' }) v)
  unfolding act_on resend_fast_window
  act_on-Matched w pong a q p' nothing e =
      decided a.policy p' q nothing _ a.host.sent_boot e refl
        (sent_none a.host.sent_boot _ q.now refl)
  act_on-Matched w pong a q p' fast e =
      decided a.policy p' q fast _ a.host.sent_boot e refl (sent_none a.host.sent_boot _ q.now refl)
  act_on-Matched w pong a q p' delta e =
      act_on_plan-Matched w a q p' (plan_from_manifest w pong.status.gap_lane a.host) e
  act_on-Matched w pong a q p' full e =
      decided a.policy p' q full _ a.host.sent_boot e refl
        (sent_one a.host.sent_boot _ q.now (sent-send_bootstrap w q.now a.host))

  same_session :
      (w : World V) (now : ℕ) (reply : Reply) (pong : Pong) (s : Session V)
      → let a = (delta_answer w now reply pong s).0 in
        (a.policy ≡ s.policy) × (a.host.sent_boot ≡ s.host.sent_boot)
  unfolding delta_answer
  same_session w now reply pong s =
      let P : Session V × Liveness.DeltaState → Type 0 =
        λ r. (r.0.policy ≡ s.policy) × (r.0.host.sent_boot ≡ s.host.sent_boot) in
      if-lem P (asks_delta s pong) _ _
        (refl, sent-delta_state w now reply pong.scene_digest pong.held_digest s.host) (refl, refl)

  Matched-from :
      (p p' : ResyncPolicy) (n n' now : ℕ) (s : Session V)
      → p' ≡ p
      → n' ≡ n
      → Matched p' n' now s
      → Matched p n now s
  Matched-from p p' n n' now s same count m = rw (← same, ← count) m

  watch_status-Matched :
      (w : World V) (now : ℕ) (reply : Reply) (pong : Pong) (s : Session V)
      → Matched s.policy s.host.sent_boot now (watch_status w now reply pong s)
  unfolding watch_status
  watch_status-Matched w now reply pong s =
      let served = record s { host = serve_lib_requests w s.host pong.need_libs } in
      let (asked, answer) = delta_answer w now reply pong served in
      let q = question_of asked now pong answer in
      let (p', v) = decide asked.policy q in
      let same = same_session w now reply pong served in
      Matched-from s.policy asked.policy s.host.sent_boot asked.host.sent_boot now _ same.0
        (same.1 ∙ sent-serve_lib_requests w pong.need_libs s.host)
        (act_on-Matched w pong asked q p' v refl)

  armed_same :
      (s : Session V) (fresh : Bool)
      → ((arm_handshake s fresh).policy ≡ s.policy)
        × ((arm_handshake s fresh).host.sent_boot ≡ s.host.sent_boot)
  unfolding arm_handshake
  armed_same s fresh =
      if-lem (λ (x : Session V). (x.policy ≡ s.policy) × (x.host.sent_boot ≡ s.host.sent_boot))
        s.armed _ _ (refl, refl) (refl, refl)

  watch-Matched :
      (w : World V) (now : ℕ) (reply : Reply) (pong : Pong) (s : Session V)
      → Matched s.policy s.host.sent_boot now (watch w now reply pong s)
  unfolding watch
  watch-Matched w now reply pong s =
      let P : Session V → Type 0 = Matched s.policy s.host.sent_boot now in
      let told = record s { reconnect = false; lost = false } in
      if-lem P s.reconnect _ _
        (still _ s.policy s.host.sent_boot now (armed_same told true).0 (armed_same told true).1)
        (if-lem P (not s.armed && replica_restarted pong.status s.peer_epoch) _ _
          (still _ s.policy s.host.sent_boot now (armed_same s true).0 (armed_same s true).1)
          (if-lem P s.armed _ _ (still s s.policy s.host.sent_boot now refl refl)
            (watch_status-Matched w now reply pong s)))

  -- One event, and the times of the bootstraps that the watcher queued in it.
  unfoldable pub step : Session V → Event V → Session V
  unfolding on_peer handshake watch
  step s (peer_event alive in_flight) = on_peer s alive in_flight
  step s (hello_event w now last reply) = handshake w now last reply s
  step s (watch_event w now reply pong) = watch w now reply pong s

  unfoldable pub boot_times : Session V → List (Event V) → List ℕ
  unfolding step
  boot_times s [] = []
  boot_times s (watch_event w now reply pong ∷ es) =
      let s' = step s (watch_event w now reply pong) in
      sent_at s.host.sent_boot s'.host.sent_boot now ++ boot_times s' es
  boot_times s (e ∷ es) = boot_times (step s e) es

  -- The other events only reset the policy.
  record Quiet (p : ResyncPolicy) (s : Session V) : Type 0 where
    calls : List Call
    policy : s.policy ≡ after_calls p calls
    silent : all_full_times p calls ≡ []

  unmoved : (s : Session V) (p : ResyncPolicy) → s.policy ≡ p → Quiet p s
  unfolding after_calls all_full_times
  unmoved s p same = record { calls = []; policy = same; silent = refl }

  on_peer-Quiet :
      (s : Session V) (alive in_flight : Bool) → Quiet s.policy (on_peer s alive in_flight)
  unfolding on_peer
  on_peer-Quiet s alive in_flight =
      let P : Session V → Type 0 = Quiet s.policy in
      if-lem P (not alive) _ _
        (if-lem P in_flight _ _ (unmoved _ s.policy refl) (unmoved _ s.policy refl))
        (if-lem P s.lost _ _ (unmoved _ s.policy refl) (unmoved _ s.policy refl))

  await_reply-Quiet :
      (w : World V) (now : ℕ) (last : Option Liveness.State) (reply : Option HelloReply) (sent : ℕ)
      (s : Session V)
      → Quiet s.policy (await_reply w now last reply sent s)
  unfolding await_reply handle_reply after_calls all_full_times full_times Rate.after
  await_reply-Quiet w now last (some (accepted epoch caps)) sent s = record {
    calls = reset_call last ∷ [];
    policy = refl;
    silent = refl;
  }
  await_reply-Quiet w now last (some denied) sent s = unmoved _ s.policy refl
  await_reply-Quiet w now last none sent s =
      if-lem (Quiet s.policy) (ltb (sent + handshake_timeout) now) (record s { request = none }) s
        (unmoved (record s { request = none }) s.policy refl) (unmoved s s.policy refl)

  handshake-Quiet :
      (w : World V) (now : ℕ) (last : Option Liveness.State) (reply : Option HelloReply)
      (s : Session V)
      → Quiet s.policy (handshake w now last reply s)
  unfolding handshake
  handshake-Quiet w now last reply s =
      let P : Session V → Type 0 = Quiet s.policy in
      if-lem P (not s.armed) _ _ (unmoved s s.policy refl) (
        option-lem P s.request _ _ (unmoved _ s.policy refl)
          (λ sent. await_reply-Quiet w now last reply sent s))

  boot_times-Granted : (es : List (Event V)) (s : Session V) → Granted s.policy (boot_times s es)
  unfolding boot_times step all_full_times
  boot_times-Granted [] s = record { calls = []; same = refl }
  boot_times-Granted (peer_event alive in_flight ∷ es) s =
      let q = on_peer-Quiet s alive in_flight in
      joined s.policy _ [] _ q.calls q.policy (sym q.silent) (boot_times-Granted es _)
  boot_times-Granted (hello_event w now last reply ∷ es) s =
      let q = handshake-Quiet w now last reply s in
      joined s.policy _ [] _ q.calls q.policy (sym q.silent) (boot_times-Granted es _)
  boot_times-Granted (watch_event w now reply pong ∷ es) s =
      let m = watch-Matched w now reply pong s in
      joined s.policy _ _ _ m.calls m.policy m.times (boot_times-Granted es _)

  -- Over any sequence of transitions of the peer, handshakes with any replies, and turns of the
  -- watcher on any pongs, the bootstraps that the watcher's turns queue on the host, each as often
  -- as `send_bootstrap` counts it, are at least `min_interval` apart, from the one that the policy
  -- remembers on; those of a handshake are not among them.
  pub boot_times-Spaced :
      (s : Session V) (es : List (Event V))
      → Spaced s.policy.min_interval s.policy.last_sent (boot_times s es)
  boot_times-Spaced s es =
      let g = boot_times-Granted es s in rw g.same (grants-Spaced s.policy g.calls).0
