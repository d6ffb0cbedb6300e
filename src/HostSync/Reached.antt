-- ===== src/HostSync/Reached.antt =====
-- What the session calls on the host, in any order, and what then holds of the two lanes.
use qcbridge.Prelude.{
  ℕ, ◌≡◌, refl, ◌∙◌, not, ◌==◌, Eq, Bool, true, false, Option, none, some, List, [], ◌∷◌, String,
  string_eq,
}
use qcbridge.Dict
use qcbridge.Debouncer
use qcbridge.DirtySet
use qcbridge.DirtySet.{mark_deleted}
use qcbridge.HostSync.{World, Host, debounce_s}
use qcbridge.HostSync.Boot.{scene_digest_now, send_bootstrap, serve_lib_requests}
use qcbridge.HostSync.Follows.{Leads}
use qcbridge.HostSync.Repair.{
  resend_fast_window, send_delta, judge_inventory, delta_state, Reply, no_reply, other_reply,
  inventory,
}
use qcbridge.HostSync.Rounds.{
  send_bootstrap-Leads, serve_lib_requests-Leads, send_delta-Leads, on_depsgraph-Leads,
  flush_tick-Leads, reset_for_new_file-Leads, Steps-from, lanes-scene_digest_now,
  lanes-initial_scan,
}
use qcbridge.HostSync.Tick.{Update, on_depsgraph, flush_tick, initial_scan, reset_for_new_file}
use qcbridge.HostSync.Targets.{if-lem, option-lem}
use qcbridge.Liveness.{DeltaState}
use qcbridge.Lanes
use qcbridge.Lanes.{Lanes}
use qcbridge.Lanes.Order.{IsSafe, run-IsSafe}
use qcbridge.Lanes.Step.{stay, Steps-trans}
use qcbridge.Resync.{DeltaPlan}

pub reply-lem {κ μ} :
    {B : Type κ} (P : B → Type μ) (reply : Reply) (x y : B)
    (f : List (String × String) → String → B)
    → P x
    → P y
    → ((held : List (String × String)) (scene : String) → P (f held scene))
    → P (elim reply [ no_reply ↦ x | other_reply ↦ y | inventory held scene ↦ f held scene ])
reply-lem P no_reply x y f p q r = p
reply-lem P other_reply x y f p q r = q
reply-lem P (inventory held scene) x y f p q r = r held scene

-- A call of one of the host's entry points, at a time, in the world as it is then.
pub data Call {ℓ} (V : Type ℓ) : Type ℓ where
  scan_call : World V → Call V
  depsgraph_call : ℕ → List Update → Call V
  tick_call : World V → ℕ → Bool → Call V
  bootstrap_call : World V → ℕ → Call V
  new_file_call : World V → ℕ → Call V
  libs_call : World V → List String → Call V
  window_call : ℕ → Call V
  state_call : World V → ℕ → Reply → Option String → Option String → Call V
  delta_call : World V → DeltaPlan → Call V

module _ {ℓ} {V : Type ℓ} where
  -- `__init__`, before a transport that will give these answers; the first scan is a call of its own
  abbrev pub init : ℕ → List Bool → Host V
  init capacity answers = record {
    lanes = Lanes.init capacity answers;
    shadow = [];
    dirty = DirtySet.init;
    debounce = Debouncer.init debounce_s;
    uuid_to_db = [];
    blob_hash = [];
    prime_queue = [];
    scene_digest = "";
    burst = false;
    auto_boot_at = none;
    last_auto_boot = none;
    boot_queued_at = 0;
    vis_state = [];
    last_sweep = 0;
    suppress_marks = true;
    drop_next_batch = false;
    fast_resend_queue = [];
    fast_resend_end = false;
    manifest_pending = [];
    manifest = none;
    manifest_req_at = none;
    delta_queue = [];
    delta_tail = [];
    delta_end_pending = false;
    lib_state = [];
    libs_served = [];
    libs_shipped = 0;
    links_sent = 0;
    boot_gen = none;
    sent_boot = 0;
    sent_t1 = 0;
    sent_t2 = 0;
    t2_skipped = 0;
    t2_unsupported = 0;
    fast_resyncs = 0;
    delta_resyncs = 0;
    delta_t2 = 0;
    auto_boots = 0;
    sync_errors = 0;
    primed = 0;
  }

  lanes-judge_inventory :
      (w : World V) (now : ℕ) (reply : Reply) (theirs held_digest : Option String) (h : Host V)
      → (judge_inventory w now reply theirs held_digest h).0.lanes ≡ h.lanes
  unfolding judge_inventory
  lanes-judge_inventory w now reply none held_digest h = refl
  lanes-judge_inventory w now reply (some theirs) held_digest h =
      let P : Host V × DeltaState → Type ℓ = λ r. r.0.lanes ≡ h.lanes in
      let s = lanes-scene_digest_now w h in
      let h' = (scene_digest_now w h).0 in
      if-lem P (theirs == "") _ _ refl (
        if-lem P (not (theirs == (scene_digest_now w h).1)) _ _ s (
          if-lem P _ _ _ s (
            option-lem P h'.manifest_req_at _ _ s
              (λ asked. reply-lem P reply _ _ _ (if-lem P _ _ _ s s) s (λ held scene. s)))))

  lanes-delta_state :
      (w : World V) (now : ℕ) (reply : Reply) (theirs held_digest : Option String) (h : Host V)
      → (delta_state w now reply theirs held_digest h).0.lanes ≡ h.lanes
  unfolding delta_state
  lanes-delta_state w now reply theirs held_digest h =
      lanes-scene_digest_now w (judge_inventory w now reply theirs held_digest h).0
      ∙ lanes-judge_inventory w now reply theirs held_digest h

module _ {ℓ} {V : Type ℓ} ⦃e : Eq V⦄ where
  unfoldable pub after : Host V → Call V → Host V
  after h (scan_call w) = initial_scan w h w.scanned
  after h (depsgraph_call now updates) = on_depsgraph now h updates
  after h (tick_call w now paused) = flush_tick w now paused h
  after h (bootstrap_call w now) = send_bootstrap w now h
  after h (new_file_call w now) = reset_for_new_file w now h
  after h (libs_call w paths) = serve_lib_requests w h paths
  after h (window_call gap_at) = resend_fast_window h gap_at
  after h (state_call w now reply theirs held_digest) =
      (delta_state w now reply theirs held_digest h).0
  after h (delta_call w plan) = send_delta w h plan

  unfoldable pub after_all : Host V → List (Call V) → Host V
  unfolding after
  after_all h [] = h
  after_all h (c ∷ cs) = after_all (after h c) cs

  after-Leads : (h : Host V) (c : Call V) → Leads h.lanes (after h c)
  unfolding after resend_fast_window
  after-Leads h (scan_call w) = lanes-initial_scan w w.scanned h
  after-Leads h (depsgraph_call now updates) = on_depsgraph-Leads now h updates
  after-Leads h (tick_call w now paused) = flush_tick-Leads w now paused h
  after-Leads h (bootstrap_call w now) = send_bootstrap-Leads w now h
  after-Leads h (new_file_call w now) = reset_for_new_file-Leads w now h
  after-Leads h (libs_call w paths) = serve_lib_requests-Leads w paths h
  after-Leads h (window_call gap_at) = stay
  after-Leads h (state_call w now reply theirs held_digest) =
      Steps-from (lanes-delta_state w now reply theirs held_digest h) stay
  after-Leads h (delta_call w plan) = send_delta-Leads w h plan

  -- Whatever the host is called to do, at any times, in any worlds and with any answers of the
  -- transport, its lanes are reached by runs of the two-lane protocol: every call refines it.
  pub calls-Leads : (h : Host V) (cs : List (Call V)) → Leads h.lanes (after_all h cs)
  unfolding after_all
  calls-Leads h [] = stay
  calls-Leads h (c ∷ cs) = Steps-trans (after-Leads h c) (calls-Leads (after h c) cs)

  -- After any calls from the start, with any answers of the transport: the accepted messages of
  -- each lane carry the numbers 1, 2, 3 and so on in the order they left, so a refusal leaves no
  -- hole; and each delta or tombstone names a cold number at or above those of all chunks of its
  -- datablock's blobs that left before it, of all library messages, and of all chunks of the
  -- bootstraps if the last of them has left whole.
  pub calls-IsSafe :
      (capacity : ℕ) (answers : List Bool) (cs : List (Call V))
      → IsSafe (after_all (init capacity answers) cs).lanes
  calls-IsSafe capacity answers cs =
      run-IsSafe capacity answers _ (calls-Leads (init capacity answers) cs)
