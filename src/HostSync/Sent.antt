-- ===== src/HostSync/Sent.antt =====
-- How many bootstraps the host's entry points queue: one by `send_bootstrap`, none by the repairs.
use qcbridge.Prelude.{
  ℕ, ◌+◌, ◌≡◌, refl, ◌∙◌, ap, Bool, not, Option, none, some, List, [], ◌∷◌, String, string_eq, ◌==◌,
}
use qcbridge.HostSync.{
  World, Host, LibFile, not_a_file, too_big, unreadable, contents, send_tombstone,
}
use qcbridge.HostSync.Boot.{
  scene_digest_now, send_bootstrap, answer_missing, ship_library, serve_library, serve_lib_requests,
}
use qcbridge.HostSync.Reached.{reply-lem}
use qcbridge.HostSync.Repair.{Reply, judge_inventory, delta_state, send_tombstones, send_delta}
use qcbridge.HostSync.Targets.{if-lem, option-lem}
use qcbridge.Lanes.{lib_missing, send_cold_msg, send_logged, tomb, after_for}
use qcbridge.Liveness.{DeltaState}
use qcbridge.Resync.{DeltaPlan}

module _ {ℓ} {V : Type ℓ} where
  sent-scene_digest_now :
      (w : World V) (h : Host V) → (scene_digest_now w h).0.sent_boot ≡ h.sent_boot
  unfolding scene_digest_now
  sent-scene_digest_now w h =
      let P : Host V × String → Type 0 = λ r. r.0.sent_boot ≡ h.sent_boot in
      option-lem P w.context_scene _ _ refl (λ o. option-lem P o _ _ refl (λ d. refl))

  pub sent-send_bootstrap :
      (w : World V) (now : ℕ) (h : Host V) → (send_bootstrap w now h).sent_boot ≡ h.sent_boot + 1
  unfolding send_bootstrap
  sent-send_bootstrap w now h = ap (λ n. n + 1) (sent-scene_digest_now w h)

  sent-answer_missing :
      (h : Host V) (path why : String) → (answer_missing h path why).sent_boot ≡ h.sent_boot
  unfolding answer_missing
  sent-answer_missing h path why =
      if-lem (λ (x : Host V). x.sent_boot ≡ h.sent_boot)
        (send_cold_msg h.lanes (lib_missing path why)).1 _ _ refl refl

  sent-serve_file :
      (w : World V) (h : Host V) (path : String) (file : LibFile)
      → w.lib_file path ≡ file
      → (serve_library w h path).sent_boot ≡ h.sent_boot
  unfolding serve_library ship_library
  sent-serve_file w h path (contents bytes sha1) e =
      rw (e, serve_library) (if-lem (λ (x : Host V). x.sent_boot ≡ h.sent_boot) _ _ _ refl refl)
  sent-serve_file w h path not_a_file e =
      rw (e, serve_library)
        (if-lem (λ (x : Host V). x.sent_boot ≡ h.sent_boot) _ _ _ refl
          (sent-answer_missing h path _))
  sent-serve_file w h path too_big e =
      rw (e, serve_library)
        (if-lem (λ (x : Host V). x.sent_boot ≡ h.sent_boot) _ _ _ refl
          (sent-answer_missing h path _))
  sent-serve_file w h path unreadable e =
      rw (e, serve_library)
        (if-lem (λ (x : Host V). x.sent_boot ≡ h.sent_boot) _ _ _ refl
          (sent-answer_missing h path _))

  pub sent-serve_lib_requests :
      (w : World V) (paths : List String) (h : Host V)
      → (serve_lib_requests w h paths).sent_boot ≡ h.sent_boot
  unfolding serve_lib_requests
  sent-serve_lib_requests w [] h = refl
  sent-serve_lib_requests w (path ∷ paths) h =
      sent-serve_lib_requests w paths (serve_library w h path) ∙ sent-serve_file w h path _ refl

  sent-judge_inventory :
      (w : World V) (now : ℕ) (reply : Reply) (theirs held_digest : Option String) (h : Host V)
      → (judge_inventory w now reply theirs held_digest h).0.sent_boot ≡ h.sent_boot
  unfolding judge_inventory
  sent-judge_inventory w now reply none held_digest h = refl
  sent-judge_inventory w now reply (some theirs) held_digest h =
      let P : Host V × DeltaState → Type 0 = λ r. r.0.sent_boot ≡ h.sent_boot in
      let s = sent-scene_digest_now w h in
      let h' = (scene_digest_now w h).0 in
      if-lem P (theirs == "") _ _ refl (
        if-lem P (not (theirs == (scene_digest_now w h).1)) _ _ s (
          if-lem P _ _ _ s (
            option-lem P h'.manifest_req_at _ _ s
              (λ asked. reply-lem P reply _ _ _ (if-lem P _ _ _ s s) s (λ held scene. s)))))

  pub sent-delta_state :
      (w : World V) (now : ℕ) (reply : Reply) (theirs held_digest : Option String) (h : Host V)
      → (delta_state w now reply theirs held_digest h).0.sent_boot ≡ h.sent_boot
  unfolding delta_state
  sent-delta_state w now reply theirs held_digest h =
      sent-scene_digest_now w (judge_inventory w now reply theirs held_digest h).0
      ∙ sent-judge_inventory w now reply theirs held_digest h

  sent-send_tombstones :
      (uuids : List String) (h : Host V) → (send_tombstones h uuids).sent_boot ≡ h.sent_boot
  unfolding send_tombstones send_tombstone
  sent-send_tombstones [] h = refl
  sent-send_tombstones (uuid ∷ uuids) h =
      sent-send_tombstones uuids (send_tombstone h uuid).0
      ∙ if-lem (λ (r : Host V × Bool). r.0.sent_boot ≡ h.sent_boot)
          (send_logged h.lanes uuid "tomb" (tomb uuid (after_for h.lanes uuid))).1 _ _ refl refl

  pub sent-send_delta :
      (w : World V) (h : Host V) (plan : DeltaPlan) → (send_delta w h plan).sent_boot ≡ h.sent_boot
  unfolding send_delta
  sent-send_delta w h plan = sent-send_tombstones plan.tombs h
