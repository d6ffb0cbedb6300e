-- ===== src/HostSync/Rounds.antt =====
-- The bootstraps, repairs and ticks of the host are runs of the protocol of Lanes/Step.antt.
use qcbridge.Prelude.{
  ℕ, zero, suc, ◌+◌, ◌-◌, ◌≡◌, refl, Eq, Bool, true, false, not, ◌||◌, Option, none, List, [], ◌∷◌,
  String, string_eq, ◌==◌, leb, ltb, arith, if◌then◌else◌, is_some, select, length,
}
use qcbridge.Dict
use qcbridge.Dict.{keys}
use qcbridge.KeySet.{has}
use qcbridge.Blob
use qcbridge.Blob.{Bytes, chunk_blob, chunks_from, total_of}
use qcbridge.DirtySet
use qcbridge.DirtySet.{Tier}
use qcbridge.HostSync.{
  World, Host, Sample, RequestLane, no_lane, lane_full, lane_free, raises, LibState, LibFile,
  not_a_file, too_big, unreadable, contents, know, default_chunk_size, send_tombstone,
}
use qcbridge.HostSync.Boot.{
  scene_digest_now, boot_chunks, send_bootstrap, flush_boot, flush_libs, same_state, uses_any,
  sweep_used, sweep_gone, sweep_libraries, answer_missing, ship_library, serve_library,
  serve_lib_requests, prime_one, prime_hashes,
}
use qcbridge.HostSync.Follows.{
  Leads, LeadsTo, chunk_blob-meta, send_tombstone-Leads, blob_queued-Steps, flush_t2-Leads,
  send_t1-Leads, flush_t1-Leads,
}
use qcbridge.HostSync.Repair.{
  send_tombstones, send_delta, send_t1_full, resend_entry, resend_loop, drain_fast_resend,
  resend_t2, delta_loop, tail_loop, end_delta, drain_delta, delta_per_tick, fast_resend_per_tick,
}
use qcbridge.HostSync.Targets.{if-lem, list-lem, option-lem, serialized-lem}
use qcbridge.HostSync.Tick.{
  touch_ready, sample_one, sweep_visibility, adopt_all, bury_all, sweep_deletions,
  send_manifest_batch, is_past, auto_boot_covered_s, long_ago, auto_boot, sweep, flush_entries,
  flush_dirty, flush_idle, flush_repairs, flush_tick, t2_per_tick, is_tier1, scan_one, initial_scan,
  reset_for_new_file, mark_update, mark_updates, on_depsgraph, Update, owes_window, owes_delta,
}
use qcbridge.Lanes.{
  Lanes, Meta, link, unlink, lib_missing, send_cold_msg, drain_boot, drain_t2_outbox,
}
use qcbridge.Lanes.Step.{
  Steps, stay, Steps-trans, Steps-one, boot_queued, lib_queued, IsBoot, is_boot_meta, is_lib_meta,
  drain_boot-Steps, drain_lib-Steps, drain_t2_outbox-Steps, send_cold_msg-Steps, cold_end-Steps,
  fast_end-Steps,
}
use qcbridge.Resync.{DeltaPlan, nonempty}
use qcbridge.Shadow
use qcbridge.Shadow.{Snapshot, plain_entry}

request-lem {ℓ κ} :
    {B : Type ℓ} (P : B → Type κ) (lane : RequestLane) (x y z : B)
    → P x
    → P y
    → P z
    → P (elim lane [ no_lane ↦ x | lane_full ↦ y | lane_free ↦ z ])
request-lem P no_lane x y z p q r = p
request-lem P lane_full x y z p q r = q
request-lem P lane_free x y z p q r = r

chunks_from-IsBoot :
    (kind id : String) (bytes : Bytes) (meta : Meta) (size i count : ℕ)
    → is_boot_meta meta ≡ true
    → i + count ≡ total_of (length bytes) size
    → IsBoot (chunks_from kind id bytes meta size i count)
unfolding chunks_from Blob.chunk
chunks_from-IsBoot kind id bytes meta size i zero h e = tt
chunks_from-IsBoot kind id bytes meta size i (suc zero) h e = h
chunks_from-IsBoot kind id bytes meta size i (suc (suc count)) h e = (
  h,
  ground arith,
  chunks_from-IsBoot kind id bytes meta size (i + 1) (suc count) h (omega arith),
)

module _ {ℓ} {V : Type ℓ} where
  boot_chunks-IsBoot :
      (w : World V) (h : Host V) (digest : String) → IsBoot (boot_chunks w h digest)
  unfolding boot_chunks chunk_blob
  boot_chunks-IsBoot w h digest =
      chunks_from-IsBoot "boot" _ w.mainfile _ default_chunk_size 0 _ refl (omega arith)

  pub lanes-scene_digest_now : (w : World V) (h : Host V) → (scene_digest_now w h).0.lanes ≡ h.lanes
  unfolding scene_digest_now
  lanes-scene_digest_now w h =
      option-lem (λ (r : Host V × String). r.0.lanes ≡ h.lanes) w.context_scene _ _ refl
        (λ o. option-lem (λ (r : Host V × String). r.0.lanes ≡ h.lanes) o _ _ refl (λ d. refl))

  pub Steps-from : {l l' m : Lanes V} → l' ≡ l → Steps l' m → Steps l m
  Steps-from e s = rw (← e) s

  pub send_bootstrap-Leads :
      (w : World V) (now : ℕ) (h : Host V) → Leads h.lanes (send_bootstrap w now h)
  unfolding send_bootstrap
  send_bootstrap-Leads w now h =
      let s = scene_digest_now w h in
      Steps-from (lanes-scene_digest_now w h)
        (Steps-one (boot_queued (boot_chunks w s.0 s.1) _ (boot_chunks-IsBoot w s.0 s.1)))

  flush_boot-Leads : (h : Host V) → LeadsTo h.lanes (flush_boot h)
  unfolding flush_boot
  flush_boot-Leads h =
      let P : Host V × Bool → Type ℓ = λ r. Steps h.lanes r.0.lanes in
      let s = drain_boot-Steps h.lanes.boot_outbox h.lanes refl in
      list-lem P h.lanes.boot_outbox _ _ stay
        (λ c cs. if-lem P (drain_boot h.lanes.boot_outbox h.lanes).1 _ _ s s)

  flush_libs-Leads : (h : Host V) → LeadsTo h.lanes (flush_libs h)
  unfolding flush_libs
  flush_libs-Leads h = drain_lib-Steps h.lanes.lib_outbox h.lanes refl

  sweep_used-Leads :
      (current : List (String × LibState)) (h : Host V) → Leads h.lanes (sweep_used h current)
  unfolding sweep_used
  sweep_used-Leads [] h = stay
  sweep_used-Leads ((path, state) ∷ current) h =
      let s = send_cold_msg-Steps h.lanes (link path state.0 state.1) refl in
      if-lem (Leads h.lanes) (same_state (Dict.get h.lib_state path) state) _ _
        (sweep_used-Leads current h)
        (if-lem (Leads h.lanes) (send_cold_msg h.lanes (link path state.0 state.1)).1 _ _
          (Steps-trans s (sweep_used-Leads current _)) (Steps-trans s (sweep_used-Leads current _)))

  sweep_gone-Leads :
      (current : List (String × LibState)) (paths : List String) (h : Host V)
      → Leads h.lanes (sweep_gone current h paths)
  unfolding sweep_gone
  sweep_gone-Leads current [] h = stay
  sweep_gone-Leads current (path ∷ paths) h =
      let s = send_cold_msg-Steps h.lanes (unlink path) refl in
      if-lem (Leads h.lanes) (is_some (Dict.get current path)) _ _
        (sweep_gone-Leads current paths h)
        (if-lem (Leads h.lanes) (send_cold_msg h.lanes (unlink path)).1 _ _
          (Steps-trans s (sweep_gone-Leads current paths _))
          (Steps-trans s (sweep_gone-Leads current paths _)))

  sweep_libraries-Leads : (w : World V) (h : Host V) → Leads h.lanes (sweep_libraries w h)
  unfolding sweep_libraries
  sweep_libraries-Leads w h = Steps-trans (sweep_used-Leads (select uses_any w.libraries) h) (
      sweep_gone-Leads (select uses_any w.libraries)
        (keys (sweep_used h (select uses_any w.libraries)).lib_state)
        (sweep_used h (select uses_any w.libraries)))

  answer_missing-Leads :
      (h : Host V) (path why : String) → Leads h.lanes (answer_missing h path why)
  unfolding answer_missing
  answer_missing-Leads h path why =
      let s = send_cold_msg-Steps h.lanes (lib_missing path why) refl in
      if-lem (Leads h.lanes) (send_cold_msg h.lanes (lib_missing path why)).1 _ _ s s

  ship_library-Leads :
      (w : World V) (h : Host V) (path : String) (bytes : Bytes) (sha1 : String)
      → Leads h.lanes (ship_library w h path bytes sha1)
  unfolding ship_library
  ship_library-Leads w h path bytes sha1 =
      Steps-one
        (lib_queued _ (chunk_blob-meta "libfile" _ bytes _ default_chunk_size is_lib_meta refl))

  serve_file-Leads :
      (w : World V) (h : Host V) (path : String) (file : LibFile)
      → w.lib_file path ≡ file
      → Leads h.lanes (serve_library w h path)
  unfolding serve_library
  serve_file-Leads w h path (contents bytes sha1) e =
      rw (e, serve_library)
        (if-lem (Leads h.lanes) _ _ _ stay (ship_library-Leads w h path bytes sha1))
  serve_file-Leads w h path not_a_file e =
      rw (e, serve_library) (if-lem (Leads h.lanes) _ _ _ stay (answer_missing-Leads h path _))
  serve_file-Leads w h path too_big e =
      rw (e, serve_library) (if-lem (Leads h.lanes) _ _ _ stay (answer_missing-Leads h path _))
  serve_file-Leads w h path unreadable e =
      rw (e, serve_library) (if-lem (Leads h.lanes) _ _ _ stay (answer_missing-Leads h path _))

  pub serve_lib_requests-Leads :
      (w : World V) (paths : List String) (h : Host V)
      → Leads h.lanes (serve_lib_requests w h paths)
  unfolding serve_lib_requests
  serve_lib_requests-Leads w [] h = stay
  serve_lib_requests-Leads w (path ∷ paths) h =
      Steps-trans (serve_file-Leads w h path _ refl)
        (serve_lib_requests-Leads w paths (serve_library w h path))

  lanes-prime_one :
      (w : World V) (h : Host V) (uuid : String) → LeadsTo h.lanes (prime_one w h uuid)
  unfolding prime_one
  lanes-prime_one w h uuid = if-lem (LeadsTo h.lanes) _ _ _ stay (
      option-lem (LeadsTo h.lanes) (Dict.get h.uuid_to_db uuid) _ _ stay (λ ref.
        if-lem (LeadsTo h.lanes) _ _ _ stay (
          serialized-lem (LeadsTo h.lanes) (w.serialize ref) _ _ _ stay stay
            (λ bytes snapshot. stay))))

  prime_hashes-Leads :
      (w : World V) (n : ℕ) (queue : List String) (h : Host V)
      → Leads h.lanes (prime_hashes w n queue h)
  unfolding prime_hashes
  prime_hashes-Leads w zero queue h = stay
  prime_hashes-Leads w (suc n) [] h = stay
  prime_hashes-Leads w (suc n) (uuid ∷ queue) h =
      let s = lanes-prime_one w h uuid in
      if-lem (Leads h.lanes) (prime_one w h uuid).1 _ _
        (Steps-trans s (prime_hashes-Leads w n queue _))
        (Steps-trans s (prime_hashes-Leads w (suc n) queue _))

  send_tombstones-Leads :
      (uuids : List String) (h : Host V) → Leads h.lanes (send_tombstones h uuids)
  unfolding send_tombstones
  send_tombstones-Leads [] h = stay
  send_tombstones-Leads (uuid ∷ uuids) h =
      Steps-trans (send_tombstone-Leads h uuid)
        (send_tombstones-Leads uuids (send_tombstone h uuid).0)

  pub send_delta-Leads :
      (w : World V) (h : Host V) (plan : DeltaPlan) → Leads h.lanes (send_delta w h plan)
  unfolding send_delta
  send_delta-Leads w h plan = send_tombstones-Leads plan.tombs h

  lanes-mark_all : (now : ℕ) (us : List Update) (h : Host V) → Leads h.lanes (mark_updates now h us)
  unfolding mark_updates mark_update know
  lanes-mark_all now [] h = stay
  lanes-mark_all now (u ∷ us) h =
      Steps-trans (if-lem (Leads h.lanes) _ _ _ stay stay)
        (lanes-mark_all now us (mark_update now h u))

  pub on_depsgraph-Leads :
      (now : ℕ) (h : Host V) (us : List Update) → Leads h.lanes (on_depsgraph now h us)
  unfolding on_depsgraph
  on_depsgraph-Leads now h us =
      if-lem (Leads h.lanes) h.drop_next_batch _ _ stay
        (if-lem (Leads h.lanes) h.suppress_marks _ _ stay (lanes-mark_all now us h))

  lanes-sample_one : (now : ℕ) (s : Sample) (h : Host V) → Leads h.lanes (sample_one now h s)
  unfolding sample_one touch_ready
  lanes-sample_one now s h =
      option-lem (Leads h.lanes) (Dict.get h.vis_state s.uuid) _ _
        (if-lem (Leads h.lanes) s.is_mesh _ _ stay stay)
        (λ old. if-lem (Leads h.lanes) (old == s.vector) _ _ stay stay)

  lanes-sweep_visibility :
      (now : ℕ) (ss : List Sample) (h : Host V) → Leads h.lanes (sweep_visibility now h ss)
  unfolding sweep_visibility
  lanes-sweep_visibility now [] h = stay
  lanes-sweep_visibility now (s ∷ ss) h =
      Steps-trans (lanes-sample_one now s h) (lanes-sweep_visibility now ss _)

  lanes-adopt_all :
      (now : ℕ) (found : List (String × ℕ)) (h : Host V) → Leads h.lanes (adopt_all now h found)
  unfolding adopt_all know
  lanes-adopt_all now [] h = stay
  lanes-adopt_all now ((uuid, ref) ∷ found) h = lanes-adopt_all now found _

  lanes-bury_all : (uuids : List String) (h : Host V) → Leads h.lanes (bury_all h uuids)
  unfolding bury_all
  lanes-bury_all [] h = stay
  lanes-bury_all (uuid ∷ uuids) h = lanes-bury_all uuids _

  sweep-Leads : (w : World V) (now : ℕ) (h : Host V) → Leads h.lanes (sweep w now h)
  unfolding sweep sweep_deletions
  sweep-Leads w now h =
      let seen = sweep_visibility now h w.sampled in
      let adopted = adopt_all now seen w.resurrected in
      if-lem (Leads h.lanes) _ _ _
        (Steps-trans
          (Steps-trans (lanes-sweep_visibility now w.sampled h) (
            Steps-trans (lanes-adopt_all now w.resurrected seen) (
              lanes-bury_all (select (λ uuid. not (w.is_live uuid)) (keys adopted.uuid_to_db))
                adopted)))
          (sweep_libraries-Leads w (sweep_deletions w now h)))
        stay

  auto_boot-Leads : (w : World V) (now : ℕ) (h : Host V) → LeadsTo h.lanes (auto_boot w now h)
  unfolding auto_boot
  auto_boot-Leads w now h =
      let P : Host V × Bool → Type ℓ = λ r. Steps h.lanes r.0.lanes in
      if-lem P (not (is_past h.auto_boot_at now)) _ _ stay (
        if-lem P (ltb now (h.boot_queued_at + auto_boot_covered_s)) _ _ stay
          (if-lem P (long_ago h.last_auto_boot now) _ _ (send_bootstrap-Leads w now _) stay))

module _ {ℓ} {V : Type ℓ} ⦃e : Eq V⦄ where
  lanes-manifest : (w : World V) (h : Host V) → Leads h.lanes (send_manifest_batch w h)
  unfolding send_manifest_batch
  lanes-manifest w h = request-lem (Leads h.lanes) w.request_lane _ _ _ stay stay stay

  pub lanes-initial_scan :
      (w : World V) (found : List (String × ℕ)) (h : Host V)
      → Leads h.lanes (initial_scan w h found)
  unfolding initial_scan scan_one know
  lanes-initial_scan w [] h = stay
  lanes-initial_scan w ((uuid, ref) ∷ found) h =
      Steps-trans
        (if-lem (Leads h.lanes) _ _ _ stay
          (option-lem (Leads h.lanes) (w.snapshot ref) _ _ stay (λ s. stay)))
        (lanes-initial_scan w found (scan_one w h uuid ref))

  pub reset_for_new_file-Leads :
      (w : World V) (now : ℕ) (h : Host V) → Leads h.lanes (reset_for_new_file w now h)
  unfolding reset_for_new_file
  reset_for_new_file-Leads w now h =
      Steps-trans (lanes-initial_scan w w.scanned _) (send_bootstrap-Leads w now _)

  end_delta-Leads : (h : Host V) → Leads h.lanes (end_delta h)
  unfolding end_delta
  end_delta-Leads h = if-lem (Leads h.lanes) h.delta_end_pending _ _ (cold_end-Steps h.lanes) stay

  send_t1_full-Leads :
      (w : World V) (now : ℕ) (h : Host V) (uuid : String)
      → LeadsTo h.lanes (send_t1_full w now h uuid)
  unfolding send_t1_full
  send_t1_full-Leads w now h uuid =
      let P : Host V × Bool → Type ℓ = λ r. Steps h.lanes r.0.lanes in
      let gone = send_tombstone-Leads h uuid in
      option-lem P (Dict.get h.uuid_to_db uuid) _ _ gone (λ ref.
        if-lem P (not (w.alive ref)) _ _ gone (
          option-lem P (Shadow.get h.shadow uuid) _ _
            (option-lem P (w.snapshot ref) _ _ gone
              (λ shadow. send_t1-Leads w now _ uuid ref (select plain_entry shadow) none true))
            (λ shadow. send_t1-Leads w now h uuid ref (select plain_entry shadow) none true)))

  resend_entry-Leads :
      (w : World V) (now : ℕ) (h : Host V) (uuid kind : String)
      → LeadsTo h.lanes (resend_entry w now h uuid kind)
  unfolding resend_entry
  resend_entry-Leads w now h uuid kind =
      let P : Host V × Bool → Type ℓ = λ r. Steps h.lanes r.0.lanes in
      if-lem P (kind == "tomb") _ _ (send_tombstone-Leads h uuid) (send_t1_full-Leads w now h uuid)

  resend_loop-Leads :
      (w : World V) (now n : ℕ) (queue : List (String × String)) (h : Host V)
      → Leads h.lanes (resend_loop w now n queue h)
  unfolding resend_loop
  resend_loop-Leads w now zero queue h = stay
  resend_loop-Leads w now (suc n) [] h = stay
  resend_loop-Leads w now (suc n) ((uuid, kind) ∷ queue) h =
      let s = resend_entry-Leads w now h uuid kind in
      if-lem (Leads h.lanes) (resend_entry w now h uuid kind).1 _ _
        (Steps-trans s (resend_loop-Leads w now n queue _)) s

  drain_fast_resend-Leads :
      (w : World V) (now : ℕ) (h : Host V) → Leads h.lanes (drain_fast_resend w now h)
  unfolding drain_fast_resend
  drain_fast_resend-Leads w now h =
      let s = resend_loop-Leads w now fast_resend_per_tick h.fast_resend_queue h in
      if-lem (Leads h.lanes) _ _ _ (Steps-trans s (fast_end-Steps _)) s

  resend_t2-Leads :
      (w : World V) (h : Host V) (uuid : String) (expect : Option String)
      → LeadsTo h.lanes (resend_t2 w h uuid expect)
  unfolding resend_t2
  resend_t2-Leads w h uuid expect =
      let P : Host V × Bool → Type ℓ = λ r. Steps h.lanes r.0.lanes in
      let gone = send_tombstone-Leads h uuid in
      option-lem P (Dict.get h.uuid_to_db uuid) _ _ gone (λ ref.
        if-lem P (not (w.alive ref)) _ _ gone (
          serialized-lem P (w.serialize ref) _ _ _ gone stay (λ bytes snapshot.
            if-lem P _ _ _ stay (blob_queued-Steps w h.lanes uuid ref bytes _ false))))

  delta_loop-Leads :
      (w : World V) (n : ℕ) (queue : List (String × Option String)) (h : Host V)
      → LeadsTo h.lanes (delta_loop w n queue h)
  unfolding delta_loop
  delta_loop-Leads w zero queue h = stay
  delta_loop-Leads w (suc n) [] h = stay
  delta_loop-Leads w (suc n) ((uuid, expect) ∷ queue) h =
      let P : Host V × ℕ → Type ℓ = λ r. Steps h.lanes r.0.lanes in
      let s = resend_t2-Leads w h uuid expect in
      if-lem P (resend_t2 w h uuid expect).1 _ _ (Steps-trans s (delta_loop-Leads w n queue _)) s

  tail_loop-Leads :
      (w : World V) (now n : ℕ) (tail : List String) (h : Host V)
      → Leads h.lanes (tail_loop w now n tail h)
  unfolding tail_loop
  tail_loop-Leads w now zero tail h = stay
  tail_loop-Leads w now (suc n) [] h = stay
  tail_loop-Leads w now (suc n) (uuid ∷ tail) h =
      let s = send_t1_full-Leads w now h uuid in
      if-lem (Leads h.lanes) (send_t1_full w now h uuid).1 _ _
        (Steps-trans s (tail_loop-Leads w now n tail _)) s

  drain_delta-Leads : (w : World V) (now : ℕ) (h : Host V) → Leads h.lanes (drain_delta w now h)
  unfolding drain_delta
  drain_delta-Leads w now h =
      let started = record h { lanes = (drain_t2_outbox h.lanes).0 } in
      let s0 = drain_t2_outbox-Steps h.lanes in
      let r = delta_loop w delta_per_tick started.delta_queue started in
      let s1 = Steps-trans s0 (delta_loop-Leads w delta_per_tick started.delta_queue started) in
      let s2 = Steps-trans s1 (tail_loop-Leads w now r.1 r.0.delta_tail r.0) in
      if-lem (Leads h.lanes) (not (drain_t2_outbox h.lanes).1) _ _ s0 (
        if-lem (Leads h.lanes) (nonempty r.0.delta_queue) _ _ s1
          (if-lem (Leads h.lanes) _ _ _ s2 (Steps-trans s2 (end_delta-Leads _))))

  flush_entries-Leads :
      (w : World V) (now : ℕ) (ready : List String) (n : ℕ) (dirty : List (String × Tier))
      (h : Host V)
      → Leads h.lanes (flush_entries w now ready n dirty h)
  unfolding flush_entries touch_ready
  flush_entries-Leads w now ready n [] h = stay
  flush_entries-Leads w now ready n ((uuid, tier) ∷ dirty) h =
      if-lem (Leads h.lanes) (not (has ready uuid)) _ _ (flush_entries-Leads w now ready n dirty _)
        (if-lem (Leads h.lanes) (is_tier1 tier) _ _
          (Steps-trans (flush_t1-Leads w now h uuid) (flush_entries-Leads w now ready n dirty _))
          (if-lem (Leads h.lanes) (leb n 0) _ _ (flush_entries-Leads w now ready n dirty _) (
            if-lem (Leads h.lanes) (raises w h uuid) _ _ stay (
              Steps-trans (flush_t2-Leads w now h uuid none)
                (flush_entries-Leads w now ready (n - 1) dirty _)))))

  flush_dirty-Leads : (w : World V) (now : ℕ) (h : Host V) → Leads h.lanes (flush_dirty w now h)
  unfolding flush_dirty
  flush_dirty-Leads w now h =
      Steps-trans (send_tombstones-Leads (DirtySet.drain h.dirty).1 _)
        (flush_entries-Leads w now _ t2_per_tick (DirtySet.drain h.dirty).2 _)

  flush_idle-Leads :
      (w : World V) (now : ℕ) (paused : Bool) (h : Host V)
      → Leads h.lanes (flush_idle w now paused h)
  unfolding flush_idle
  flush_idle-Leads w now paused h =
      let r = auto_boot w now (send_manifest_batch w h) in
      let s1 = Steps-trans (lanes-manifest w h) (auto_boot-Leads w now (send_manifest_batch w h)) in
      let s2 = Steps-trans s1 (sweep-Leads w now r.0) in
      let h2 = sweep w now r.0 in
      if-lem (Leads h.lanes) r.1 _ _ s1 (
        if-lem (Leads h.lanes) (paused || not (nonempty h2.dirty.entries)) _ _
          (Steps-trans s2 (prime_hashes-Leads w t2_per_tick h2.prime_queue h2))
          (Steps-trans s2 (flush_dirty-Leads w now h2)))

  flush_repairs-Leads :
      (w : World V) (now : ℕ) (paused : Bool) (h : Host V)
      → Leads h.lanes (flush_repairs w now paused h)
  unfolding flush_repairs
  flush_repairs-Leads w now paused h =
      let h' : Host V = if owes_window h then drain_fast_resend w now h else h in
      let s = if-lem (Leads h.lanes) (owes_window h) _ _ (drain_fast_resend-Leads w now h) stay in
      if-lem (Leads h.lanes) (owes_delta h') _ _ (Steps-trans s (drain_delta-Leads w now h'))
        (Steps-trans s (flush_idle-Leads w now paused h'))

  pub flush_tick-Leads :
      (w : World V) (now : ℕ) (paused : Bool) (h : Host V)
      → Leads h.lanes (flush_tick w now paused h)
  unfolding flush_tick
  flush_tick-Leads w now paused h =
      let h1 = (flush_boot h).0 in
      let h2 = (flush_libs h1).0 in
      let h3 = record h2 { lanes = (drain_t2_outbox h2.lanes).0 } in
      let s1 = flush_boot-Leads h in
      let s2 = Steps-trans s1 (flush_libs-Leads h1) in
      let s3 = Steps-trans s2 (drain_t2_outbox-Steps h2.lanes) in
      if-lem (Leads h.lanes) (not (flush_boot h).1) _ _ s1 (
        if-lem (Leads h.lanes) h1.suppress_marks _ _ s1 (
          if-lem (Leads h.lanes) (not (flush_libs h1).1) _ _ s2 (
            if-lem (Leads h.lanes) (not (drain_t2_outbox h2.lanes).1) _ _ s3
              (Steps-trans s3 (flush_repairs-Leads w now paused h3)))))
