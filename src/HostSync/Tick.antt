-- ===== src/HostSync/Tick.antt =====
-- `HostSync` of qcbridge/ring0/host_handlers.py: the flush tick with its sweeps, the depsgraph
-- handler, and the start of another file.
use qcbridge.Prelude.{
  ℕ, ◌+◌, ◌-◌, Eq, Bool, true, false, not, ◌&&◌, ◌||◌, Option, none, some, List, [], ◌∷◌, String,
  string_eq, ◌==◌, if◌then◌else◌, is_some, select, length, drop, leb, ltb,
}
use qcbridge.Dict
use qcbridge.Dict.{keys}
use qcbridge.KeySet.{has}
use qcbridge.Debouncer
use qcbridge.Debouncer.{touch, discard_uuid, classify_update}
use qcbridge.DirtySet
use qcbridge.DirtySet.{DirtySet, Tier, t1, t2, mark, mark_deleted, requeue, assume_known}
use qcbridge.HostSync.{
  World, Host, Sample, no_lane, lane_full, lane_free, know, flush_t1, flush_t2, raises, debounce_s,
}
use qcbridge.HostSync.Boot.{send_bootstrap, flush_boot, flush_libs, prime_hashes, sweep_libraries}
use qcbridge.HostSync.Repair.{send_tombstones, drain_fast_resend, drain_delta}
use qcbridge.Lanes.{drain_t2_outbox}
use qcbridge.Resync.{nonempty}
use qcbridge.Shadow.{diff_and_update, forget}

-- `_T2_PER_TICK`, `_SWEEP_INTERVAL`, `_AUTO_BOOT_COVERED_S`, `_AUTO_BOOT_MIN_INTERVAL` and
-- `_MANIFEST_BATCH`.
abbrev pub t2_per_tick : ℕ
t2_per_tick = 2

abbrev pub sweep_interval : ℕ
sweep_interval = 250

abbrev pub auto_boot_covered_s : ℕ
auto_boot_covered_s = 10000

abbrev pub auto_boot_min_interval : ℕ
auto_boot_min_interval = 5000

abbrev pub manifest_batch : ℕ
manifest_batch = 512

-- What `on_depsgraph` reads of an update.
pub record Update : Type 0 where
  pub uuid : String
  pub ref : ℕ
  pub is_stampable : Bool
  pub is_syncable : Bool
  pub type_key : Option String
  pub is_shading_pinged : Bool
  pub is_updated_shading : Bool
  pub is_updated_geometry : Bool
  pub is_updated_transform : Bool
  pub is_object : Bool
  pub has_bake_nodes : Bool

-- The three tests behind which an update counts.
unfoldable pub counts_update : Update → Bool
counts_update u =
    u.is_stampable
    && (is_some u.type_key || u.is_syncable)
    && not (
        u.is_shading_pinged
        && u.is_updated_shading
        && not u.is_updated_geometry
        && not u.is_updated_transform)

abbrev pub is_tier1 : Tier → Bool
is_tier1 t1 = true
is_tier1 t2 = false

-- The tier of an update, a bake raised to the second.
unfoldable pub update_tier : Update → Tier
unfolding classify_update
update_tier u =
    let tier = classify_update u.type_key u.is_updated_geometry in
    if is_tier1 tier
      && u.is_updated_geometry
      && not u.is_updated_transform
      && u.is_object
      && u.has_bake_nodes
    then t2
    else tier

-- `_auto_boot_at and now >= _auto_boot_at`
abbrev pub is_past : Option ℕ → ℕ → Bool
is_past none now = false
is_past (some t) now = leb t now

-- `now - self._last_auto_boot >= _AUTO_BOOT_MIN_INTERVAL`
abbrev pub long_ago : Option ℕ → ℕ → Bool
long_ago none now = true
long_ago (some last) now = leb (last + auto_boot_min_interval) now

-- `sum(1 for u, t in dirty if t == Tier.T2 and u in ready_set)`
abbrev pub ready_blobs : List String → List (String × Tier) → ℕ
ready_blobs ready dirty =
    length (select (λ (e : String × Tier). not (is_tier1 e.1) && has ready e.0) dirty)

module _ {ℓ} {V : Type ℓ} where
  -- The clock is past `DEBOUNCE_S`.
  unfoldable pub touch_ready : Host V → String → ℕ → Host V
  unfolding touch
  touch_ready h uuid now = record h { debounce = touch h.debounce uuid (now - debounce_s) }

  -- The vector of a datablock sampled by `_sweep_visibility`; the first of a mesh only primes.
  unfoldable pub sample_one : ℕ → Host V → Sample → Host V
  unfolding mark touch_ready Dict.get Dict.put
  sample_one now h s =
      let seen = record h { vis_state = Dict.put h.vis_state s.uuid s.vector } in
      let marked : Tier → Host V =
        λ tier. touch_ready (record seen { dirty = mark h.dirty s.uuid tier }) s.uuid now in
      elim (Dict.get h.vis_state s.uuid) [
        | none ↦ if s.is_mesh then seen else marked t1
        | some old ↦ if old == s.vector then h else marked (if s.is_mesh then t2 else t1)
      ]

  unfoldable pub sweep_visibility : ℕ → Host V → List Sample → Host V
  unfolding sample_one
  sweep_visibility now h [] = h
  sweep_visibility now h (s ∷ samples) = sweep_visibility now (sample_one now h s) samples

  -- The first loop of `_sweep_deletions`.
  unfoldable pub adopt_all : ℕ → Host V → List (String × ℕ) → Host V
  unfolding know mark touch
  adopt_all now h [] = h
  adopt_all now h ((uuid, ref) ∷ found) =
      let h' = know h uuid ref in
      adopt_all now
        (record h' { dirty = mark h'.dirty uuid t2; debounce = touch h'.debounce uuid now }) found

  -- Its last loop.
  unfoldable pub bury_all : Host V → List String → Host V
  unfolding mark_deleted discard_uuid forget Dict.remove
  bury_all h [] = h
  bury_all h (uuid ∷ uuids) =
      bury_all
        (record h {
          dirty = mark_deleted h.dirty uuid;
          debounce = discard_uuid h.debounce uuid;
          shadow = forget h.shadow uuid;
          uuid_to_db = Dict.remove h.uuid_to_db uuid;
        })
        uuids

  unfoldable pub sweep_deletions : World V → ℕ → Host V → Host V
  unfolding sweep_visibility adopt_all bury_all
  sweep_deletions w now h =
      let h' = adopt_all now (sweep_visibility now h w.sampled) w.resurrected in
      bury_all h' (select (λ uuid. not (w.is_live uuid)) (keys h'.uuid_to_db))

  -- The batch of digests that leaves on the control lane.
  unfoldable pub send_manifest_batch : World V → Host V → Host V
  send_manifest_batch w h = elim w.request_lane [
    | no_lane ↦ record h { manifest_pending = [] }
    | lane_full ↦ h
    | lane_free ↦ record h { manifest_pending = drop manifest_batch h.manifest_pending }
  ]

  -- The part of the tick about an automatic bootstrap; `true` is its return.
  unfoldable pub auto_boot : World V → ℕ → Host V → Host V × Bool
  unfolding send_bootstrap
  auto_boot w now h =
      if not (is_past h.auto_boot_at now)
      then (h, false)
      else if ltb now (h.boot_queued_at + auto_boot_covered_s)
      then (record h { auto_boot_at = none }, false)
      else if long_ago h.last_auto_boot now
      then (
        send_bootstrap w now (record h {
          auto_boot_at = none;
          last_auto_boot = some now;
          auto_boots = h.auto_boots + 1;
        }),
        true,
      )
      else (h, false)

  unfoldable pub sweep : World V → ℕ → Host V → Host V
  unfolding sweep_deletions sweep_libraries
  sweep w now h =
      if leb (h.last_sweep + sweep_interval) now
      then record (sweep_libraries w (sweep_deletions w now h)) { last_sweep = now }
      else h

  -- One update of `on_depsgraph`.
  unfoldable pub mark_update : ℕ → Host V → Update → Host V
  unfolding counts_update update_tier know mark touch
  mark_update now h u =
      if not (counts_update u)
      then h
      else (let h' = know h u.uuid u.ref in
          record h' {
            dirty = mark h'.dirty u.uuid (update_tier u);
            debounce = touch h'.debounce u.uuid now;
          })

  unfoldable pub mark_updates : ℕ → Host V → List Update → Host V
  unfolding mark_update
  mark_updates now h [] = h
  mark_updates now h (u ∷ us) = mark_updates now (mark_update now h u) us

  unfoldable pub on_depsgraph : ℕ → Host V → List Update → Host V
  unfolding mark_updates
  on_depsgraph now h updates =
      if h.drop_next_batch
      then record h { drop_next_batch = false }
      else if h.suppress_marks
      then h
      else mark_updates now h updates

module _ {ℓ} {V : Type ℓ} ⦃e : Eq V⦄ where
  -- The loop over the drained entries, with `n` blobs left to this tick. Where `_flush_t2` raises,
  -- `flush_tick` counts it, and the entries that were to follow are lost.
  unfoldable pub flush_entries :
      World V → ℕ → List String → ℕ → List (String × Tier) → Host V → Host V
  unfolding requeue touch_ready flush_t2 flush_t1 raises has
  flush_entries w now ready n [] h = h
  flush_entries w now ready n ((uuid, tier) ∷ dirty) h =
      let waiting = record h { dirty = requeue h.dirty uuid tier } in
      let over = touch_ready waiting uuid now in
      let edited = flush_entries w now ready n dirty waiting in
      let delta = flush_entries w now ready n dirty (flush_t1 w now h uuid) in
      let later = flush_entries w now ready n dirty over in
      let blob = flush_entries w now ready (n - 1) dirty (flush_t2 w now h uuid none) in
      if not (has ready uuid)
      then edited
      else if is_tier1 tier
      then delta
      else if leb n 0
      then later
      else if raises w h uuid
      then record h { sync_errors = h.sync_errors + 1 }
      else blob

  -- The tick from the drain on.
  unfoldable pub flush_dirty : World V → ℕ → Host V → Host V
  unfolding Debouncer.ready DirtySet.drain send_tombstones flush_entries
  flush_dirty w now h =
      let (debounce, ready) = Debouncer.ready h.debounce now in
      let (left, tombstones, dirty) = DirtySet.drain h.dirty in
      let h' = record h {
        debounce = debounce;
        dirty = left;
        burst = ltb t2_per_tick (ready_blobs ready dirty);
      } in
      flush_entries w now ready t2_per_tick dirty (send_tombstones h' tombstones)

  -- The tick from the automatic bootstrap on; `paused` is `self.paused_fn()`.
  unfoldable pub flush_idle : World V → ℕ → Bool → Host V → Host V
  unfolding send_manifest_batch auto_boot sweep prime_hashes flush_dirty
  flush_idle w now paused h =
      let (h1, booted) = auto_boot w now (send_manifest_batch w h) in
      let h2 = sweep w now h1 in
      if booted
      then h1
      else if paused || not (nonempty h2.dirty.entries)
      then prime_hashes w t2_per_tick h2.prime_queue h2
      else flush_dirty w now h2

  abbrev pub owes_delta : Host V → Bool
  owes_delta h = nonempty h.delta_queue || nonempty h.delta_tail || h.delta_end_pending

  abbrev pub owes_window : Host V → Bool
  owes_window h = nonempty h.fast_resend_queue || h.fast_resend_end

  -- The tick behind the outboxes.
  unfoldable pub flush_repairs : World V → ℕ → Bool → Host V → Host V
  unfolding drain_fast_resend drain_delta flush_idle
  flush_repairs w now paused h =
      let h' = if owes_window h then drain_fast_resend w now h else h in
      if owes_delta h' then drain_delta w now h' else flush_idle w now paused h'

  -- `_flush_tick_inner`
  unfoldable pub flush_tick : World V → ℕ → Bool → Host V → Host V
  unfolding flush_boot flush_libs drain_t2_outbox flush_repairs
  flush_tick w now paused h =
      let (h1, booted) = flush_boot h in
      let (h2, served) = flush_libs h1 in
      let (lanes, through) = drain_t2_outbox h2.lanes in
      let h3 = record h2 { lanes = lanes } in
      if not booted
      then h1
      else if h1.suppress_marks
      then h1
      else if not served
      then h2
      else if not through
      then h3
      else flush_repairs w now paused h3

  -- One datablock of `_initial_scan`.
  unfoldable pub scan_one : World V → Host V → String → ℕ → Host V
  unfolding know assume_known diff_and_update Dict.put
  scan_one w h uuid ref =
      let known = know h uuid ref in
      let h' = record known { dirty = assume_known known.dirty uuid } in
      if not (w.used ref) || not (w.is_typed ref) then h' else elim (w.snapshot ref) [
        | none ↦ h'
        | some snapshot ↦ record h' {
          shadow = (diff_and_update h'.shadow uuid snapshot).0;
          vis_state = elim (w.object_vector ref) [
            | none ↦ h'.vis_state
            | some vector ↦ Dict.put h'.vis_state uuid vector
          ];
        }
      ]

  unfoldable pub initial_scan : World V → Host V → List (String × ℕ) → Host V
  unfolding scan_one
  initial_scan w h [] = h
  initial_scan w h ((uuid, ref) ∷ found) = initial_scan w (scan_one w h uuid ref) found

  unfoldable pub reset_for_new_file : World V → ℕ → Host V → Host V
  unfolding initial_scan send_bootstrap
  reset_for_new_file w now h =
      let blank = record h {
        shadow = [];
        debounce = Debouncer.init debounce_s;
        dirty = DirtySet.init;
        uuid_to_db = [];
      } in
      record (send_bootstrap w now (initial_scan w blank w.scanned)) { drop_next_batch = true }
