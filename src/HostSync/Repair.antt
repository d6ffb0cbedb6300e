-- ===== src/HostSync/Repair.antt =====
-- `HostSync` of qcbridge/ring0/host_handlers.py: the re-assertion of a window of the fast lane, and
-- the repair from the replica's inventory.
use qcbridge.Prelude.{
  ℕ, zero, suc, ◌+◌, Eq, Bool, true, false, not, ◌&&◌, ◌||◌, Option, none, some, List, [], ◌∷◌,
  ◌++◌, String, string_eq, ◌==◌, if◌then◌else◌, is_some, select, ltb,
}
use qcbridge.Dict
use qcbridge.Dict.{keys}
use qcbridge.KeySet.{has}
use qcbridge.FastLog.{window_since}
use qcbridge.HostSync.{
  World, Host, gone, unsupported, written, send_tombstone, send_t1, blob_chunks,
}
use qcbridge.HostSync.Boot.{scene_digest_now}
use qcbridge.Lanes.{
  resync_end, fast_end, try_cold, try_fast, queue_blob, drain_uuid, drain_t2_outbox,
}
use qcbridge.Liveness.{DeltaState, ready, pending, mismatch}
use qcbridge.Resync.{DeltaPlan, plan_delta, nonempty}
use qcbridge.Shadow
use qcbridge.Shadow.{Snapshot, Store, diff_and_update, plain_entry}

-- `_FAST_RESEND_PER_TICK`, `_DELTA_PER_TICK`, `_MANIFEST_REQ_TIMEOUT`.
abbrev pub fast_resend_per_tick : ℕ
fast_resend_per_tick = 16

abbrev pub delta_per_tick : ℕ
delta_per_tick = 8

abbrev pub manifest_req_timeout : ℕ
manifest_req_timeout = 5000

-- The reply to a "manifest_req", if it is there.
pub data Reply : Type 0 where
  no_reply other_reply : Reply
  inventory : List (String × String) → String → Reply

-- `self._manifest.get("held_digest") == held_digest`
unfoldable pub same_digest : Option String → Option String → Bool
same_digest none none = true
same_digest (some a) (some b) = a == b
same_digest _ _ = false

abbrev pub known_hashes : List (String × String) → List (String × Option String)
known_hashes [] = []
known_hashes ((uuid, digest) ∷ hashes) = (uuid, some digest) ∷ known_hashes hashes

abbrev pub expecting : List (String × String) → List String → List (String × Option String)
expecting held [] = []
expecting held (uuid ∷ uuids) = (uuid, Dict.get held uuid) ∷ expecting held uuids

-- `if expect and digest.hex() == expect`
abbrev pub is_expected : Option String → String → Bool
is_expected none digest = false
is_expected (some expect) digest = not (expect == "") && digest == expect

module _ {ℓ} {V : Type ℓ} where
  unfoldable pub resend_fast_window : Host V → ℕ → Host V
  unfolding window_since
  resend_fast_window h gap_at = record h {
    fast_resend_queue = h.fast_resend_queue ++ window_since h.lanes.fastlog gap_at;
    fast_resend_end = true;
    fast_resyncs = h.fast_resyncs + 1;
  }

  -- `_delta_state`; where a reply is polled it is `reply`.
  unfoldable pub judge_inventory :
      World V → ℕ → Reply → Option String → Option String → Host V → Host V × DeltaState
  unfolding scene_digest_now same_digest
  judge_inventory w now reply none held_digest h = (h, mismatch)
  judge_inventory w now reply (some theirs) held_digest h =
      let (h', ours) = scene_digest_now w h in
      let in_hand : Bool = elim h'.manifest [
        | none ↦ false
        | some m ↦ same_digest m.held_digest held_digest
      ] in
      if theirs == ""
      then (h, mismatch)
      else if not (theirs == ours)
      then (h', mismatch)
      else if in_hand
      then (h', ready)
      else elim h'.manifest_req_at [
        | none ↦ (record h' { manifest_req_at = some now }, pending)
        | some asked ↦ elim reply [
          | inventory held scene ↦ (
            record h' {
              manifest_req_at = none;
              manifest =
                  some (record { held = held; scene_digest = scene; held_digest = held_digest });
            },
            (if scene == h'.scene_digest then ready else mismatch),
          )
          | other_reply ↦ (record h' { manifest_req_at = none }, mismatch)
          | no_reply ↦
              if ltb (asked + manifest_req_timeout) now
              then (record h' { manifest_req_at = none }, mismatch)
              else (h', pending)
        ]
      ]

  -- `delta_state`, whose trace takes the digest of the Scene once more.
  unfoldable pub delta_state :
      World V → ℕ → Reply → Option String → Option String → Host V → Host V × DeltaState
  unfolding judge_inventory scene_digest_now
  delta_state w now reply theirs held_digest h =
      let (h', answer) = judge_inventory w now reply theirs held_digest h in
      ((scene_digest_now w h').0, answer)

  -- A datablock that the delta is about.
  abbrev pub is_planned : World V → String × ℕ → Bool
  is_planned w (uuid, ref) =
      w.alive ref
      && w.used ref
      && not (w.is_scene ref || w.is_key ref)
      && is_some (w.collection_of ref)

  abbrev pub held_of : Host V → List (String × String)
  held_of h = elim h.manifest [ none ↦ [] | some m ↦ m.held ]

  unfoldable pub plan_from_manifest : World V → String → Host V → Option DeltaPlan
  unfolding plan_delta
  plan_from_manifest w gap_lane h =
      let planned = select (is_planned w) h.uuid_to_db in
      plan_delta (keys planned) (known_hashes h.blob_hash) (held_of h) h.scene_digest
        (elim h.manifest [ none ↦ "" | some m ↦ m.scene_digest ]) gap_lane
        (keys (select (λ e. w.keeps_state e.1) planned))

  unfoldable pub send_tombstones : Host V → List String → Host V
  unfolding send_tombstone
  send_tombstones h [] = h
  send_tombstones h (uuid ∷ uuids) = send_tombstones (send_tombstone h uuid).0 uuids

  abbrev pub living_scenes : World V → Host V → List String
  living_scenes w h = keys (select (λ e. w.is_scene e.1 && w.alive e.1) h.uuid_to_db)

  unfoldable pub send_delta : World V → Host V → DeltaPlan → Host V
  unfolding send_tombstones Dict.get has
  send_delta w h plan =
      let held = held_of h in
      let h' = send_tombstones h plan.tombs in
      let scenes = living_scenes w h' in
      record h' {
        delta_queue = expecting held plan.resend ++ expecting held plan.verify;
        delta_tail =
            (if plan.scene_t1 then scenes else [])
            ++ select (λ uuid. not (has scenes uuid)) plan.at_state;
        delta_end_pending = true;
        manifest = none;
        delta_resyncs = h'.delta_resyncs + 1;
      }

module _ {ℓ} {V : Type ℓ} ⦃e : Eq V⦄ where
  unfoldable pub send_t1_full : World V → ℕ → Host V → String → Host V × Bool
  unfolding send_tombstone send_t1 diff_and_update plain_entry Shadow.get Dict.get
  send_t1_full w now h uuid = elim (Dict.get h.uuid_to_db uuid) [
    | none ↦ send_tombstone h uuid
    | some ref ↦
        if not (w.alive ref) then send_tombstone h uuid else elim (Shadow.get h.shadow uuid) [
          | some shadow ↦ send_t1 w now h uuid ref (select plain_entry shadow) none true
          | none ↦ elim (w.snapshot ref) [
            | none ↦ send_tombstone h uuid
            | some shadow ↦
                send_t1 w now (record h { shadow = (diff_and_update h.shadow uuid shadow).0 }) uuid
                  ref (select plain_entry shadow) none true
          ]
        ]
  ]

  -- One entry of `_drain_fast_resend`.
  unfoldable pub resend_entry : World V → ℕ → Host V → String → String → Host V × Bool
  unfolding send_tombstone send_t1_full
  resend_entry w now h uuid kind =
      if kind == "tomb" then send_tombstone h uuid else send_t1_full w now h uuid

  -- Its loop, with `n` entries left to this tick.
  unfoldable pub resend_loop : World V → ℕ → ℕ → List (String × String) → Host V → Host V
  unfolding resend_entry
  resend_loop w now zero queue h = h
  resend_loop w now (suc n) [] h = h
  resend_loop w now (suc n) ((uuid, kind) ∷ queue) h =
      let (h', sent) = resend_entry w now h uuid kind in
      let later = resend_loop w now n queue (record h' { fast_resend_queue = queue }) in
      if sent then later else h'

  unfoldable pub drain_fast_resend : World V → ℕ → Host V → Host V
  unfolding resend_loop try_fast
  drain_fast_resend w now h =
      let h' = resend_loop w now fast_resend_per_tick h.fast_resend_queue h in
      let (lanes, sent) = try_fast h'.lanes fast_end in
      if not (nonempty h'.fast_resend_queue) && h'.fast_resend_end
      then record h' { lanes = lanes; fast_resend_end = not sent }
      else h'

  unfoldable pub resend_t2 : World V → Host V → String → Option String → Host V × Bool
  unfolding send_tombstone blob_chunks queue_blob drain_uuid Dict.get Dict.put
  resend_t2 w h uuid expect = elim (Dict.get h.uuid_to_db uuid) [
    | none ↦ send_tombstone h uuid
    | some ref ↦ if not (w.alive ref) then send_tombstone h uuid else elim (w.serialize ref) [
      | gone ↦ send_tombstone h uuid
      | unsupported ↦ (h, true)
      | written bytes snapshot ↦
          let digest = w.digest ref bytes none in
          let h' = record h { blob_hash = Dict.put h.blob_hash uuid digest } in
          let chunks = blob_chunks w h'.lanes uuid ref bytes digest false in
          if is_expected expect digest then (h', true) else (
            record h' {
              lanes = (drain_uuid (queue_blob h'.lanes uuid chunks) uuid).0;
              sent_t2 = h'.sent_t2 + 1;
              delta_t2 = h'.delta_t2 + 1;
            },
            true,
          )
    ]
  ]

  -- The first loop of `_drain_delta`, with the number of entries left to this tick.
  unfoldable pub delta_loop : World V → ℕ → List (String × Option String) → Host V → Host V × ℕ
  unfolding resend_t2
  delta_loop w zero queue h = (h, zero)
  delta_loop w (suc n) [] h = (h, suc n)
  delta_loop w (suc n) ((uuid, expect) ∷ queue) h =
      let (h', sent) = resend_t2 w h uuid expect in
      let later = delta_loop w n queue (record h' { delta_queue = queue }) in
      if sent then later else (h', suc n)

  -- The second loop.
  unfoldable pub tail_loop : World V → ℕ → ℕ → List String → Host V → Host V
  unfolding send_t1_full
  tail_loop w now zero tail h = h
  tail_loop w now (suc n) [] h = h
  tail_loop w now (suc n) (uuid ∷ tail) h =
      let (h', sent) = send_t1_full w now h uuid in
      let later = tail_loop w now n tail (record h' { delta_tail = tail }) in
      if sent then later else h'

  -- The last part of `_drain_delta`.
  unfoldable pub end_delta : Host V → Host V
  unfolding try_cold
  end_delta h =
      let (lanes, sent) = try_cold h.lanes resync_end in
      if h.delta_end_pending then record h { lanes = lanes; delta_end_pending = not sent } else h

  unfoldable pub drain_delta : World V → ℕ → Host V → Host V
  unfolding drain_t2_outbox delta_loop tail_loop end_delta
  drain_delta w now h =
      let (lanes, through) = drain_t2_outbox h.lanes in
      let started = record h { lanes = lanes } in
      let (h1, left) = delta_loop w delta_per_tick started.delta_queue started in
      let h2 = tail_loop w now left h1.delta_tail h1 in
      if not through
      then started
      else if nonempty h1.delta_queue
      then h1
      else if nonempty h2.delta_tail
      then h2
      else end_delta h2
