-- ===== src/ReplicaApply/Batches.antt =====
-- qcbridge/ring0/replica_apply.py: the loop over the inboxes, the batch of completed blobs, the
-- inventory and the start of another session.
use qcbridge.Prelude.{
  ℕ, zero, suc, ◌+◌, ◌-◌, Bool, true, false, not, ◌&&◌, ◌||◌, Option, none, some, List, [], ◌∷◌,
  ◌++◌, String, string_eq, nat_eq, ◌==◌, if◌then◌else◌, is_some, any, length, take, drop, ltb, leb,
}
use qcbridge.Dict
use qcbridge.Blob
use qcbridge.Blob.{Bytes}
use qcbridge.Merge
use qcbridge.Merge.{LaneMerger, Parked}
use qcbridge.ReplicaApply.{
  Replica, Body, BlobMeta, Scene, Batch, batch_max, manifests_ahead_max, is_boot, blob_of, file,
  refresh_gap_stats, process_message, release,
}

unfoldable pub pending_boot : Replica → Bool
pending_boot r =
    any (λ (p : Blob.Header BlobMeta × Bytes × Option ℕ). is_boot p.0.meta.kind) r.pending_blobs

-- The transport's two queues, polled at most 64 and 8 messages at a time.
pub record Arrived : Type 0 where
  pub fast_queue : List (Merge.Header × Body)
  pub cold_queue : List (Merge.Header × Body)

-- The next message of the loop of `_process_cold`, `none` for its two returns.
unfoldable pub next_message : Arrived → Replica → Arrived × Replica × Option (Merge.Header × Body)
unfolding pending_boot
next_message a r =
    let fast : List (Merge.Header × Body) = elim r.inbox_fast [
      | [] ↦ take 64 a.fast_queue
      | m ∷ ms ↦ m ∷ ms
    ] in
    let fast_left : List (Merge.Header × Body) = elim r.inbox_fast [
      | [] ↦ drop 64 a.fast_queue
      | m ∷ ms ↦ a.fast_queue
    ] in
    let cold : List (Merge.Header × Body) = elim r.inbox [
      | [] ↦ take 8 a.cold_queue
      | m ∷ ms ↦ m ∷ ms
    ] in
    let cold_left : List (Merge.Header × Body) = elim r.inbox [
      | [] ↦ drop 8 a.cold_queue
      | m ∷ ms ↦ a.cold_queue
    ] in
    elim fast [
      | m ∷ ms ↦ (record a { fast_queue = fast_left }, record r { inbox_fast = ms }, some m)
      | [] ↦
          if ltb (length r.pending_blobs) batch_max && not (pending_boot r)
          then elim cold [
            | m ∷ ms ↦ (
              record { fast_queue = fast_left; cold_queue = cold_left },
              record r { inbox_fast = []; inbox = ms },
              some m,
            )
            | [] ↦ (
              record { fast_queue = fast_left; cold_queue = cold_left },
              record r { inbox_fast = []; inbox = [] },
              none,
            )
          ]
          else (record a { fast_queue = fast_left }, record r { inbox_fast = [] }, none)
    ]

-- `_process_cold`, with as many rounds as the deadline leaves.
unfoldable pub process_cold : ℕ → Scene → Arrived → Replica → Arrived × Replica
unfolding next_message process_message
process_cold zero s a r = (a, r)
process_cold (suc rounds) s a r =
    let (a', r', message) = next_message a r in
    elim message [
      | none ↦ (a', r')
      | some (h, b) ↦ process_cold rounds s a' (process_message s r' h b)
    ]

-- The branch of `_apply_one` for a bootstrap.
unfoldable pub apply_boot : Replica → Blob.Header BlobMeta → Replica
unfolding Merge.clear_cold_gap Merge.clear_fast_gap refresh_gap_stats
apply_boot r header =
    let told = refresh_gap_stats (record r {
      bootstraps = r.bootstraps + 1;
      want_resync = false;
      unknown_gap = false;
      merger = Merge.clear_fast_gap (Merge.clear_cold_gap r.merger);
    }) in
    record told {
      held = [];
      scene_digest = header.meta.scene_digest;
      boot_gen = header.meta.gen;
      applied = file ∷ told.applied;
    }

-- `_held_set(uuid, digest)` behind `if header.get("digest")`.
unfoldable pub hold : List (String × String) → String → Option String → List (String × String)
unfolding Dict.put
hold held uuid none = held
hold held uuid (some digest) = if digest == "" then held else Dict.put held uuid digest

-- `_apply_one`, with the count of what it raises.
unfoldable pub apply_one : Scene → Replica → Blob.Header BlobMeta → Replica
unfolding apply_boot hold
apply_one s r header =
    if s.blob_raises header.meta.uuid
    then record r { apply_errors = r.apply_errors + 1 }
    else if is_boot header.meta.kind
    then apply_boot r header
    else record r {
      applied_t2 = r.applied_t2 + 1;
      held = hold r.held header.meta.uuid header.meta.digest;
      applied = blob_of header.meta.uuid ∷ r.applied;
    }

-- The loop of `_apply_pending_batch`: `budget` blobs begin within the time, `started` after the
-- first. What comes due is collected.
unfoldable pub batch_loop :
    Scene
    → ℕ
    → Bool
    → List (Blob.Header BlobMeta × Bytes × Option ℕ)
    → Replica
    → List (Parked Body)
    → Replica × List (Parked Body)
unfolding apply_one Merge.cold_done
batch_loop s budget started [] r due = (record r { pending_blobs = [] }, due)
batch_loop s budget started ((header, bytes, seq) ∷ blobs) r due =
    let tried = apply_one s r header in
    let (merger, more) = Merge.cold_done tried.merger seq in
    let r' = record tried { merger = merger; pending_blobs = blobs } in
    let later = batch_loop s (budget - 1) true blobs r' (due ++ more) in
    if started && (is_boot header.meta.kind || leb budget 0)
    then (record r { pending_blobs = (header, bytes, seq) ∷ blobs }, due)
    else if is_boot header.meta.kind
    then (r', due ++ more)
    else later

unfoldable pub apply_pending_batch : Scene → ℕ → Replica → Replica
unfolding batch_loop release
apply_pending_batch s budget r =
    let (r', due) = batch_loop s budget false r.pending_blobs r [] in release s r' due

-- `if uuid not in _held and digest`
unfoldable pub merge_held : List (String × String) → List (String × String) → List (String × String)
unfolding Dict.get Dict.put
merge_held held [] = held
merge_held held ((uuid, digest) ∷ entries) =
    merge_held
      (if not (is_some (Dict.get held uuid)) && not (digest == "")
        then Dict.put held uuid digest
        else held)
      entries

-- What `_merge_manifests` does with a batch, by the two numbers of bootstraps.
pub data Fate : Type 0 where
  waits goes enters : Fate

unfoldable pub fate_of : Option ℕ → Option ℕ → Fate
fate_of none batch = waits
fate_of (some gen) none = goes
fate_of (some gen) (some batch) =
    if ltb gen batch then waits else if batch == gen then enters else goes

-- Its loop; `keep` are the batches that wait.
unfoldable pub merge_loop :
    Option ℕ
    → List Batch
    → List (String × String)
    → List Batch
    → List (String × String) × List Batch
unfolding fate_of merge_held
merge_loop gen [] held keep = (held, keep)
merge_loop gen (m ∷ ms) held keep = elim (fate_of gen m.boot) [
  | waits ↦
      merge_loop gen ms held
        (if ltb (length keep) manifests_ahead_max then keep ++ m ∷ [] else keep)
  | goes ↦ merge_loop gen ms held keep
  | enters ↦ merge_loop gen ms (merge_held held m.held) keep
]

unfoldable pub merge_manifests : Replica → Replica
unfolding merge_loop
merge_manifests r =
    let (held, keep) = merge_loop r.boot_gen r.manifests r.held [] in
    record r { held = held; manifests = keep }

-- `_handle_new_session`; `seqs` are the lane numbers of the hello.
unfoldable pub handle_new_session : Replica → ℕ → ℕ → Replica
unfolding Merge.reset refresh_gap_stats
handle_new_session r seq_cold seq_fast =
    let merger = Merge.reset r.merger in
    refresh_gap_stats (record r {
      merger = record merger {
        cold = record merger.cold { last_seen = some seq_cold };
        fast = record merger.fast { last_seen = some seq_fast };
        cold_applied = seq_cold;
        fast_applied = seq_fast;
      };
      partial = [];
      blob_by_uuid = [];
      seq = 0;
      seq_fast = 0;
      parked = 0;
      gaps = 0;
      want_resync = false;
      unknown_gap = false;
    })
