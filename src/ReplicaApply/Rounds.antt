-- ===== src/ReplicaApply/Rounds.antt =====
-- The rounds of the apply loop in any order: what the pong says of holes stays the truth.
use qcbridge.Prelude.{
  ℕ, zero, suc, ◌-◌, refl, Bool, true, false, not, ◌&&◌, ◌||◌, Option, List, [], ◌∷◌, string_eq,
  leb, Bool-cases, Option-cases, take, ltb, length, inl, inr,
}
use qcbridge.Blob
use qcbridge.Blob.{Bytes}
use qcbridge.HostSync.Targets.{if-lem, list-lem}
use qcbridge.Merge
use qcbridge.Merge.{LaneMerger, Parked, gap_lane, observe, admit, no_gap}
use qcbridge.ReplicaApply.{
  Replica, Body, BlobMeta, Scene, report_of, is_hole, batch_max, init, is_boot, refresh_gap_stats,
  note_seq, process_message,
}
use qcbridge.ReplicaApply.Batches.{
  Arrived, next_message, pending_boot, process_cold, apply_boot, apply_one, batch_loop,
  apply_pending_batch, merge_manifests, handle_new_session,
}
use qcbridge.ReplicaApply.Told.{
  IsTold, refresh-IsTold, merged-IsTold, cold_done-trackers, admit-trackers, dispatch-IsTold,
  observe-trackers, release-IsTold,
}
use qcbridge.Seq

note_seq-IsTold : (r : Replica) (h : Merge.Header) → IsTold r → IsTold (note_seq r h)
unfolding note_seq
note_seq-IsTold r h t = elim (Bool-cases (observe r.merger h).1) [
  | inl on ↦
      let t' = merged-IsTold r (observe r.merger h).0 (observe-trackers r.merger h on) t in
      rw (on, note_seq) (record { report = t'.report; gap_at = t'.gap_at; asks = t'.asks })
  | inr gap ↦
      let t' =
        refresh-IsTold (record r { merger = (observe r.merger h).0; want_resync = true })
          (λ e. refl) in
      rw (gap, note_seq) (record { report = t'.report; gap_at = t'.gap_at; asks = t'.asks })
]

process_message-IsTold :
    (s : Scene) (r : Replica) (h : Merge.Header) (b : Body)
    → IsTold r
    → IsTold (process_message s r h b)
unfolding process_message
process_message-IsTold s r h b t =
    let r' = note_seq r h in
    let (merger, now) = admit r'.merger h b in
    let t' = merged-IsTold r' merger (admit-trackers r'.merger h b) (note_seq-IsTold r h t) in
    if-lem IsTold now _ _ (dispatch-IsTold s (record r' { merger = merger }) h b t')
      (record { report = t'.report; gap_at = t'.gap_at; asks = t'.asks })

apply_boot-IsTold : (r : Replica) (header : Blob.Header BlobMeta) → IsTold (apply_boot r header)
unfolding apply_boot refresh_gap_stats gap_lane report_of is_hole Merge.clear_fast_gap
    Merge.clear_cold_gap Seq.clear_gap
apply_boot-IsTold r header = record { report = refl; gap_at = refl; asks = λ e. absurd (cc e) }

apply_one-IsTold :
    (s : Scene) (r : Replica) (header : Blob.Header BlobMeta)
    → IsTold r
    → IsTold (apply_one s r header)
unfolding apply_one
apply_one-IsTold s r header t =
    if-lem IsTold (s.blob_raises header.meta.uuid) _ _
      (record { report = t.report; gap_at = t.gap_at; asks = t.asks })
      (if-lem IsTold (is_boot header.meta.kind) _ _ (apply_boot-IsTold r header)
        (record { report = t.report; gap_at = t.gap_at; asks = t.asks }))

batch_loop-IsTold :
    (s : Scene) (blobs : List (Blob.Header BlobMeta × Bytes × Option ℕ)) (budget : ℕ)
    (started : Bool) (r : Replica) (due : List (Parked Body))
    → IsTold r
    → IsTold (batch_loop s budget started blobs r due).0
unfolding batch_loop
batch_loop-IsTold s [] budget started r due t = record {
  report = t.report;
  gap_at = t.gap_at;
  asks = t.asks;
}
batch_loop-IsTold s ((header, bytes, seq) ∷ blobs) budget started r due t =
    let P : Replica × List (Parked Body) → Type 0 = λ x. IsTold x.0 in
    let tried = apply_one s r header in
    let t1 =
      merged-IsTold tried (Merge.cold_done tried.merger seq).0 (cold_done-trackers tried.merger seq)
        (apply_one-IsTold s r header t) in
    let r' = record tried {
      merger = (Merge.cold_done tried.merger seq).0;
      pending_blobs = blobs;
    } in
    let t' : IsTold r' = record { report = t1.report; gap_at = t1.gap_at; asks = t1.asks } in
    if-lem P (started && (is_boot header.meta.kind || leb budget 0)) _ _
      (record { report = t.report; gap_at = t.gap_at; asks = t.asks })
      (if-lem P (is_boot header.meta.kind) _ _ t'
        (batch_loop-IsTold s blobs (budget - 1) true r' _ t'))

apply_pending_batch-IsTold :
    (s : Scene) (budget : ℕ) (r : Replica) → IsTold r → IsTold (apply_pending_batch s budget r)
unfolding apply_pending_batch
apply_pending_batch-IsTold s budget r t =
    let x = batch_loop s budget false r.pending_blobs r [] in
    release-IsTold s x.0 x.1 (batch_loop-IsTold s r.pending_blobs budget false r [] t)

handle_new_session-IsTold :
    (r : Replica) (seq_cold seq_fast : ℕ) → IsTold (handle_new_session r seq_cold seq_fast)
unfolding handle_new_session refresh_gap_stats gap_lane report_of is_hole Merge.reset
handle_new_session-IsTold r seq_cold seq_fast = record {
  report = refl;
  gap_at = refl;
  asks = λ e. absurd (cc e);
}

next_message-IsTold : (a : Arrived) (r : Replica) → IsTold r → IsTold (next_message a r).1
unfolding next_message
next_message-IsTold a r t =
    let P : Arrived × Replica × Option (Merge.Header × Body) → Type 0 = λ x. IsTold x.1 in
    let fast : List (Merge.Header × Body) = elim r.inbox_fast [
      | [] ↦ take 64 a.fast_queue
      | m ∷ ms ↦ m ∷ ms
    ] in
    let cold : List (Merge.Header × Body) = elim r.inbox [
      | [] ↦ take 8 a.cold_queue
      | m ∷ ms ↦ m ∷ ms
    ] in
    list-lem P fast _ _
      (if-lem P (ltb (length r.pending_blobs) batch_max && not (pending_boot r)) _ _
        (list-lem P cold _ _ (record { report = t.report; gap_at = t.gap_at; asks = t.asks })
          (λ m ms. record { report = t.report; gap_at = t.gap_at; asks = t.asks }))
        (record { report = t.report; gap_at = t.gap_at; asks = t.asks }))
      (λ m ms. record { report = t.report; gap_at = t.gap_at; asks = t.asks })

process_cold-IsTold :
    (rounds : ℕ) (s : Scene) (a : Arrived) (r : Replica)
    → IsTold r
    → IsTold (process_cold rounds s a r).1
unfolding process_cold
process_cold-IsTold zero s a r t = t
process_cold-IsTold (suc rounds) s a r t =
    let x = next_message a r in
    let t' = next_message-IsTold a r t in
    elim (Option-cases x.2) [
      | inl empty ↦ rw (empty, process_cold) t'
      | inr (m, there) ↦
          rw (there, process_cold)
            (process_cold-IsTold rounds s x.0 (process_message s x.1 m.0 m.1)
              (process_message-IsTold s x.1 m.0 m.1 t'))
    ]

merge_manifests-IsTold : (r : Replica) → IsTold r → IsTold (merge_manifests r)
unfolding merge_manifests
merge_manifests-IsTold r t = record { report = t.report; gap_at = t.gap_at; asks = t.asks }

-- What the tick does with the lanes, in the Blender of that time.
pub data Round : Type 0 where
  session_round : ℕ → ℕ → Round
  manifests_round : Round
  batch_round : Scene → ℕ → Round
  lanes_round : ℕ → Scene → Arrived → Round

unfoldable pub after : Replica → Round → Replica
after r (session_round seq_cold seq_fast) = handle_new_session r seq_cold seq_fast
after r manifests_round = merge_manifests r
after r (batch_round s budget) = apply_pending_batch s budget r
after r (lanes_round rounds s a) = (process_cold rounds s a r).1

unfoldable pub after_all : Replica → List Round → Replica
unfolding after
after_all r [] = r
after_all r (x ∷ xs) = after_all (after r x) xs

after-IsTold : (r : Replica) (x : Round) → IsTold r → IsTold (after r x)
unfolding after
after-IsTold r (session_round seq_cold seq_fast) t = handle_new_session-IsTold r seq_cold seq_fast
after-IsTold r manifests_round t = merge_manifests-IsTold r t
after-IsTold r (batch_round s budget) t = apply_pending_batch-IsTold s budget r t
after-IsTold r (lanes_round rounds s a) t = process_cold-IsTold rounds s a r t

rounds_from : (xs : List Round) (r : Replica) → IsTold r → IsTold (after_all r xs)
unfolding after_all
rounds_from [] r t = t
rounds_from (x ∷ xs) r t = rounds_from xs (after r x) (after-IsTold r x t)

init-IsTold : IsTold init
unfolding gap_lane report_of is_hole
init-IsTold = record { report = refl; gap_at = refl; asks = λ e. absurd (cc e) }

-- After any rounds of the apply loop from the start, with any messages, any batches, any failures
-- in Blender and any new sessions: the pong's lane report and fast hole are those of the two
-- lanes and of the flag for a datablock that never came, and while one of the lanes has a hole or
-- that flag is up, the pong asks for a resync.
pub rounds-IsTold : (xs : List Round) → IsTold (after_all init xs)
rounds-IsTold xs = rounds_from xs init init-IsTold
