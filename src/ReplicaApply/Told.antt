-- ===== src/ReplicaApply/Told.antt =====
-- What the pong says of holes: after every step of the apply loop it is the truth, and a hole is
-- asked about until it is closed.
use qcbridge.Prelude.{
  ℕ, ◌+◌, ◌≡◌, refl, ◌∙◌, sym, Bool, true, not, Option, none, some, List, [], ◌∷◌, string_eq,
  nat_eq, arith, leb,
}
use qcbridge.Blob
use qcbridge.Blob.{Bytes, feed}
use qcbridge.HostSync.Targets.{if-lem, list-lem}
use qcbridge.Merge
use qcbridge.Merge.{LaneMerger, Parked, GapLane, gap_lane, is_fast, after_of, observe, admit}
use qcbridge.ReplicaApply.{
  Replica, Body, Kind, BlobMeta, Scene, Report, Applied, report_of, is_hole, refresh_gap_stats,
  clear_gap, end_resync, apply_t1, apply_tombstone, apply_fast, dispatch_fast, dispatch_parked,
  release, drop_stale, queue_blob, chunk_fed, library_fed, id_of, dispatch_chunk, dispatch_library,
  dispatch_cold, dispatch, note_seq, process_message,
}
use qcbridge.ReplicaApply
use qcbridge.Seq

-- The report that the merger and the flag amount to.
abbrev pub truth : Replica → Report
truth r = report_of (gap_lane r.merger) r.unknown_gap

-- The pong's entries are the state of the lanes, and it asks while a hole is open.
pub record IsTold (r : Replica) : Type 0 where
  pub report : r.gap_report ≡ truth r
  pub gap_at : r.fast_gap_at ≡ r.merger.fast.first_missing
  pub asks : is_hole (truth r) ≡ true → r.want_resync ≡ true

pub refresh-IsTold :
    (r : Replica) → (is_hole (truth r) ≡ true → r.want_resync ≡ true) → IsTold (refresh_gap_stats r)
unfolding refresh_gap_stats
refresh-IsTold r h = record { report = refl; gap_at = refl; asks = h }

pub gap_lane-same :
    (m n : LaneMerger Body)
    → m.cold.first_missing ≡ n.cold.first_missing
    → m.fast.first_missing ≡ n.fast.first_missing
    → gap_lane m ≡ gap_lane n
unfolding gap_lane
gap_lane-same m n c f = rw (c, f) refl

-- A step that leaves the trackers and the pong's entries about them as they are.
pub record Keeps (r r' : Replica) : Type 0 where
  cold : r'.merger.cold.first_missing ≡ r.merger.cold.first_missing
  fast : r'.merger.fast.first_missing ≡ r.merger.fast.first_missing
  unknown : r'.unknown_gap ≡ r.unknown_gap
  want : r'.want_resync ≡ r.want_resync
  report : r'.gap_report ≡ r.gap_report
  gap_at : r'.fast_gap_at ≡ r.fast_gap_at

Keeps-truth : (r r' : Replica) → Keeps r r' → truth r' ≡ truth r
Keeps-truth r r' k = rw (gap_lane-same r'.merger r.merger k.cold k.fast, k.unknown) refl

pub Keeps-IsTold : (r r' : Replica) → Keeps r r' → IsTold r → IsTold r'
Keeps-IsTold r r' k t = record {
  report = k.report ∙ t.report ∙ sym (Keeps-truth r r' k);
  gap_at = k.gap_at ∙ t.gap_at ∙ sym k.fast;
  asks = λ h. k.want ∙ t.asks (rw (Keeps-truth r r' k) at h);
}

pub cold_done-trackers :
    (m : LaneMerger Body) (seq : Option ℕ)
    → ((Merge.cold_done m seq).0.cold.first_missing ≡ m.cold.first_missing)
      × ((Merge.cold_done m seq).0.fast.first_missing ≡ m.fast.first_missing)
unfolding Merge.cold_done
cold_done-trackers m seq =
    list-lem
      (λ (x : LaneMerger Body × List (Parked Body)).
        (x.0.cold.first_missing ≡ m.cold.first_missing)
        × (x.0.fast.first_missing ≡ m.fast.first_missing))
      _ _ _ (refl, refl) (λ p ps. (refl, refl))

fast_done-trackers :
    (m : LaneMerger Body) (seq : Option ℕ)
    → ((Merge.fast_done m seq).cold.first_missing ≡ m.cold.first_missing)
      × ((Merge.fast_done m seq).fast.first_missing ≡ m.fast.first_missing)
unfolding Merge.fast_done
fast_done-trackers m none = (refl, refl)
fast_done-trackers m (some seq) =
    if-lem
      (λ (x : LaneMerger Body).
        (x.cold.first_missing ≡ m.cold.first_missing)
        × (x.fast.first_missing ≡ m.fast.first_missing))
      _ _ _ (refl, refl) (refl, refl)

pub admit-trackers :
    (m : LaneMerger Body) (h : Merge.Header) (b : Body)
    → ((admit m h b).0.cold.first_missing ≡ m.cold.first_missing)
      × ((admit m h b).0.fast.first_missing ≡ m.fast.first_missing)
unfolding admit
admit-trackers m h b =
    let P : LaneMerger Body × Bool → Type 0 = λ x.
      (x.0.cold.first_missing ≡ m.cold.first_missing)
      × (x.0.fast.first_missing ≡ m.fast.first_missing) in
    if-lem P (not (is_fast h)) (m, true) _ (refl, refl)
      (if-lem P (leb (after_of h) m.cold_applied) (m, true) _ (refl, refl) (refl, refl))

end_resync-IsTold : (r : Replica) (h : Merge.Header) → IsTold (end_resync r h)
unfolding end_resync refresh_gap_stats
end_resync-IsTold r h = record { report = refl; gap_at = refl; asks = λ e. e }

apply_t1-IsTold : (s : Scene) (r : Replica) (b : Body) → IsTold r → IsTold (apply_t1 s r b)
unfolding apply_t1
apply_t1-IsTold s r b t =
    if-lem IsTold (not (s.resolves b.uuid)) _ _
      (refresh-IsTold
        (record r { unknown_uuid = r.unknown_uuid + 1; want_resync = true; unknown_gap = true })
        (λ e. refl))
      (record { report = t.report; gap_at = t.gap_at; asks = t.asks })

apply_tombstone-IsTold :
    (s : Scene) (r : Replica) (b : Body) → IsTold r → IsTold (apply_tombstone s r b)
unfolding apply_tombstone
apply_tombstone-IsTold s r b t =
    if-lem IsTold (not (s.resolves b.uuid)) _ _ t
      (record { report = t.report; gap_at = t.gap_at; asks = t.asks })

apply_fast-IsTold :
    (s : Scene) (r : Replica) (h : Merge.Header) (b : Body) (kind : Kind)
    → IsTold r
    → IsTold (apply_fast s r h b kind)
unfolding apply_fast
apply_fast-IsTold s r h b ReplicaApply.t1 t = apply_t1-IsTold s r b t
apply_fast-IsTold s r h b ReplicaApply.tomb t = apply_tombstone-IsTold s r b t
apply_fast-IsTold s r h b ReplicaApply.resync_end t = end_resync-IsTold r h
apply_fast-IsTold s r h b _ t = t

dispatch_fast-IsTold :
    (s : Scene) (r : Replica) (h : Merge.Header) (b : Body)
    → IsTold r
    → IsTold (dispatch_fast s r h b)
unfolding dispatch_fast
dispatch_fast-IsTold s r h b t =
    let r' = apply_fast s r h b b.kind in
    let t' = apply_fast-IsTold s r h b b.kind t in
    let (c, f) = fast_done-trackers r'.merger h.seq in
    refresh-IsTold (record r' { merger = Merge.fast_done r'.merger h.seq })
      (λ e. t'.asks (rw (gap_lane-same (Merge.fast_done r'.merger h.seq) r'.merger c f) at e))

dispatch_parked-IsTold :
    (s : Scene) (items : List (Parked Body)) (r : Replica)
    → IsTold r
    → IsTold (dispatch_parked s r items)
unfolding dispatch_parked
dispatch_parked-IsTold s [] r t = t
dispatch_parked-IsTold s (p ∷ items) r t =
    dispatch_parked-IsTold s items (dispatch_fast s r p.header p.payload)
      (dispatch_fast-IsTold s r p.header p.payload t)

pub release-IsTold :
    (s : Scene) (r : Replica) (items : List (Parked Body)) → IsTold r → IsTold (release s r items)
unfolding release
release-IsTold s r items t =
    let t' = dispatch_parked-IsTold s items r t in
    record { report = t'.report; gap_at = t'.gap_at; asks = t'.asks }

-- The merger replaced by one with the same holes.
pub merged-IsTold :
    (r : Replica) (m : LaneMerger Body)
    → (m.cold.first_missing ≡ r.merger.cold.first_missing)
      × (m.fast.first_missing ≡ r.merger.fast.first_missing)
    → IsTold r
    → IsTold (record r { merger = m })
merged-IsTold r m same =
    Keeps-IsTold r (record r { merger = m })
      (record {
        cold = same.0;
        fast = same.1;
        unknown = refl;
        want = refl;
        report = refl;
        gap_at = refl;
      })

cold_done-IsTold :
    (s : Scene) (r : Replica) (seq : Option ℕ) → IsTold r → IsTold (ReplicaApply.cold_done s r seq)
unfolding ReplicaApply.cold_done
cold_done-IsTold s r seq t =
    let (merger, due) = Merge.cold_done r.merger seq in
    release-IsTold s (record r { merger = merger }) due
      (merged-IsTold r merger (cold_done-trackers r.merger seq) t)

-- A message that reaches Blender and touches no hole.
noted-IsTold :
    (s : Scene) (r : Replica) (h : Merge.Header) (a : Applied)
    → IsTold r
    → IsTold (ReplicaApply.cold_done s (record r { applied = a ∷ r.applied }) h.seq)
noted-IsTold s r h a t =
    cold_done-IsTold s (record r { applied = a ∷ r.applied }) h.seq
      (record { report = t.report; gap_at = t.gap_at; asks = t.asks })

chunk_fed-IsTold :
    (s : Scene) (r : Replica) (h : Merge.Header) (b : Body)
    (done : Option (Blob.Header BlobMeta × Bytes))
    → IsTold r
    → IsTold (chunk_fed s r h b done)
unfolding chunk_fed queue_blob
chunk_fed-IsTold s r h b none t = cold_done-IsTold s r h.seq t
chunk_fed-IsTold s r h b (some whole) t = record {
  report = t.report;
  gap_at = t.gap_at;
  asks = t.asks;
}

dispatch_chunk-IsTold :
    (s : Scene) (r : Replica) (h : Merge.Header) (b : Body)
    → IsTold r
    → IsTold (dispatch_chunk s r h b)
unfolding dispatch_chunk drop_stale
dispatch_chunk-IsTold s r h b t =
    let r' = drop_stale r b.uuid (id_of b.blob) in
    let (partial, done) = feed r'.partial b.blob b.payload in
    chunk_fed-IsTold s (record r' { partial = partial }) h b done
      (record { report = t.report; gap_at = t.gap_at; asks = t.asks })

library_fed-IsTold :
    (s : Scene) (r : Replica) (h : Merge.Header) (done : Option (Blob.Header BlobMeta × Bytes))
    → IsTold r
    → IsTold (library_fed s r h done)
unfolding library_fed
library_fed-IsTold s r h none t = t
library_fed-IsTold s r h (some whole) t = noted-IsTold s r h _ t

dispatch_library-IsTold :
    (s : Scene) (r : Replica) (h : Merge.Header) (b : Body)
    → IsTold r
    → IsTold (dispatch_library s r h b)
unfolding dispatch_library
dispatch_library-IsTold s r h b t =
    let (partial, done) = feed r.partial b.blob b.payload in
    library_fed-IsTold s (record r { partial = partial }) h done
      (record { report = t.report; gap_at = t.gap_at; asks = t.asks })

dispatch_cold-IsTold :
    (s : Scene) (r : Replica) (h : Merge.Header) (b : Body) (kind : Kind)
    → IsTold r
    → IsTold (dispatch_cold s r h b kind)
unfolding dispatch_cold
dispatch_cold-IsTold s r h b ReplicaApply.resync_end t =
    cold_done-IsTold s (end_resync r h) h.seq (end_resync-IsTold r h)
dispatch_cold-IsTold s r h b ReplicaApply.t1 t =
    cold_done-IsTold s (apply_t1 s r b) h.seq (apply_t1-IsTold s r b t)
dispatch_cold-IsTold s r h b ReplicaApply.tomb t =
    cold_done-IsTold s (apply_tombstone s r b) h.seq (apply_tombstone-IsTold s r b t)
dispatch_cold-IsTold s r h b ReplicaApply.libfile t = dispatch_library-IsTold s r h b t
dispatch_cold-IsTold s r h b ReplicaApply.t2 t = dispatch_chunk-IsTold s r h b t
dispatch_cold-IsTold s r h b ReplicaApply.boot t = dispatch_chunk-IsTold s r h b t
dispatch_cold-IsTold s r h b ReplicaApply.other t = t
dispatch_cold-IsTold s r h b ReplicaApply.link t = noted-IsTold s r h _ t
dispatch_cold-IsTold s r h b ReplicaApply.unlink t = noted-IsTold s r h _ t
dispatch_cold-IsTold s r h b ReplicaApply.lib_missing t = noted-IsTold s r h _ t

pub dispatch-IsTold :
    (s : Scene) (r : Replica) (h : Merge.Header) (b : Body) → IsTold r → IsTold (dispatch s r h b)
unfolding dispatch
dispatch-IsTold s r h b t =
    if-lem IsTold (is_fast h) _ _ (dispatch_fast-IsTold s r h b t)
      (dispatch_cold-IsTold s r h b b.kind t)

-- A number that is contiguous opens no hole.
pub observe-trackers :
    (m : LaneMerger Body) (h : Merge.Header)
    → (observe m h).1 ≡ true
    → ((observe m h).0.cold.first_missing ≡ m.cold.first_missing)
      × ((observe m h).0.fast.first_missing ≡ m.fast.first_missing)
unfolding observe Seq.observe
observe-trackers m h c = (ground arith, ground arith)
