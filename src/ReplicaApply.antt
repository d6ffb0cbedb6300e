-- ===== src/ReplicaApply.antt =====
-- qcbridge/ring0/replica_apply.py: the replica's apply loop over the merger of Merge.antt and the
-- reassembler of Blob.antt. What Blender does with a message is a `Scene` that the call is given;
-- the order in which messages reach Blender is kept in `applied`, newest first.
pub mod Batches
pub mod Told
pub mod Rounds
pub mod Inventory
use qcbridge.Prelude.{
  ℕ, zero, suc, ◌+◌, Bool, true, false, not, ◌&&◌, ◌||◌, Option, none, some, List, [], ◌∷◌, ◌++◌,
  String, string_eq, nat_eq, ◌==◌, if◌then◌else◌, is_some, any, length, take, drop, ltb, leb,
}
use qcbridge.Dict
use qcbridge.Blob
use qcbridge.Blob.{Bytes, PartialBlob, feed, discard_blob}
use qcbridge.Merge
use qcbridge.Merge.{LaneMerger, Parked, GapLane, no_gap, is_fast, gap_lane, observe, admit}
use qcbridge.Seq.{SeqTracker}

-- `header.get("kind")`
pub data Kind : Type 0 where
  t1 tomb resync_end link unlink lib_missing libfile t2 boot other : Kind

-- What a blob's header has beside its chunk; `gen` is the second part of the id of a bootstrap.
pub record BlobMeta : Type 0 where
  pub kind : Kind
  pub uuid : String
  pub digest : Option String
  pub more : Bool
  pub scene_digest : String
  pub gen : Option ℕ

-- A message less the entries that the merger reads; `sd` is of a Scene's delta.
pub record Body : Type 0 where
  pub kind : Kind
  pub uuid : String
  pub sd : Option String
  pub blob : Blob.Header BlobMeta
  pub payload : Bytes

-- What was handed to Blender.
pub data Applied : Type 0 where
  delta : String → Applied
  removal : String → Applied
  blob_of : String → Applied
  file : Applied
  library : Kind → Applied

-- `_resolve(uuid) is not None`, and whether applying a blob raises, for the Blender of a call.
pub record Scene : Type 0 where
  pub resolves : String → Bool
  pub blob_raises : String → Bool

-- `stats["gap_lane"]`: the merger's, or "unknown".
pub data Report : Type 0 where
  lane : GapLane → Report
  unknown : Report

-- A manifest batch: the bootstrap it is for, and its entries.
pub record Batch : Type 0 where
  pub boot : Option ℕ
  pub held : List (String × String)

-- The globals of the module, `stats` included.
pub record Replica : Type 0 where
  pub merger : LaneMerger Body
  pub partial : List (String × PartialBlob BlobMeta)
  pub blob_by_uuid : List (String × String)
  pub pending_blobs : List (Blob.Header BlobMeta × Bytes × Option ℕ)
  pub pending_more : Bool
  pub inbox : List (Merge.Header × Body)
  pub inbox_fast : List (Merge.Header × Body)
  pub held : List (String × String)
  pub boot_gen : Option ℕ
  pub manifests : List Batch
  pub unknown_gap : Bool
  pub want_resync : Bool
  pub gap_report : Report
  pub fast_gap_at : Option ℕ
  pub cold_applied : ℕ
  pub fast_applied : ℕ
  pub seq : ℕ
  pub seq_fast : ℕ
  pub gaps : ℕ
  pub parked : ℕ
  pub resyncs : ℕ
  pub bootstraps : ℕ
  pub applied_t2 : ℕ
  pub apply_errors : ℕ
  pub unknown_uuid : ℕ
  pub scene_digest : String
  pub applied : List Applied

-- The globals as the module is loaded.
abbrev pub init : Replica
init = record {
  merger = Merge.init;
  partial = [];
  blob_by_uuid = [];
  pending_blobs = [];
  pending_more = false;
  inbox = [];
  inbox_fast = [];
  held = [];
  boot_gen = none;
  manifests = [];
  unknown_gap = false;
  want_resync = false;
  gap_report = lane no_gap;
  fast_gap_at = none;
  cold_applied = 0;
  fast_applied = 0;
  seq = 0;
  seq_fast = 0;
  gaps = 0;
  parked = 0;
  resyncs = 0;
  bootstraps = 0;
  applied_t2 = 0;
  apply_errors = 0;
  unknown_uuid = 0;
  scene_digest = "";
  applied = [];
}

-- `_BATCH_MAX` and `_MANIFESTS_AHEAD_MAX`.
abbrev pub batch_max : ℕ
batch_max = 16

abbrev pub manifests_ahead_max : ℕ
manifests_ahead_max = 256

-- `last_seen or 0`
abbrev pub or_zero : Option ℕ → ℕ
or_zero none = 0
or_zero (some n) = n

-- The lane that `_refresh_gap_stats` reports.
unfoldable pub report_of : GapLane → Bool → Report
report_of no_gap true = unknown
report_of gap _ = lane gap

-- `bool(stats["gap_lane"])`
unfoldable pub is_hole : Report → Bool
is_hole (lane no_gap) = false
is_hole _ = true

unfoldable pub refresh_gap_stats : Replica → Replica
unfolding report_of gap_lane
refresh_gap_stats r = record r {
  cold_applied = r.merger.cold_applied;
  fast_applied = r.merger.fast_applied;
  fast_gap_at = r.merger.fast.first_missing;
  gap_report = report_of (gap_lane r.merger) r.unknown_gap;
}

-- The gap of its lane, cleared.
unfoldable pub clear_gap : Replica → Merge.Header → Replica
unfolding is_fast Merge.clear_fast_gap Merge.clear_cold_gap
clear_gap r h =
    if is_fast h
    then record r { merger = Merge.clear_fast_gap r.merger }
    else record r { merger = Merge.clear_cold_gap r.merger; unknown_gap = false }

unfoldable pub end_resync : Replica → Merge.Header → Replica
unfolding clear_gap refresh_gap_stats is_hole
end_resync r h =
    let cleared = clear_gap r h in
    let told = refresh_gap_stats (record cleared { resyncs = cleared.resyncs + 1 }) in
    record told { want_resync = is_hole told.gap_report }

unfoldable pub apply_t1 : Scene → Replica → Body → Replica
unfolding refresh_gap_stats
apply_t1 s r b =
    if not (s.resolves b.uuid)
    then refresh_gap_stats
        (record r { unknown_uuid = r.unknown_uuid + 1; want_resync = true; unknown_gap = true })
    else record r {
      scene_digest = elim b.sd [ none ↦ r.scene_digest | some digest ↦ digest ];
      applied = delta b.uuid ∷ r.applied;
    }

unfoldable pub apply_tombstone : Scene → Replica → Body → Replica
unfolding Dict.remove
apply_tombstone s r b =
    if not (s.resolves b.uuid)
    then r
    else record r { held = Dict.remove r.held b.uuid; applied = removal b.uuid ∷ r.applied }

-- The first part of the fast branch of `_dispatch`.
unfoldable pub apply_fast : Scene → Replica → Merge.Header → Body → Kind → Replica
unfolding apply_t1 apply_tombstone end_resync
apply_fast s r h b t1 = apply_t1 s r b
apply_fast s r h b tomb = apply_tombstone s r b
apply_fast s r h b resync_end = end_resync r h
apply_fast s r h b _ = r

-- The fast branch of `_dispatch`.
unfoldable pub dispatch_fast : Scene → Replica → Merge.Header → Body → Replica
unfolding apply_fast refresh_gap_stats Merge.fast_done
dispatch_fast s r h b =
    let r' = apply_fast s r h b b.kind in
    refresh_gap_stats (record r' { merger = Merge.fast_done r'.merger h.seq })

unfoldable pub dispatch_parked : Scene → Replica → List (Parked Body) → Replica
unfolding dispatch_fast
dispatch_parked s r [] = r
dispatch_parked s r (p ∷ items) = dispatch_parked s (dispatch_fast s r p.header p.payload) items

-- `_release`: only messages of the fast lane are ever parked.
unfoldable pub release : Scene → Replica → List (Parked Body) → Replica
unfolding dispatch_parked
release s r items =
    let r' = dispatch_parked s r items in record r' { parked = length r'.merger.parked }

-- `_release(_merger.cold_done(seq))`
unfoldable pub cold_done : Scene → Replica → Option ℕ → Replica
unfolding Merge.cold_done release
cold_done s r seq =
    let (merger, due) = Merge.cold_done r.merger seq in release s (record r { merger = merger }) due

abbrev pub is_boot : Kind → Bool
is_boot boot = true
is_boot _ = false

-- `_reassembler.drop(stale)`, where another blob of the uuid was on its way.
unfoldable pub drop_stale : Replica → String → String → Replica
unfolding Dict.get Dict.put discard_blob
drop_stale r uuid id = record r {
  partial = elim (Dict.get r.blob_by_uuid uuid) [
    | none ↦ r.partial
    | some stale ↦
        if not (stale == "") && not (stale == id) then discard_blob r.partial stale else r.partial
  ];
  blob_by_uuid = Dict.put r.blob_by_uuid uuid id;
}

abbrev pub id_of : Blob.Header BlobMeta → String
id_of h = elim h.blob [ none ↦ "" | some b ↦ b.id ]

-- What follows a blob that is complete.
unfoldable pub queue_blob :
    Replica → Kind → String → Blob.Header BlobMeta → Bytes → Option ℕ → Replica
unfolding Dict.remove
queue_blob r kind uuid header bytes seq = record r {
  blob_by_uuid = Dict.remove r.blob_by_uuid uuid;
  pending_blobs = (if is_boot kind then [] else r.pending_blobs) ++ (header, bytes, seq) ∷ [];
  pending_more = header.meta.more && not (is_boot kind);
}

-- What follows the reassembler's answer to such a chunk.
unfoldable pub chunk_fed :
    Scene → Replica → Merge.Header → Body → Option (Blob.Header BlobMeta × Bytes) → Replica
unfolding queue_blob cold_done
chunk_fed s r h b none = cold_done s r h.seq
chunk_fed s r h b (some (header, bytes)) = queue_blob r b.kind b.uuid header bytes h.seq

-- The branch of `_dispatch` for a chunk of a datablock or of a bootstrap.
unfoldable pub dispatch_chunk : Scene → Replica → Merge.Header → Body → Replica
unfolding drop_stale feed chunk_fed
dispatch_chunk s r h b =
    let r' = drop_stale r b.uuid (id_of b.blob) in
    let (partial, done) = feed r'.partial b.blob b.payload in
    chunk_fed s (record r' { partial = partial }) h b done

unfoldable pub library_fed :
    Scene → Replica → Merge.Header → Option (Blob.Header BlobMeta × Bytes) → Replica
unfolding cold_done
library_fed s r h none = r
library_fed s r h (some whole) =
    cold_done s (record r { applied = library libfile ∷ r.applied }) h.seq

-- The branch for a chunk of a library's file.
unfoldable pub dispatch_library : Scene → Replica → Merge.Header → Body → Replica
unfolding feed library_fed
dispatch_library s r h b =
    let (partial, done) = feed r.partial b.blob b.payload in
    library_fed s (record r { partial = partial }) h done

-- The cold branches of `_dispatch`.
unfoldable pub dispatch_cold : Scene → Replica → Merge.Header → Body → Kind → Replica
unfolding end_resync apply_t1 apply_tombstone cold_done dispatch_chunk dispatch_library
dispatch_cold s r h b resync_end = cold_done s (end_resync r h) h.seq
dispatch_cold s r h b t1 = cold_done s (apply_t1 s r b) h.seq
dispatch_cold s r h b tomb = cold_done s (apply_tombstone s r b) h.seq
dispatch_cold s r h b link = cold_done s (record r { applied = library link ∷ r.applied }) h.seq
dispatch_cold s r h b unlink = cold_done s (record r { applied = library unlink ∷ r.applied }) h.seq
dispatch_cold s r h b lib_missing =
    cold_done s (record r { applied = library lib_missing ∷ r.applied }) h.seq
dispatch_cold s r h b libfile = dispatch_library s r h b
dispatch_cold s r h b t2 = dispatch_chunk s r h b
dispatch_cold s r h b boot = dispatch_chunk s r h b
dispatch_cold s r h b other = r

unfoldable pub dispatch : Scene → Replica → Merge.Header → Body → Replica
unfolding is_fast dispatch_fast dispatch_cold
dispatch s r h b = if is_fast h then dispatch_fast s r h b else dispatch_cold s r h b b.kind

-- `observe` and the statistics of `_process_cold`.
unfoldable pub note_seq : Replica → Merge.Header → Replica
unfolding observe refresh_gap_stats
note_seq r h =
    let (merger, contiguous) = observe r.merger h in
    let seen = record r { merger = merger } in
    let told =
      if contiguous then seen else refresh_gap_stats (record seen { want_resync = true }) in
    record told {
      seq = or_zero merger.cold.last_seen;
      seq_fast = or_zero merger.fast.last_seen;
      gaps = Merge.gaps merger;
    }

-- One message of `_process_cold`, from its number on.
unfoldable pub process_message : Scene → Replica → Merge.Header → Body → Replica
unfolding note_seq admit dispatch
process_message s r h b =
    let r' = note_seq r h in
    let (merger, now) = admit r'.merger h b in
    let admitted = record r' { merger = merger } in
    if now then dispatch s admitted h b else record admitted { parked = length merger.parked }
