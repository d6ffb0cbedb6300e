-- ===== src/Tests/Lanes.antt =====
-- Concrete inputs for the lanes and the blobs: qcbridge/ring1/protocol.py, merge.py, fastlog.py.
use mathlib.Core.List.{Perm}
use Prim.Native.Nat.{max}
use qcbridge.Prelude.{
  ◌<◌, ℕ, ◌≤◌, ◌≡◌, refl, none, some, List, [], ◌∷◌, ◌++◌, String, arith, All, string_eq, nat_eq,
}
use qcbridge.Dict
use qcbridge.KeySet.{has}
use qcbridge.Seq.{SeqTracker, observe_all}
use qcbridge.Seq.Holes.{Hole, first_missing-Hole}
use qcbridge.Merge.{LaneMerger, Parked, Header, cold_done, init}
use qcbridge.Merge.Applied.{Applied, fast_done_all, fast_done_all-Applied}
use qcbridge.Merge.Parking.{Interleaved, IsParked, cold_done-Interleaved}
use qcbridge.Merge.Trace.{
  Call, admit_call, cold_call, fast_call, observe_call, after_all, released_all, refused_all,
  calls-Perm, calls-IsParked,
}
use qcbridge.FastLog
use qcbridge.FastLog.{Sent}
use qcbridge.Blob.{PartialBlob, chunk, total_of}
use qcbridge.Blob.Roundtrip.{Finishes, IsOrder, feed-chunks}

abbrev tracker : SeqTracker
tracker = record { last_seen = some 2; gaps = 0; first_missing = none }

first_missing-Hole_example :
    Hole 2 (observe_all tracker (3 ∷ 5 ∷ 6 ∷ [])).first_missing (3 ∷ 5 ∷ 6 ∷ [])
first_missing-Hole_example =
    first_missing-Hole tracker 2 (3 ∷ 5 ∷ 6 ∷ []) refl refl
      (omega arith, (omega arith, (omega arith, tt)))

fast_done_all-Applied_example :
    Applied
      (2 ∷ 1 ∷ 4 ∷ [])
      (fast_done_all (init {A = ℕ}) (2 ∷ 1 ∷ 4 ∷ [])).fast_applied
      (fast_done_all (init {A = ℕ}) (2 ∷ 1 ∷ 4 ∷ [])).fast_done
fast_done_all-Applied_example = fast_done_all-Applied ℕ (2 ∷ 1 ∷ 4 ∷ [])

abbrev fast_header : ℕ → ℕ → Header
fast_header seq after = record { lane = some "f"; seq = some seq; after = some after }

abbrev waiting : Parked ℕ
waiting = record { after = 3; header = fast_header 1 3; payload = 10 }

abbrev later : Parked ℕ
later = record { after = 5; header = fast_header 2 5; payload = 20 }

abbrev merger : LaneMerger ℕ
merger = record init { parked = later ∷ waiting ∷ [] }

cold_done-Interleaved_example :
    let (after, due) = cold_done merger (some 3) in
    Interleaved due after.parked merger.parked
    × (after.cold_applied ≡ max merger.cold_applied 3)
    × All (λ q. q.after ≤ max merger.cold_applied 3) due
    × All (λ q. max merger.cold_applied 3 < q.after) after.parked
cold_done-Interleaved_example = cold_done-Interleaved merger 3

abbrev calls : List (Call ℕ)
calls =
    observe_call (fast_header 1 3)
    ∷ admit_call (fast_header 1 3) 10
    ∷ cold_call (some 3)
    ∷ fast_call (some 1)
    ∷ []

calls-Perm_example :
    Perm
      (released_all merger calls ++ (after_all merger calls).parked)
      (merger.parked ++ refused_all merger calls)
calls-Perm_example = calls-Perm merger calls

calls-IsParked_example : IsParked (after_all merger calls)
calls-IsParked_example =
    calls-IsParked merger calls (record { waits = (omega arith, (omega arith, tt)) })

abbrev message : ℕ → String → String → Sent
message seq uuid kind = record { seq = seq; uuid = uuid; kind = kind }

abbrev messages : List Sent
messages = message 1 "a" "t1" ∷ message 2 "b" "t1" ∷ message 3 "a" "tomb" ∷ []

abbrev nothing_yet : List (String × PartialBlob ℕ)
nothing_yet = []

unknown_example : Dict.get nothing_yet "b" ≡ none
unfolding Dict.get
unknown_example = refl

three-IsOrder : IsOrder (total_of 5 2) (2 ∷ 0 ∷ 1 ∷ [])
unfolding has total_of
three-IsOrder = record {
  length_is = refl;
  distinct = (refl, (refl, (refl, tt)));
  below = λ i mem. ground arith;
  every = λ i lt. ground arith;
}

feed-chunks_example :
    Finishes "t2" "b"
      (1 ∷ 2 ∷ 3 ∷ 4 ∷ 5 ∷ [])
      0
      2
      (omega arith)
      nothing_yet
      (chunk "t2" "b" (1 ∷ 2 ∷ 3 ∷ 4 ∷ 5 ∷ []) 0 2 2).0
      (2 ∷ 0 ∷ 1 ∷ [])
feed-chunks_example =
    feed-chunks "t2" "b" (1 ∷ 2 ∷ 3 ∷ 4 ∷ 5 ∷ []) 0 2 (omega arith) nothing_yet 2 (0 ∷ 1 ∷ [])
      unknown_example three-IsOrder
