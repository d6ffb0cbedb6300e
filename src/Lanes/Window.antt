-- ===== src/Lanes/Window.antt =====
-- The log of the fast lane and the lane itself: what a repair of a hole will say again.
use mathlib.Core.List.{append-nil}
use qcbridge.Prelude.{
  ℕ, zero, suc, ◌+◌, ◌≤◌, ◌<◌, All, ◌≡◌, refl, Bool, true, Option, none, some, List, [], ◌∷◌, ◌++◌,
  String, string_eq, arith,
}
use qcbridge.Dict
use qcbridge.FastLog
use qcbridge.FastLog.{FastLog, Sent, log_sent, covers, window_since}
use qcbridge.FastLog.Window.{Ascending, log_all, last_kind, window_since_lem}
use qcbridge.Lanes
use qcbridge.Lanes.{
  Lanes, Fast, t1, tomb, fast_end, Packet, cold, fast, boot_sent, chunk_sent, blob_shipped,
  queue_blob, cold_accepted, Chunk, chunk,
}
use qcbridge.Lanes.Order.{run-IsSafe, countdown, fast_numbers}
use qcbridge.Lanes.Step.{
  Step, refusal, boot_chunk, lib_chunk, blob_chunk, blob_done, link_msg, cold_end_msg, fast_end_msg,
  named_msg, boot_queued, lib_queued, blob_queued, Steps, stay, onward, names, kind_of,
}

abbrev entry : ℕ → String → Option (String × ℕ) → List Sent
entry n kind none = []
entry n kind (some (uuid, after)) = record { seq = n; uuid = uuid; kind = kind } ∷ []

-- The deltas and tombstones of the wire, oldest first, as a log records them.
module _ {ℓ} {V : Type ℓ} where
  abbrev pub recorded : List (Packet V) → List Sent
  recorded [] = []
  recorded (cold n m ∷ w) = recorded w
  recorded (fast n m ∷ w) = recorded w ++ entry n (kind_of m) (names m)

log_all-snoc :
    (l : FastLog) (es : List Sent) (e : Sent) → log_all l (es ++ e ∷ []) ≡ log_sent (log_all l es) e
unfolding log_all
log_all-snoc l [] e = refl
log_all-snoc l (x ∷ es) e = log_all-snoc (log_sent l x) es e

Ascending-snoc :
    (low : ℕ) (es : List Sent) (e : Sent)
    → Ascending low es
    → All (λ x. x.seq < e.seq) es
    → low ≤ e.seq
    → Ascending low (es ++ e ∷ [])
Ascending-snoc low [] e h below le = (le, tt)
Ascending-snoc low (x ∷ es) e h below le =
    (h.0, Ascending-snoc (x.seq + 1) es e h.1 below.1 (omega (arith, below.0)))

All-snoc : (P : Sent → Type 0) (es fs : List Sent) → All P es → All P fs → All P (es ++ fs)
All-snoc P [] fs h g = g
All-snoc P (x ∷ es) fs h g = (h.0, All-snoc P es fs h.1 g)

All-mono : (m n : ℕ) (es : List Sent) → m ≤ n → All (λ x. x.seq < m) es → All (λ x. x.seq < n) es
All-mono m n [] le h = tt
All-mono m n (x ∷ es) le h = (omega (arith, h.0), All-mono m n es le h.1)

module _ {ℓ} {V : Type ℓ} where
  recorded-Ascending :
      (w : List (Packet V)) (n : ℕ)
      → fast_numbers w ≡ countdown n
      → Ascending 0 (recorded w) × All (λ x. x.seq < suc n) (recorded w)
  recorded-Ascending [] n h = (tt, tt)
  recorded-Ascending (cold k m ∷ w) n h = recorded-Ascending w n h
  recorded-Ascending (fast k m ∷ w) zero h = absurd (cc h)
  recorded-Ascending (fast k m ∷ w) (suc n) h =
      let same : k ≡ suc n = cc h in
      let (up, below) = recorded-Ascending w n (cc h) in
      rw same (entry-Ascending (recorded w) n (kind_of m) (names m) up below)
    where
      entry-Ascending :
          (es : List Sent) (n : ℕ) (kind : String) (named : Option (String × ℕ))
          → Ascending 0 es
          → All (λ x. x.seq < suc n) es
          → Ascending 0 (es ++ entry (suc n) kind named)
            × All (λ x. x.seq < suc (suc n)) (es ++ entry (suc n) kind named)
      entry-Ascending es n kind none up below =
          (rw append-nil up, rw append-nil (All-mono (suc n) (suc (suc n)) es (omega arith) below))
      entry-Ascending es n kind (some (uuid, after)) up below = (
        Ascending-snoc 0 es _ up below (omega arith),
        All-snoc (λ x. x.seq < suc (suc n)) es _
            (All-mono (suc n) (suc (suc n)) es (omega arith) below) (omega arith, tt),
      )

  -- The log holds what the lane took, as far back as it reaches.
  IsLogged : ℕ → Lanes V → Type 0
  IsLogged capacity l = l.fastlog ≡ log_all (FastLog.init capacity) (recorded l.wire)

  IsLogged-boot_sent :
      (capacity : ℕ) (l : Lanes V) (c : Chunk) (rest : List Chunk)
      → IsLogged capacity l
      → IsLogged capacity (boot_sent (cold_accepted l (chunk c)) rest)
  unfolding IsLogged boot_sent
  IsLogged-boot_sent capacity l c [] s = s
  IsLogged-boot_sent capacity l c (d ∷ rest) s = s

  IsLogged-step :
      (capacity : ℕ) (l m : Lanes V) → Step l m → IsLogged capacity l → IsLogged capacity m
  unfolding IsLogged chunk_sent blob_shipped queue_blob
  IsLogged-step capacity l _ refusal s = s
  IsLogged-step capacity l _ (boot_chunk c rest h) s = IsLogged-boot_sent capacity l c rest s
  IsLogged-step capacity l _ (lib_chunk c rest h) s = s
  IsLogged-step capacity l _ (blob_chunk uuid c rest h) s = s
  IsLogged-step capacity l _ (blob_done uuid) s = s
  IsLogged-step capacity l _ (link_msg m h) s = s
  IsLogged-step capacity l _ cold_end_msg s = s
  IsLogged-step capacity l _ fast_end_msg s = rw append-nil s
  IsLogged-step capacity l _ (named_msg uuid kind after m h named le) s =
      rw (h, named, log_all-snoc, ← s) refl
  IsLogged-step capacity l _ (boot_queued chunks shipped h) s = s
  IsLogged-step capacity l _ (lib_queued chunks h) s = s
  IsLogged-step capacity l _ (blob_queued uuid chunks h) s = s

  run-IsLogged :
      (capacity : ℕ) (answers : List Bool) (l : Lanes V)
      → Steps (Lanes.init capacity answers) l
      → IsLogged capacity l
  unfolding IsLogged log_all
  run-IsLogged capacity answers _ stay = refl
  run-IsLogged capacity answers _ (onward k n t u) =
      IsLogged-step capacity k n u (run-IsLogged capacity answers k t)

  -- On every run, while the log covers a hole, the window of the hole names each datablock that a
  -- delta or tombstone sent from there on was about, with the kind of the newest.
  pub run-window :
      (capacity : ℕ) (answers : List Bool) (l : Lanes V) (seq : ℕ) (uuid : String)
      → Steps (Lanes.init capacity answers) l
      → covers l.fastlog (some seq) ≡ true
      → Dict.get (window_since l.fastlog seq) uuid ≡ last_kind seq uuid (recorded l.wire)
  unfolding IsLogged
  run-window capacity answers l seq uuid t cov =
      let logged : l.fastlog ≡ log_all (FastLog.init capacity) (recorded l.wire) =
        run-IsLogged capacity answers l t in
      let up =
        recorded-Ascending l.wire l.seq_fast (run-IsSafe capacity answers l t).numbered_fast in
      rw logged (window_since_lem capacity (recorded l.wire) seq uuid up.0 (rw logged at cov))
