-- ===== src/Merge/Trace.antt =====
-- Any sequence of calls on the merger, `reset` aside: what was parked or is parked comes out exactly once.
use mathlib.Core.List.Perm
use mathlib.Core.List.{Perm, append_assoc, append-nil, perm_middle}
use qcbridge.Prelude.{
  ℕ, ◌<◌, ◌≡◌, refl, Option, none, some, List, [], ◌∷◌, ◌++◌, arith, if◌then◌else◌, All,
}
use qcbridge.Merge.{
  LaneMerger, Parked, Header, admit, cold_done, fast_done, observe, clear_fast_gap, clear_cold_gap,
  after_of,
}
use qcbridge.Merge.Parking.{Interleaved, end, left, right, IsParked, cold_done-parts}

pub data Call {ℓ} (A : Type ℓ) : Type ℓ where
  observe_call : Header → Call A
  admit_call : Header → A → Call A
  cold_call fast_call : Option ℕ → Call A
  clear_fast_call clear_cold_call : Call A

module _ {ℓ} {A : Type ℓ} where
  -- The merger after a call.
  unfoldable pub after : LaneMerger A → Call A → LaneMerger A
  after m (observe_call h) = (observe m h).0
  after m (admit_call h p) = (admit m h p).0
  after m (cold_call seq) = (cold_done m seq).0
  after m (fast_call seq) = fast_done m seq
  after m clear_fast_call = clear_fast_gap m
  after m clear_cold_call = clear_cold_gap m

  -- What a call releases.
  unfoldable pub released : LaneMerger A → Call A → List (Parked A)
  released m (cold_call seq) = (cold_done m seq).1
  released m _ = []

  -- What a call refuses to apply now.
  unfoldable pub refused : LaneMerger A → Call A → List (Parked A)
  refused m (admit_call h p) =
      if (admit m h p).1 then [] else record { after = after_of h; header = h; payload = p } ∷ []
  refused m _ = []

  Interleaved-Perm : {xs ys zs : List (Parked A)} → Interleaved xs ys zs → Perm (xs ++ ys) zs
  Interleaved-Perm end = Perm.refl []
  Interleaved-Perm (left i) = Perm.cons _ (Interleaved-Perm i)
  Interleaved-Perm (right {y = y} {xs = xs} {ys = ys} i) =
      Perm.trans (perm_middle xs ys) (Perm.cons y (Interleaved-Perm i))

  parked-observe : (m : LaneMerger A) (h : Header) → (observe m h).0.parked ≡ m.parked
  unfolding observe
  parked-observe m h = ground arith

  parked-fast_done : (m : LaneMerger A) (seq : Option ℕ) → (fast_done m seq).parked ≡ m.parked
  unfolding fast_done
  parked-fast_done m none = refl
  parked-fast_done m (some seq) = ground arith

  parked-admit :
      (m : LaneMerger A) (h : Header) (p : A)
      → (admit m h p).0.parked ≡ m.parked ++ refused m (admit_call h p)
  unfolding refused admit
  parked-admit m h p = ground (arith, append-nil m.parked)

  same-Perm : {xs ys : List (Parked A)} → xs ≡ ys → Perm xs (ys ++ [])
  same-Perm {xs} e = rw (append-nil, ← e) (Perm.refl xs)

  call-Perm :
      (m : LaneMerger A) (c : Call A)
      → Perm (released m c ++ (after m c).parked) (m.parked ++ refused m c)
  unfolding after released refused clear_fast_gap clear_cold_gap
  call-Perm m (observe_call h) = same-Perm (parked-observe m h)
  call-Perm m (admit_call h p) = rw (← parked-admit m h p) (Perm.refl (admit m h p).0.parked)
  call-Perm m (cold_call seq) = rw append-nil (Interleaved-Perm (cold_done-parts m seq).0)
  call-Perm m (fast_call seq) = same-Perm (parked-fast_done m seq)
  call-Perm m clear_fast_call = same-Perm refl
  call-Perm m clear_cold_call = same-Perm refl

  -- The state, the releases and the refusals of a sequence of calls.
  unfoldable pub after_all : LaneMerger A → List (Call A) → LaneMerger A
  unfolding after
  after_all m [] = m
  after_all m (c ∷ cs) = after_all (after m c) cs

  unfoldable pub released_all : LaneMerger A → List (Call A) → List (Parked A)
  unfolding after released
  released_all m [] = []
  released_all m (c ∷ cs) = released m c ++ released_all (after m c) cs

  unfoldable pub refused_all : LaneMerger A → List (Call A) → List (Parked A)
  unfolding after refused
  refused_all m [] = []
  refused_all m (c ∷ cs) = refused m c ++ refused_all (after m c) cs

  -- Over any sequence of calls without a `reset`, the messages released and those still parked are, each as often,
  -- the messages parked at the start and those that `admit` refused on the way.
  pub calls-Perm :
      (m : LaneMerger A) (cs : List (Call A))
      → Perm (released_all m cs ++ (after_all m cs).parked) (m.parked ++ refused_all m cs)
  unfolding after_all released_all refused_all
  calls-Perm m [] = same-Perm refl
  calls-Perm m (c ∷ cs) =
      rw (append_assoc, ← append_assoc m.parked (refused m c) (refused_all (after m c) cs))
        (Perm.trans (Perm.append_left (released m c) (calls-Perm (after m c) cs)) (
          rw (← append_assoc (released m c) (after m c).parked (refused_all (after m c) cs))
            (Perm.append_right (refused_all (after m c) cs) (call-Perm m c))))

  IsParked-append :
      (n : ℕ) (qs rs : List (Parked A))
      → All (λ q. n < q.after) qs
      → All (λ q. n < q.after) rs
      → All (λ q. n < q.after) (qs ++ rs)
  IsParked-append n [] rs h g = g
  IsParked-append n (q ∷ qs) rs h g = (h.0, IsParked-append n qs rs h.1 g)

  cold_applied-observe :
      (m : LaneMerger A) (h : Header) → (observe m h).0.cold_applied ≡ m.cold_applied
  unfolding observe
  cold_applied-observe m h = ground arith

  cold_applied-fast_done :
      (m : LaneMerger A) (seq : Option ℕ) → (fast_done m seq).cold_applied ≡ m.cold_applied
  unfolding fast_done
  cold_applied-fast_done m none = refl
  cold_applied-fast_done m (some seq) = ground arith

  cold_applied-admit :
      (m : LaneMerger A) (h : Header) (p : A) → (admit m h p).0.cold_applied ≡ m.cold_applied
  unfolding admit
  cold_applied-admit m h p = ground arith

  refused-waits :
      (m : LaneMerger A) (h : Header) (p : A)
      → All (λ q. m.cold_applied < q.after) (refused m (admit_call h p))
  unfolding refused admit
  refused-waits m h p = ground arith

  after-IsParked : (m : LaneMerger A) (c : Call A) → IsParked m → IsParked (after m c)
  unfolding after clear_fast_gap clear_cold_gap
  after-IsParked m (observe_call h) v = record {
    waits = rw (parked-observe m h, cold_applied-observe m h) v.waits;
  }
  after-IsParked m (admit_call h p) v = record {
    waits =
        rw (parked-admit m h p, cold_applied-admit m h p)
          (IsParked-append m.cold_applied m.parked _ v.waits (refused-waits m h p));
  }
  after-IsParked m (cold_call seq) v = (cold_done-parts m seq).1
  after-IsParked m (fast_call seq) v = record {
    waits = rw (parked-fast_done m seq, cold_applied-fast_done m seq) v.waits;
  }
  after-IsParked m clear_fast_call v = record { waits = v.waits }
  after-IsParked m clear_cold_call v = record { waits = v.waits }

  -- Over any sequence of calls without a `reset`, everything parked at the end still waits for a cold number beyond
  -- what has applied, if that held at the start.
  pub calls-IsParked :
      (m : LaneMerger A) (cs : List (Call A)) → IsParked m → IsParked (after_all m cs)
  unfolding after_all
  calls-IsParked m [] v = v
  calls-IsParked m (c ∷ cs) v = calls-IsParked (after m c) cs (after-IsParked m c v)
