-- ===== src/HostSync/Unbroken.antt =====
-- The host's cold lane, read by the tracker of the replica.
use qcbridge.Prelude.{
  ℕ, zero, suc, ◌≡◌, refl, ◌∙◌, Eq, Bool, Option, none, some, List, [], ◌∷◌, ◌++◌, string_eq, arith,
}
use qcbridge.HostSync.Reached
use qcbridge.HostSync.Reached.{Call, after_all, calls-IsSafe}
use qcbridge.Lanes.Order.{countdown, cold_numbers, fast_numbers}
use qcbridge.Seq
use qcbridge.Seq.{SeqTracker, observe, observe_all, contiguous, advance, note_missing}

-- The other way round: oldest first.
abbrev pub oldest_first : List ℕ → List ℕ
oldest_first [] = []
oldest_first (n ∷ ns) = oldest_first ns ++ n ∷ []

observe_all-snoc :
    (t : SeqTracker) (ns : List ℕ) (n : ℕ)
    → observe_all t (ns ++ n ∷ []) ≡ (observe (observe_all t ns) n).0
unfolding observe_all
observe_all-snoc t [] n = refl
observe_all-snoc t (m ∷ ns) n = observe_all-snoc (observe t m).0 ns n

abbrev seen : ℕ → Option ℕ
seen zero = none
seen (suc n) = some (suc n)

observe-next :
    (t : SeqTracker) (n : ℕ)
    → t.last_seen ≡ seen n
    → ((observe t (suc n)).0.gaps ≡ t.gaps) × ((observe t (suc n)).0.last_seen ≡ some (suc n))
unfolding observe contiguous advance
observe-next t zero h = (ground arith, ground arith)
observe-next t (suc n) h = (ground arith, ground arith)

observe_all-countdown :
    (n : ℕ)
    → let t = observe_all Seq.init (oldest_first (countdown n)) in
      (t.gaps ≡ 0) × (t.last_seen ≡ seen n)
unfolding observe_all
observe_all-countdown zero = (refl, refl)
observe_all-countdown (suc n) =
    let (none_yet, last) = observe_all-countdown n in
    let step = observe-next (observe_all Seq.init (oldest_first (countdown n))) n last in
    rw (observe_all-snoc Seq.init (oldest_first (countdown n)) (suc n)) (step.0 ∙ none_yet, step.1)

module _ {ℓ} {V : Type ℓ} ⦃e : Eq V⦄ where
  -- After any calls on the host from the start, with any refusals of the transport, a replica that
  -- is given every accepted message of a lane, in the order they left, counts no gap on it.
  pub calls-no_gap :
      (capacity : ℕ) (answers : List Bool) (cs : List (Call V))
      → let w = (after_all (Reached.init capacity answers) cs).lanes.wire in
        ((observe_all Seq.init (oldest_first (cold_numbers w))).gaps ≡ 0)
        × ((observe_all Seq.init (oldest_first (fast_numbers w))).gaps ≡ 0)
  calls-no_gap capacity answers cs =
      let l = (after_all (Reached.init capacity answers) cs).lanes in
      let s = calls-IsSafe capacity answers cs in
      (
        rw s.numbered (observe_all-countdown l.seq).0,
        rw s.numbered_fast (observe_all-countdown l.seq_fast).0,
      )
