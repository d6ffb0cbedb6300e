-- ===== src/Merge/Parking.antt =====
-- Parked fast messages: none is lost, doubled, reordered, or released before its cold number.
use Prim.Native.Nat.{max}
use qcbridge.Prelude.{
  ℕ, ◌≤◌, ◌<◌, ◌≡◌, refl, true, false, Option, some, List, [], ◌∷◌, arith, ltb, leb, Bool-cases,
  inl, inr, select, All,
}
use qcbridge.Merge.{LaneMerger, Parked, cold_done, apply_cold, is_due, is_waiting}

-- `zs` is `xs` and `ys`, each in its own order.
pub data Interleaved {ℓ} {A : Type ℓ} : List A → List A → List A → Type ℓ where
  end : Interleaved [] [] []
  left : {x : A} {xs ys zs : List A} → Interleaved xs ys zs → Interleaved (x ∷ xs) ys (x ∷ zs)
  right : {y : A} {xs ys zs : List A} → Interleaved xs ys zs → Interleaved xs (y ∷ ys) (y ∷ zs)

-- What is parked waits for a cold number that has not applied.
pub record IsParked {ℓ} {A : Type ℓ} (m : LaneMerger A) : Type ℓ where
  pub waits : All (λ q. m.cold_applied < q.after) m.parked

apply_cold-max : (n seq : ℕ) → apply_cold n (some seq) ≡ max n seq
unfolding apply_cold
apply_cold-max n seq = ground arith

module _ {ℓ} {A : Type ℓ} where
  Interleaved-select :
      (n : ℕ) (qs : List (Parked A))
      → Interleaved (select (is_due n) qs) (select (is_waiting n) qs) qs
  Interleaved-select n [] = end
  Interleaved-select n (q ∷ qs) = elim (Bool-cases (leb q.after n)) [
    | inl due ↦ rw (due, go q due) (left (Interleaved-select n qs))
    | inr late ↦ rw (late, stay q late) (right (Interleaved-select n qs))
  ]
    where
      go : (p : Parked A) → leb p.after n ≡ true → ltb n p.after ≡ false
      go p e = ground arith

      stay : (p : Parked A) → leb p.after n ≡ false → ltb n p.after ≡ true
      stay p e = ground arith

  All-due : (n : ℕ) (qs : List (Parked A)) → All (λ q. q.after ≤ n) (select (is_due n) qs)
  All-due n [] = tt
  All-due n (q ∷ qs) = ground (arith, All-due n qs)

  All-waiting : (n : ℕ) (qs : List (Parked A)) → All (λ q. n < q.after) (select (is_waiting n) qs)
  All-waiting n [] = tt
  All-waiting n (q ∷ qs) = ground (arith, All-waiting n qs)

  none_due :
      (n : ℕ) (qs : List (Parked A)) → select (is_due n) qs ≡ [] → select (is_waiting n) qs ≡ qs
  none_due n [] h = refl
  none_due n (q ∷ qs) h = ground (arith, none_due n qs)

  -- Both branches of `if due` leave what waits.
  cold_done_lem :
      (m : LaneMerger A) (seq : Option ℕ)
      → cold_done m seq ≡ (
        record m {
          cold_applied = apply_cold m.cold_applied seq;
          parked = select (is_waiting (apply_cold m.cold_applied seq)) m.parked;
        },
        select (is_due (apply_cold m.cold_applied seq)) m.parked,
      )
  unfolding cold_done
  cold_done_lem m seq = ground (arith, none_due (apply_cold m.cold_applied seq) m.parked)

  -- With the number of a blob that has applied, `cold_done` hands out what waited for a number up to
  -- the larger of it and those applied before, in arrival order, and keeps in order what waits for
  -- a number beyond that; together they are what was parked.
  pub cold_done-Interleaved :
      (m : LaneMerger A) (seq : ℕ)
      → let (after, due) = cold_done m (some seq) in
        Interleaved due after.parked m.parked
        × (after.cold_applied ≡ max m.cold_applied seq)
        × All (λ q. q.after ≤ max m.cold_applied seq) due
        × All (λ q. max m.cold_applied seq < q.after) after.parked
  cold_done-Interleaved m seq =
      let n = max m.cold_applied seq in
      rw (cold_done_lem m (some seq), apply_cold-max m.cold_applied seq)
        (Interleaved-select n m.parked, refl, All-due n m.parked, All-waiting n m.parked)

  -- The same without a number: what is parked and due by then comes out.
  pub cold_done-parts :
      (m : LaneMerger A) (seq : Option ℕ)
      → Interleaved (cold_done m seq).1 (cold_done m seq).0.parked m.parked
        × IsParked (cold_done m seq).0
  cold_done-parts m seq =
      let n = apply_cold m.cold_applied seq in
      rw (cold_done_lem m seq)
        (Interleaved-select n m.parked, record { waits = All-waiting n m.parked })
