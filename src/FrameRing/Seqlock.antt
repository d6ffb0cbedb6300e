-- ===== src/FrameRing/Seqlock.antt =====
-- A reader between any two stores of the writer.
use qcbridge.Prelude.{
  ℕ, zero, suc, ◌+◌, ◌%◌, ◌≤◌, ◌<◌, ◌≡◌, refl, ap, Bool, true, false, not, ◌&&◌, ◌||◌, List, [],
  ◌∷◌, nat_eq, ◌==◌, ==_refl, take, ◌⊎◌, arith, Bool-cases, inl, inr,
}
use qcbridge.RingLayout.{at_slot, next_slot, unpack_latest, fits, rgba32f}
use qcbridge.RingLayout.Slots.{next_slot_lem, unpack_latest-pack_latest}
use qcbridge.FrameRing.{
  Block, Content, Slot, Write, Ring, torn, whole, store, writes, publish, or_one, set_slot,
}

abbrev pub is_whole {ℓ} : {P : Type ℓ} → Content P → Bool
is_whole torn = false
is_whole (whole p) = true

-- A seqlock that lets a reader in: even, and not that of a slot never written.
abbrev pub lets_in : ℕ → Bool
lets_in n = n % 2 == 0 && not (n == 0)

-- What lets a reader in is a whole frame.
abbrev pub readable {ℓ} : {P : Type ℓ} → Slot P → Bool
readable s = not (lets_in s.seqlock) || is_whole s.content

or_one-odd : (n : ℕ) → or_one n % 2 ≡ 1
unfolding or_one
or_one-odd n = ground arith

module _ {ℓ} {P : Type ℓ} where
  -- The block after some stores.
  unfoldable pub store_all : Block P → List (Write P) → Block P
  unfolding store
  store_all b [] = b
  store_all b (s ∷ ss) = store_all (store b s) ss

  writes-readable :
      (b : Block P) (slot n seq : ℕ) (p : P) (k i : ℕ)
      → n % 2 ≡ 1
      → readable (b.slots i) ≡ true
      → readable ((store_all b (take k (writes slot n seq p))).slots i) ≡ true
  unfolding store_all store set_slot writes
  writes-readable b slot n seq p zero i odd h = h
  writes-readable b slot n seq p (suc zero) i odd h = ground arith
  writes-readable b slot n seq p (suc (suc zero)) i odd h = ground arith
  writes-readable b slot n seq p (suc (suc (suc zero))) i odd h = ground arith
  writes-readable b slot n seq p (suc (suc (suc (suc zero)))) i odd h = ground arith
  writes-readable b slot n seq p (suc (suc (suc (suc (suc zero))))) i odd h = ground arith
  writes-readable b slot n seq p (suc (suc (suc (suc (suc (suc k)))))) i odd h = ground arith

  -- The stores leave the other slots alone.
  writes_elsewhere :
      (b : Block P) (slot n seq : ℕ) (p : P) (k i : ℕ)
      → (slot == i) ≡ false
      → (store_all b (take k (writes slot n seq p))).slots i ≡ b.slots i
  unfolding store_all store set_slot writes
  writes_elsewhere b slot n seq p zero i other = refl
  writes_elsewhere b slot n seq p (suc zero) i other = rw other refl
  writes_elsewhere b slot n seq p (suc (suc zero)) i other = rw other refl
  writes_elsewhere b slot n seq p (suc (suc (suc zero))) i other = rw other refl
  writes_elsewhere b slot n seq p (suc (suc (suc (suc zero)))) i other = rw other refl
  writes_elsewhere b slot n seq p (suc (suc (suc (suc (suc zero))))) i other = rw other refl
  writes_elsewhere b slot n seq p (suc (suc (suc (suc (suc (suc k)))))) i other = rw other refl

  -- The first four stores leave `latest` alone.
  latest_kept :
      (b : Block P) (slot n seq : ℕ) (p : P) (j : ℕ)
      → j ≤ 4
      → (store_all b (take j (writes slot n seq p))).latest ≡ b.latest
  unfolding store_all store writes
  latest_kept b slot n seq p zero few = refl
  latest_kept b slot n seq p (suc zero) few = refl
  latest_kept b slot n seq p (suc (suc zero)) few = refl
  latest_kept b slot n seq p (suc (suc (suc zero))) few = refl
  latest_kept b slot n seq p (suc (suc (suc (suc zero)))) few = refl
  latest_kept b slot n seq p (suc (suc (suc (suc (suc j))))) few = absurd (omega arith)

  -- All of the stores.
  all_writes :
      (b : Block P) (slot n seq : ℕ) (p : P)
      → slot < 256
      → n % 2 ≡ 1
      → let after = store_all b (writes slot n seq p) in
        let named = (unpack_latest after.latest).1 in
        ((after.slots named).content ≡ whole p)
        × (lets_in (after.slots named).seqlock ≡ true)
        × (named ≡ slot)
  unfolding store_all store set_slot writes
  all_writes b slot n seq p lt odd =
      rw (unpack_latest-pack_latest seq slot lt, ==_refl slot) (refl, ground arith, refl)

  take_none : (k : ℕ) (b : Block P) → store_all b (take k []) ≡ b
  unfolding store_all
  take_none zero b = refl
  take_none (suc k) b = refl

module _ {ℓ} {P : Type ℓ} (r : Ring) (b : Block P) (reader_claim w h : ℕ) (p : P) where
  abbrev chosen : ℕ
  chosen = next_slot r.last_slot reader_claim r.layout.slot_count

  abbrev full_writes : List (Write P)
  full_writes = writes chosen (or_one (b.slots chosen).seqlock) (r.seq + 1) p

  publish_writes :
      ((publish r b reader_claim w h p).1 ≡ []) ⊎ ((publish r b reader_claim w h p).1 ≡ full_writes)
  unfolding publish
  publish_writes = elim (Bool-cases (r.retired || not (fits r.layout w h rgba32f))) [
    | inl refused ↦ inl (rw refused refl)
    | inr taken ↦ inr (rw taken refl)
  ]

  publish_made :
      (publish r b reader_claim w h p).2 ≡ true → (publish r b reader_claim w h p).1 ≡ full_writes
  unfolding publish
  publish_made taken = elim (Bool-cases (r.retired || not (fits r.layout w h rgba32f))) [
    | inl refused ↦ absurd (ground (arith, refused, taken))
    | inr accepted ↦ rw accepted refl
  ]

  -- After any number of the stores of `publish`, a slot whose seqlock lets a reader in holds a whole
  -- frame, if that held of the slot before.
  pub publish-readable :
      (k i : ℕ)
      → readable (b.slots i) ≡ true
      → readable ((store_all b (take k (publish r b reader_claim w h p).1)).slots i) ≡ true
  publish-readable k i ok = elim publish_writes [
    | inl none_made ↦ rw (none_made, take_none k b) ok
    | inr made ↦ rw made (writes-readable b chosen _ (r.seq + 1) p k i (or_one-odd _) ok)
  ]

  -- With three slots or more and the last slot in range, no store of `publish` changes the slot that
  -- the reader has claimed, nor the last one written; and after any four of its stores or fewer
  -- `latest` is what it was, so a reader is sent to the new slot by the fifth and last alone.
  pub publish_spares :
      (k last i : ℕ)
      → r.last_slot ≡ at_slot last
      → 3 ≤ r.layout.slot_count
      → last < r.layout.slot_count
      → i + 1 ≡ reader_claim ⊎ i ≡ last
      → let stores = (publish r b reader_claim w h p).1 in
        ((store_all b (take k stores)).slots i ≡ b.slots i)
        × ((j : ℕ) → j ≤ 4 → (store_all b (take j stores)).latest ≡ b.latest)
  publish_spares k last i known three range spared = elim publish_writes [
    | inl none_made ↦
        rw (none_made, take_none k b)
          (refl, λ j few. ap (λ (x : Block P). x.latest) (take_none j b))
    | inr made ↦ rw made (
      writes_elsewhere b chosen _ (r.seq + 1) p k i (
          ground (
            arith,
            rw (← known) at (next_slot_lem last reader_claim r.layout.slot_count three range),
          )),
      λ j few. latest_kept b chosen _ (r.seq + 1) p j few,
    )
  ]

  -- A frame that is taken ends whole in the slot that `latest` names, with a seqlock that lets a
  -- reader in, in a block of at most 256 slots, three or more, with the last slot in range.
  pub publish_lem :
      (last : ℕ)
      → r.last_slot ≡ at_slot last
      → 3 ≤ r.layout.slot_count
      → r.layout.slot_count ≤ 256
      → last < r.layout.slot_count
      → (publish r b reader_claim w h p).2 ≡ true
      → let after = store_all b (publish r b reader_claim w h p).1 in
        let slot = (unpack_latest after.latest).1 in
        ((after.slots slot).content ≡ whole p)
        × (lets_in (after.slots slot).seqlock ≡ true)
        × (slot ≡ chosen)
  publish_lem last known three few range taken =
      let in_range = (next_slot_lem last reader_claim r.layout.slot_count three range).0 in
      let lt : chosen < 256 = rw known (omega (arith, in_range)) in
      rw (publish_made taken) (all_writes b chosen _ (r.seq + 1) p lt (or_one-odd _))
