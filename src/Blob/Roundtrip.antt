-- ===== src/Blob/Roundtrip.antt =====
-- A blob and its chunks, in whatever order they arrive.
use qcbridge.Prelude.{
  ℕ, zero, suc, ◌+◌, ◌-◌, ◌*◌, ◌≤◌, ◌<◌, ◌≡◌, refl, ap, sym, ◌∙◌, Option, none, some, List, [], ◌∷◌,
  arith, ltb, leb, String, string_eq, nat_eq, ◌==◌, ◌||◌, ◌&&◌, Bool, true, false, if◌then◌else◌,
  length, map,
}
use qcbridge.Dict
use qcbridge.Dict.{get-put, get-put_self, get-remove}
use qcbridge.KeySet.{has, Distinct}
use qcbridge.Blob.{
  Bytes, Header, PartialBlob, total_of, chunk, chunks_from, chunk_blob, fresh, part_of, filled,
  feed,
}
use qcbridge.Blob.Parts.{
  total_within, total_pos, ref, payload, head, Holds, fresh-Holds, filled-Holds, Holds-all,
  feed-chunk,
}

module _ {ℓ} {M : Type ℓ} where
  -- Feeding messages in turn, with what each call returns.
  unfoldable pub feed_all :
      List (String × PartialBlob M)
      → List (Header M × Bytes)
      → List (String × PartialBlob M) × List (Option (Header M × Bytes))
  unfolding feed
  feed_all partial [] = (partial, [])
  feed_all partial ((header, payload) ∷ ms) =
      let (partial', r) = feed partial header payload in
      let (partial'', rs) = feed_all partial' ms in (partial'', r ∷ rs)

  feed_all-cons :
      (partial : List (String × PartialBlob M)) (header : Header M) (payload : Bytes)
      (ms : List (Header M × Bytes)) {r : List (String × PartialBlob M) × Option (Header M × Bytes)}
      → feed partial header payload ≡ r
      → feed_all partial ((header, payload) ∷ ms) ≡ ((feed_all r.0 ms).0, r.1 ∷ (feed_all r.0 ms).1)
  unfolding feed_all
  feed_all-cons partial header payload ms e = rw e

  -- Nothing for each message but the last, which completes the blob.
  abbrev pub last_completes : List ℕ → Header M × Bytes → List (Option (Header M × Bytes))
  last_completes [] done = []
  last_completes (i ∷ []) done = some done ∷ []
  last_completes (i ∷ k ∷ order) done = none ∷ last_completes (k ∷ order) done

-- Each index below `n` once.
pub record IsOrder (n : ℕ) (order : List ℕ) : Type 0 where
  pub length_is : length order ≡ n
  pub distinct : Distinct order
  pub below : (i : ℕ) → has order i ≡ true → i < n
  pub every : (i : ℕ) → i < n → has order i ≡ true

lt→ltb : (a b : ℕ) → a < b → ltb a b ≡ true
lt→ltb a b h = ground arith

ge→ltb : (a b : ℕ) → b ≤ a → ltb a b ≡ false
ge→ltb a b h = ground arith

has_head : (i : ℕ) (rest : List ℕ) → has (i ∷ rest) i ≡ true
unfolding has
has_head i rest = ground arith

or_false : (b : Bool) → (b || has {K = ℕ} [] 0) ≡ true → b ≡ true
unfolding has
or_false b h = ground arith

-- The indices from `i`, so many.
abbrev pub upto : ℕ → ℕ → List ℕ
upto i zero = []
upto i (suc n) = i ∷ upto (i + 1) n

has-upto : (i n k : ℕ) → has (upto i n) k ≡ (leb i k && ltb k (i + n))
unfolding has
has-upto i zero k = ground arith
has-upto i (suc n) k = ground (arith, has-upto (i + 1) n k)

length-upto : (i n : ℕ) → length (upto i n) ≡ n
length-upto i zero = refl
length-upto i (suc n) = ap suc (length-upto (i + 1) n)

Distinct-upto : (i n : ℕ) → Distinct (upto i n)
Distinct-upto i zero = tt
Distinct-upto i (suc n) = (ground (arith, has-upto (i + 1) n i), Distinct-upto (i + 1) n)

upto-IsOrder : (n : ℕ) → IsOrder n (upto 0 n)
upto-IsOrder n = record {
  length_is = length-upto 0 n;
  distinct = Distinct-upto 0 n;
  below = λ i mem. ground (arith, has-upto 0 n i);
  every = λ i lt. ground (arith, has-upto 0 n i);
}

upto-split : (n : ℕ) → 0 < n → upto 0 n ≡ 0 ∷ upto 1 (n - 1)
upto-split zero h = absurd (omega arith)
upto-split (suc n) h = let e : n ≡ suc n - 1 = omega arith in ap (λ (k : ℕ). 0 ∷ upto 1 k) e

module _ {ℓ} {M : Type ℓ} (kind id : String) (bytes : Bytes) (meta : M) (cs : ℕ)
    (pos : 0 < cs) where
  abbrev pub count : ℕ
  count = total_of (length bytes) cs

  abbrev Fed : Type ℓ
  Fed = List (String × PartialBlob M) × List (Option (Header M × Bytes))

  abbrev pub sent : List ℕ → List (Header M × Bytes)
  sent order = map (chunk kind id bytes meta cs) order

  -- What the rest of an order does to a part that holds the chunks seen so far.
  pub record Finishes (partial : List (String × PartialBlob M)) (header : Header M) (order : List ℕ)
      : Type ℓ where
    pub returned : (feed_all partial (sent order)).1 ≡ last_completes order (header, bytes)
    pub left :
        (j : String)
        → Dict.get (feed_all partial (sent order)).0 j
          ≡ (if id == j then none else Dict.get partial j)

  within_order : (i : ℕ) → i < count → i * cs ≤ length bytes
  within_order i lt = total_within (length bytes) cs i pos lt

  module _ (partial : List (String × PartialBlob M)) (header : Header M) (part : PartialBlob M)
      (seen : List ℕ) (i : ℕ)
      (known : part_of partial (ref kind id bytes meta cs i) (head kind id bytes meta cs i) ≡ part)
      (h : Holds kind id bytes meta cs header part seen) (new : has seen i ≡ false)
      (lt : i < count) where
    part' : PartialBlob M
    part' = filled part (ref kind id bytes meta cs i) (payload kind id bytes meta cs i)

    part'-Holds : Holds kind id bytes meta cs header part' (i ∷ seen)
    unfolding part'
    part'-Holds = filled-Holds kind id bytes meta cs header part seen i h new (within_order i lt)

    feed-next :
        suc (length seen) < count
        → feed partial (chunk kind id bytes meta cs i).0 (chunk kind id bytes meta cs i).1
          ≡ (Dict.put partial id part', none)
    unfolding chunk part'
    feed-next more =
        feed-chunk kind id bytes meta cs partial header part seen i known h new (within_order i lt)
        ∙ rw (lt→ltb (suc (length seen)) count more)

    feed-last :
        suc (length seen) ≡ count
        → ((k : ℕ) → k < count → has (i ∷ seen) k ≡ true)
        → feed partial (chunk kind id bytes meta cs i).0 (chunk kind id bytes meta cs i).1
          ≡ (Dict.remove partial id, some (header, bytes))
    unfolding chunk part'
    feed-last full all =
        feed-chunk kind id bytes meta cs partial header part seen i known h new (within_order i lt)
        ∙ rw (
          ge→ltb (suc (length seen)) count (omega arith),
          Holds-all kind id bytes meta cs header part' (i ∷ seen) pos part'-Holds all,
        )

    part_of-put :
        (k : ℕ)
        → part_of
            (Dict.put partial id part')
            (ref kind id bytes meta cs k)
            (head kind id bytes meta cs k)
          ≡ part'
    unfolding part_of
    part_of-put k = rw (get-put_self partial id part', part_of)

  fits_next :
      (i k : ℕ) (seen rest : List ℕ)
      → Distinct (i ∷ k ∷ rest)
      → ((x : ℕ) → has (i ∷ k ∷ rest) x ≡ true → (x < count) × (has seen x ≡ false))
      → (x : ℕ) → has (k ∷ rest) x ≡ true
      → (x < count) × (has (i ∷ seen) x ≡ false)
  unfolding has
  fits_next i k seen rest distinct fits x h = ground (arith, fits x, distinct.0)

  all_next :
      (i : ℕ) (seen rest : List ℕ) (x : ℕ)
      → (has seen x || has (i ∷ rest) x) ≡ true
      → (has (i ∷ seen) x || has rest x) ≡ true
  unfolding has
  all_next i seen rest x h = ground arith

  finish :
      (partial : List (String × PartialBlob M)) (header : Header M) (part : PartialBlob M)
      (seen : List ℕ) (i : ℕ) (rest : List ℕ)
      → part_of partial (ref kind id bytes meta cs i) (head kind id bytes meta cs i) ≡ part
      → Holds kind id bytes meta cs header part seen
      → length seen + suc (length rest) ≡ count
      → Distinct (i ∷ rest)
      → ((k : ℕ) → has (i ∷ rest) k ≡ true → (k < count) × (has seen k ≡ false))
      → ((k : ℕ) → k < count → (has seen k || has (i ∷ rest) k) ≡ true)
      → Finishes partial header (i ∷ rest)
  unfolding feed_all
  finish partial header part seen i [] known h full distinct fits all =
      let (lt, new) = fits i (has_head i []) in
      let done =
        feed-last partial header part seen i known h new lt (omega arith)
          (λ k below. or_false (has (i ∷ seen) k) (all_next i seen [] k (all k below))) in
      record { returned = rw done; left = λ j. rw done (get-remove partial id j) }
  finish partial header part seen i (k ∷ rest) known h full distinct fits all =
      let (lt, new) = fits i (has_head i (k ∷ rest)) in
      let next = feed-next partial header part seen i known h new lt (omega arith) in
      let c = chunk kind id bytes meta cs i in
      let p' = part' partial header part seen i known h new lt in
      let ih =
        finish (Dict.put partial id p') header p' (i ∷ seen) k rest
          (part_of-put partial header part seen i known h new lt k)
          (part'-Holds partial header part seen i known h new lt) (omega arith) distinct.1
          (fits_next i k seen rest distinct fits)
          (λ x below. all_next i seen (k ∷ rest) x (all x below)) in
      let step = feed_all-cons partial c.0 c.1 (sent (k ∷ rest)) next in
      record {
        returned = ap (λ (t : Fed). t.1) step ∙ ap (◌∷◌ none) ih.returned;
        left = λ j.
            ap (λ (t : Fed). Dict.get t.0 j) step
            ∙ ih.left j
            ∙ ground (arith, get-put partial id p' j);
      }

  -- The chunks of a blob, each once and in any order, fed to a reassembler that knows nothing of
  -- the blob: every call but the last returns nothing, the last returns the header of the first
  -- chunk fed with exactly the blob's bytes, and the reassembler is left as it was, for each id.
  pub feed-chunks :
      (partial : List (String × PartialBlob M)) (i : ℕ) (rest : List ℕ)
      → Dict.get partial id ≡ none
      → IsOrder count (i ∷ rest)
      → Finishes partial (chunk kind id bytes meta cs i).0 (i ∷ rest)
  unfolding chunk part_of has
  feed-chunks partial i rest unknown order =
      finish partial (head kind id bytes meta cs i)
        (fresh (ref kind id bytes meta cs i) (head kind id bytes meta cs i)) [] i rest
        (rw (unknown, part_of)) (fresh-Holds kind id bytes meta cs (head kind id bytes meta cs i) i)
        (omega (arith, order.length_is)) order.distinct (λ k mem. (order.below k mem, refl))
        (λ k below. order.every k below)

  chunks_from-sent : (i n : ℕ) → chunks_from kind id bytes meta cs i n ≡ sent (upto i n)
  unfolding chunks_from
  chunks_from-sent i zero = refl
  chunks_from-sent i (suc n) = ap (◌∷◌ (chunk kind id bytes meta cs i)) (chunks_from-sent (i + 1) n)

  chunk_blob-sent : chunk_blob kind id bytes meta cs ≡ sent (upto 0 count)
  unfolding chunk_blob
  chunk_blob-sent = chunks_from-sent 0 count

  -- What `chunk_blob` yields, fed in its own order to a reassembler that knows nothing of the
  -- blob, completes it at the last chunk, with chunk 0's header and exactly the blob's bytes.
  pub feed-chunk_blob :
      (partial : List (String × PartialBlob M))
      → Dict.get partial id ≡ none
      → (feed_all partial (chunk_blob kind id bytes meta cs)).1
        ≡ last_completes (upto 0 count) ((chunk kind id bytes meta cs 0).0, bytes)
  feed-chunk_blob partial unknown =
      let split = upto-split count (total_pos (length bytes) cs) in
      let order : IsOrder count (0 ∷ upto 1 (count - 1)) = rw (← split) (upto-IsOrder count) in
      ap (λ (ms : List (Header M × Bytes)). (feed_all partial ms).1)
        (chunk_blob-sent ∙ ap sent split)
      ∙ (feed-chunks partial 0 (upto 1 (count - 1)) unknown order).returned
      ∙ ap (λ (o : List ℕ). last_completes o ((chunk kind id bytes meta cs 0).0, bytes)) (sym split)
