-- ===== src/Blob/Bytes.antt =====
-- Slices and writes of byte strings, position by position.
use Prim.Native.Nat.{min}
use qcbridge.Prelude.{
  ℕ, zero, suc, ◌+◌, ◌-◌, ◌≤◌, ◌<◌, ◌≡◌, refl, ap, ◌∙◌, none, [], ◌∷◌, ◌++◌, arith, ltb,
  if◌then◌else◌, length, length-append, take, drop, replicate, get_elem?,
}
use qcbridge.Blob.{Bytes, slice, splice}

pub get_elem?-drop : (n : ℕ) (xs : Bytes) (k : ℕ) → get_elem? (drop n xs) k ≡ get_elem? xs (n + k)
get_elem?-drop zero xs k = let e : k ≡ 0 + k = omega arith in ap (get_elem? xs) e
get_elem?-drop (suc n) [] k = refl
get_elem?-drop (suc n) (x ∷ xs) k =
    let e : suc (n + k) ≡ suc n + k = omega arith in
    get_elem?-drop n xs k ∙ ap (get_elem? (x ∷ xs)) e

pub get_elem?-take :
    (n : ℕ) (xs : Bytes) (k : ℕ)
    → get_elem? (take n xs) k ≡ (if ltb k n then get_elem? xs k else none)
get_elem?-take zero xs k = ground arith
get_elem?-take (suc n) [] k = ground arith
get_elem?-take (suc n) (x ∷ xs) zero = ground arith
get_elem?-take (suc n) (x ∷ xs) (suc k) = get_elem?-take n xs k ∙ ground arith

pub get_elem?-append :
    (xs ys : Bytes) (k : ℕ)
    → get_elem? (xs ++ ys) k
      ≡ (if ltb k (length xs) then get_elem? xs k else get_elem? ys (k - length xs))
get_elem?-append [] ys k = ground arith
get_elem?-append (x ∷ xs) ys zero = ground arith
get_elem?-append (x ∷ xs) ys (suc k) = get_elem?-append xs ys k ∙ ground arith

pub length-take_le : (n : ℕ) (xs : Bytes) → n ≤ length xs → length (take n xs) ≡ n
length-take_le zero xs h = refl
length-take_le (suc n) [] h = absurd (omega arith)
length-take_le (suc n) (x ∷ xs) h = omega (arith, length-take_le n xs (omega arith))

pub length-drop : (n : ℕ) (xs : Bytes) → length (drop n xs) ≡ length xs - n
length-drop zero xs = omega arith
length-drop (suc n) [] = omega arith
length-drop (suc n) (x ∷ xs) = omega (arith, length-drop n xs)

pub length-replicate : (n b : ℕ) → length (replicate n b) ≡ n
length-replicate zero b = refl
length-replicate (suc n) b = ap suc (length-replicate n b)

-- Two byte strings of one length that agree at every position are equal.
pub bytes_ext :
    (xs ys : Bytes)
    → length xs ≡ length ys
    → ((k : ℕ) → k < length ys → get_elem? xs k ≡ get_elem? ys k)
    → xs ≡ ys
bytes_ext [] [] e h = refl
bytes_ext [] (y ∷ ys) e h = absurd (omega arith)
bytes_ext (x ∷ xs) [] e h = absurd (omega arith)
bytes_ext (x ∷ xs) (y ∷ ys) e h =
    cc (h 0 (omega arith), bytes_ext xs ys (omega arith) (λ k lt. h (suc k) (omega arith)))

pub get_elem?-slice :
    (xs : Bytes) (start size k : ℕ)
    → get_elem? (slice xs start size) k ≡ (if ltb k size then get_elem? xs (start + k) else none)
unfolding slice
get_elem?-slice xs start size k = get_elem?-take size (drop start xs) k ∙ rw get_elem?-drop

length-take-min : (n : ℕ) (xs : Bytes) → length (take n xs) ≡ min n (length xs)
length-take-min zero xs = omega arith
length-take-min (suc n) [] = omega arith
length-take-min (suc n) (x ∷ xs) = omega (arith, length-take-min n xs)

pub length-slice :
    (xs : Bytes) (start size : ℕ) → length (slice xs start size) ≡ min size (length xs - start)
unfolding slice
length-slice xs start size =
    omega (arith, length-take-min size (drop start xs), length-drop start xs)

module _ (buf : Bytes) (offset : ℕ) (payload : Bytes)
    (fits : offset + length payload ≤ length buf) where
  pub length-splice : length (splice buf offset payload) ≡ length buf
  unfolding splice
  length-splice = omega (
    arith,
    length-append (take offset buf) (payload ++ drop (offset + length payload) buf),
    length-append payload (drop (offset + length payload) buf),
    length-take_le offset buf (omega arith),
    length-drop (offset + length payload) buf,
  )

  pub get_elem?-splice :
      (k : ℕ)
      → get_elem? (splice buf offset payload) k ≡ (
          if ltb k offset
          then get_elem? buf k
          else if ltb k (offset + length payload)
          then get_elem? payload (k - offset)
          else get_elem? buf k)
  unfolding splice
  get_elem?-splice k = ground (
    arith,
    get_elem?-append (take offset buf) (payload ++ drop (offset + length payload) buf) k,
    get_elem?-append payload (drop (offset + length payload) buf) (k - offset),
    length-take_le offset buf (omega arith),
    get_elem?-take offset buf k,
    get_elem?-drop (offset + length payload) buf (k - offset - length payload),
    back,
  )
    where
      back :
          offset + length payload ≤ k → offset + length payload + (k - offset - length payload) ≡ k
      back h = omega arith
