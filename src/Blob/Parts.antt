-- ===== src/Blob/Parts.antt =====
-- What a partial blob holds while the chunks of qcbridge/ring1/protocol.py `BlobReassembler` arrive.
use native.Mathlib.Nat.{div-mul-le_self, lt-div-mul-add, mod-lt, div-add-mod', mul-le-mul, le_refl}
use native.Mathlib.Decide.{dec_lt}
use qcbridge.Prelude.{
  ℕ, zero, suc, ◌+◌, ◌-◌, ◌*◌, ◌/◌, ◌%◌, ◌≤◌, ◌<◌, ◌≡◌, refl, ap, ◌∙◌, none, some, List, [], ◌∷◌,
  arith, ltb, String, string_eq, nat_eq, eqb_iff, ◌==◌, true, false, if◌then◌else◌, length,
  get_elem?, Bool-cases, inl, inr,
}
use qcbridge.Dict
use qcbridge.Dict.{get-put, get-put_self, get-remove}
use qcbridge.KeySet.{has, add, add-new}
use qcbridge.Blob.{
  Bytes, BlobRef, Header, PartialBlob, slice, splice, total_of, fresh, part_of, filled, feed_chunk,
  feed, offset_of,
}
use qcbridge.Blob.Bytes.{
  get_elem?-slice, length-slice, length-splice, get_elem?-splice, bytes_ext, length-replicate,
}

-- Every chunk starts inside the data, and the chunks reach its end.
pub total_within : (len cs i : ℕ) → 0 < cs → i < total_of len cs → i * cs ≤ len
unfolding total_of
total_within len cs zero h lt = omega arith
total_within len cs (suc i) h lt =
    let q = (len + cs - 1) / cs in
    let below : suc i + 1 ≤ q = omega arith in
    omega (arith, mul-le-mul below (le_refl cs), div-mul-le_self (len + cs - 1) cs)

pub total_reaches : (len cs k : ℕ) → 0 < cs → k < len → k / cs < total_of len cs
unfolding total_of
total_reaches len cs k h lt =
    let q = (len + cs - 1) / cs in
    elim (dec_lt (k / cs) q) [
      | yes below ↦ omega arith
      | no above ↦
          let le : q ≤ k / cs = omega arith in
          absurd (
            omega (
              arith,
              mul-le-mul le (le_refl cs),
              div-mul-le_self k cs,
              lt-div-mul-add {a = len + cs - 1} h,
            ))
    ]

pub total_pos : (len cs : ℕ) → 0 < total_of len cs
unfolding total_of
total_pos len cs = omega arith

module _ {ℓ} {M : Type ℓ} (kind id : String) (bytes : Bytes) (meta : M) (cs : ℕ) where
  abbrev pub total : ℕ
  total = total_of (length bytes) cs

  abbrev pub ref : ℕ → BlobRef
  ref i = record { id = id; i = i; n = total; size = length bytes; o = some (i * cs) }

  abbrev pub payload : ℕ → Bytes
  payload i = slice bytes (i * cs) cs

  -- A part that holds the chunks of `seen`.
  pub record Holds (header : Header M) (part : PartialBlob M) (seen : List ℕ) : Type ℓ where
    pub total_is : part.total ≡ total
    pub size_is : part.size ≡ length bytes
    pub header_is : part.header ≡ header
    pub got_is : part.got ≡ seen
    pub length_is : length part.buf ≡ length bytes
    pub bytes_are :
        (i j : ℕ)
        → has seen i ≡ true
        → j < cs
        → i * cs + j < length bytes
        → get_elem? part.buf (i * cs + j) ≡ get_elem? bytes (i * cs + j)

  end_within : (i : ℕ) → i * cs ≤ length bytes → i * cs + length (payload i) ≤ length bytes
  end_within i h = omega (arith, length-slice bytes (i * cs) cs)

  pub fresh-Holds : (header : Header M) (i : ℕ) → Holds header (fresh (ref i) header) []
  unfolding has
  fresh-Holds header i = record {
    total_is = refl;
    size_is = refl;
    header_is = refl;
    got_is = refl;
    length_is = length-replicate (length bytes) 0;
    bytes_are = λ k j h lt in_data. absurd (ground arith);
  }

  -- Inside the chunk that is written, the byte is the data's.
  payload-at :
      (i pos : ℕ)
      → i * cs ≤ pos
      → pos < i * cs + cs
      → get_elem? (payload i) (pos - i * cs) ≡ get_elem? bytes pos
  payload-at i pos le lt =
      let back : i * cs + (pos - i * cs) ≡ pos = omega arith in
      let inside : ltb (pos - i * cs) cs ≡ true = ground arith in
      get_elem?-slice bytes (i * cs) cs (pos - i * cs) ∙ rw (inside, back)

  length-payload-le : (i : ℕ) → length (payload i) ≤ cs
  length-payload-le i = omega (arith, length-slice bytes (i * cs) cs)

  module _ (buf : Bytes) (i pos : ℕ) (same : length buf ≡ length bytes)
      (within : i * cs ≤ length bytes) where
    -- A write makes its own bytes right and spoils none.
    written_kept :
        get_elem? buf pos ≡ get_elem? bytes pos
        → get_elem? (splice buf (i * cs) (payload i)) pos ≡ get_elem? bytes pos
    written_kept g =
        get_elem?-splice buf (i * cs) (payload i) (omega (arith, end_within i within)) pos
        ∙ ground (arith, payload-at i pos, length-payload-le i)

    written_new :
        i * cs ≤ pos
        → pos < i * cs + cs
        → pos < length bytes
        → get_elem? (splice buf (i * cs) (payload i)) pos ≡ get_elem? bytes pos
    written_new le lt in_data =
        get_elem?-splice buf (i * cs) (payload i) (omega (arith, end_within i within)) pos
        ∙ ground (arith, payload-at i pos le lt, length-slice bytes (i * cs) cs)

  pub filled-Holds :
      (header : Header M) (part : PartialBlob M) (seen : List ℕ) (i : ℕ)
      → Holds header part seen
      → has seen i ≡ false
      → i * cs ≤ length bytes
      → Holds header (filled part (ref i) (payload i)) (i ∷ seen)
  unfolding filled has
  filled-Holds header part seen i h new within = record {
    total_is = h.total_is;
    size_is = h.size_is;
    header_is = h.header_is;
    got_is = ap (λ (s : List ℕ). add s i) h.got_is ∙ add-new seen i new;
    length_is =
        length-splice part.buf (i * cs) (payload i)
          (omega (arith, h.length_is, end_within i within))
        ∙ h.length_is;
    bytes_are = λ k j mem lt in_data. elim (Bool-cases (i == k)) [
      | inl same ↦
          let e : i ≡ k = (eqb_iff i k).0 same in
          rw (← e) (
            written_new part.buf i (i * cs + j) h.length_is within (omega arith) (omega arith)
              (rw e in_data))
      | inr other ↦
          written_kept part.buf i (k * cs + j) h.length_is within
            (h.bytes_are k j (ground arith) lt in_data)
    ];
  }

  pub Holds-all :
      (header : Header M) (part : PartialBlob M) (seen : List ℕ)
      → 0 < cs
      → Holds header part seen
      → ((i : ℕ) → i < total → has seen i ≡ true)
      → part.buf ≡ bytes
  Holds-all header part seen pos h all = bytes_ext part.buf bytes h.length_is λ k lt.
      let split : k / cs * cs + k % cs ≡ k = div-add-mod' k cs in
      rw split at (
        h.bytes_are (k / cs) (k % cs) (all (k / cs) (total_reaches (length bytes) cs k pos lt))
          (mod-lt k pos) (rw split lt))

  -- The header of a chunk.
  abbrev pub head : ℕ → Header M
  head i = record { kind = kind; blob = some (ref i); meta = meta }

  pub feed-chunk :
      (partial : List (String × PartialBlob M)) (header : Header M) (part : PartialBlob M)
      (seen : List ℕ) (i : ℕ)
      → part_of partial (ref i) (head i) ≡ part
      → Holds header part seen
      → has seen i ≡ false
      → i * cs ≤ length bytes
      → feed partial (head i) (payload i) ≡ (
          if ltb (suc (length seen)) total
          then (Dict.put partial id (filled part (ref i) (payload i)), none)
          else (Dict.remove partial id, some (header, (filled part (ref i) (payload i)).buf)))
  unfolding feed feed_chunk offset_of
  feed-chunk partial header part seen i known h new within =
      let f = filled-Holds header part seen i h new within in
      rw known (
        ground (arith, h.size_is, h.total_is, h.header_is, end_within i within, ap length f.got_is))
