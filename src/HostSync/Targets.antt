-- ===== src/HostSync/Targets.antt =====
-- Sending the blob of a pointer's target moves the mark of the target alone.
use Prim.Native.Nat.{max}
use text.Mathlib.TextEquality.{eq_iff}
use qcbridge.Prelude.{
  ℕ, suc, ◌≤◌, ◌≡◌, refl, ◌∙◌, Eq, Bool, true, false, Option, none, some, List, [], ◌∷◌, String,
  string_eq, ◌==◌, arith, if◌then◌else◌, Bool-cases, Option-cases, inl, inr,
}
use qcbridge.Dict
use qcbridge.Dict.{get-put, get-put_self}
use qcbridge.KeySet.{has}
use qcbridge.Blob.{Bytes}
use qcbridge.HostSync.{
  World, Host, Serialized, gone, unsupported, written, know, pointed, pointer_setters,
  queue_and_drain, ship, ship_alone, flush_t2, ship_first,
}
use qcbridge.Lanes.{
  Lanes, Chunk, chunk, answer, cold_accepted, try_cold, cold_seq_of, after_for, chunk_sent,
  drain_chunks, blob_shipped, drain_uuid, queue_blob,
}
use qcbridge.Shadow.{Snapshot}

-- What holds of both branches holds of the conditional.
pub if-lem {ℓ κ} :
    {A : Type ℓ} (P : A → Type κ) (b : Bool) (x y : A) → P x → P y → P (if b then x else y)
if-lem P true x y p q = p
if-lem P false x y p q = q

pub option-lem {ℓ κ μ} :
    {A : Type ℓ} {B : Type κ} (P : B → Type μ) (o : Option A) (x : B) (f : A → B)
    → P x
    → ((a : A) → P (f a))
    → P (elim o [ none ↦ x | some a ↦ f a ])
option-lem P none x f p q = p
option-lem P (some a) x f p q = q a

pub list-lem {ℓ κ μ} :
    {A : Type ℓ} {B : Type κ} (P : B → Type μ) (xs : List A) (x : B) (f : A → List A → B)
    → P x
    → ((a : A) (rest : List A) → P (f a rest))
    → P (elim xs [ [] ↦ x | a ∷ rest ↦ f a rest ])
list-lem P [] x f p q = p
list-lem P (a ∷ rest) x f p q = q a rest

pub serialized-lem {ℓ κ μ} :
    {V : Type ℓ} {B : Type κ} (P : B → Type μ) (s : Serialized V) (x y : B)
    (f : Bytes → Snapshot V → B)
    → P x
    → P y
    → ((bytes : Bytes) (snapshot : Snapshot V) → P (f bytes snapshot))
    → P (elim s [ gone ↦ x | unsupported ↦ y | written bytes snapshot ↦ f bytes snapshot ])
serialized-lem P gone x y f p q r = p
serialized-lem P unsupported x y f p q r = q
serialized-lem P (written bytes snapshot) x y f p q r = r bytes snapshot

module _ {ℓ} {V : Type ℓ} where
  -- The marks of `l'` are those of `l` but for the newest chunk of `uuid`.
  pub record OnlyBlob (uuid : String) (l l' : Lanes V) : Type 0 where
    pub others : (u : String) → (uuid == u) ≡ false → cold_seq_of l' u ≡ cold_seq_of l u
    pub boots : l'.boot_last_seq ≡ l.boot_last_seq
    pub links : l'.link_seq ≡ l.link_seq

  OnlyBlob-refl : (uuid : String) (l : Lanes V) → OnlyBlob uuid l l
  OnlyBlob-refl uuid l = record { others = λ u h. refl; boots = refl; links = refl }

  OnlyBlob-trans :
      (uuid : String) (l m n : Lanes V) → OnlyBlob uuid l m → OnlyBlob uuid m n → OnlyBlob uuid l n
  OnlyBlob-trans uuid l m n p q = record {
    others = λ u h. q.others u h ∙ p.others u h;
    boots = q.boots ∙ p.boots;
    links = q.links ∙ p.links;
  }

  chunk_sent-OnlyBlob :
      (uuid : String) (l : Lanes V) (c : Chunk) (rest : List Chunk)
      → OnlyBlob uuid l (chunk_sent (cold_accepted l (chunk c)) uuid rest)
  unfolding chunk_sent cold_seq_of
  chunk_sent-OnlyBlob uuid l c rest = record {
    others = λ u h. ground (arith, get-put l.uuid_cold_seq uuid (suc l.seq) u);
    boots = refl;
    links = refl;
  }

  drain_chunks-OnlyBlob :
      (uuid : String) (chunks : List Chunk) (l : Lanes V)
      → OnlyBlob uuid l (drain_chunks uuid chunks l).0
  unfolding drain_chunks cold_seq_of
  drain_chunks-OnlyBlob uuid [] l = OnlyBlob-refl uuid l
  drain_chunks-OnlyBlob uuid (c ∷ rest) l = elim (Bool-cases (answer l.answers).1) [
    | inl ok ↦
        rw (drain_chunks, try_cold, ok)
          (OnlyBlob-trans uuid l _ _ (chunk_sent-OnlyBlob uuid l c rest)
            (drain_chunks-OnlyBlob uuid rest (chunk_sent (cold_accepted l (chunk c)) uuid rest)))
    | inr busy ↦
        rw (drain_chunks, try_cold, busy)
          (record { others = λ u h. refl; boots = refl; links = refl })
  ]

  drain_uuid-OnlyBlob : (uuid : String) (l : Lanes V) → OnlyBlob uuid l (drain_uuid l uuid).0
  unfolding drain_uuid blob_shipped cold_seq_of
  drain_uuid-OnlyBlob uuid l =
      option-lem (λ (r : Lanes V × Bool). OnlyBlob uuid l r.0) (Dict.get l.t2_outbox uuid) _ _
        (OnlyBlob-refl uuid l)
        (λ chunks.
          let s = drain_chunks-OnlyBlob uuid chunks l in
          if-lem (λ (r : Lanes V × Bool). OnlyBlob uuid l r.0) (drain_chunks uuid chunks l).1 _ _
            (record { others = s.others; boots = s.boots; links = s.links }) s)

  queued-OnlyBlob :
      (uuid : String) (l : Lanes V) (chunks : List Chunk)
      → OnlyBlob uuid l (drain_uuid (queue_blob l uuid chunks) uuid).0
  unfolding queue_blob cold_seq_of
  queued-OnlyBlob uuid l chunks =
      OnlyBlob-trans uuid l (queue_blob l uuid chunks) _
        (record { others = λ u h. refl; boots = refl; links = refl })
        (drain_uuid-OnlyBlob uuid (queue_blob l uuid chunks))

  -- A number behind the datablock's marks and the target's stays behind them.
  pub after_for-OnlyBlob :
      (uuid u : String) (l l' : Lanes V) (after : ℕ)
      → OnlyBlob uuid l l'
      → after_for l u ≤ after
      → after_for l' u ≤ max after (cold_seq_of l' uuid)
  unfolding after_for
  after_for-OnlyBlob uuid u l l' after s le = elim (Bool-cases (uuid == u)) [
    | inl same ↦ let e : uuid ≡ u = (eq_iff uuid u).0 same in rw (s.boots, s.links, e) (omega arith)
    | inr other ↦ rw (s.boots, s.links, s.others u other) (omega arith)
  ]

module _ {ℓ} {V : Type ℓ} ⦃e : Eq V⦄ where
  abbrev Moves : String → Lanes V → Host V → Type 0
  Moves uuid l h = OnlyBlob uuid l h.lanes

  ship-OnlyBlob :
      (w : World V) (h : Host V) (uuid : String) (ref : ℕ) (snapshot : Option (Snapshot V))
      → OnlyBlob uuid h.lanes (ship w h uuid ref snapshot).0.lanes
  unfolding ship queue_and_drain
  ship-OnlyBlob w h uuid ref snapshot =
      let P : Host V × Bool → Type 0 = λ r. OnlyBlob uuid h.lanes r.0.lanes in
      let still = OnlyBlob-refl uuid h.lanes in
      serialized-lem P (w.serialize ref) _ _ _ still still
        (λ bytes seen. if-lem P _ _ _ still (queued-OnlyBlob uuid h.lanes _))

  ship_alone-OnlyBlob :
      (w : World V) (now : ℕ) (h : Host V) (uuid : String) (snapshot : Option (Snapshot V))
      → Moves uuid h.lanes (ship_alone w now h uuid snapshot)
  unfolding ship_alone
  ship_alone-OnlyBlob w now h uuid snapshot =
      option-lem (Moves uuid h.lanes) (Dict.get h.uuid_to_db uuid) _ _ (OnlyBlob-refl uuid h.lanes)
        (λ ref.
          let s = ship-OnlyBlob w h uuid ref snapshot in
          if-lem (Moves uuid h.lanes) (ship w h uuid ref snapshot).1 _ _ s s)

  -- The target of a pointer, sent whole.
  pub ship_first-OnlyBlob :
      (w : World V) (now : ℕ) (h : Host V) (uuid : String) (ref : ℕ)
      → w.is_key ref ≡ false
      → Moves uuid h.lanes (ship_first w now (know h uuid ref) uuid)
  unfolding ship_first know flush_t2
  ship_first-OnlyBlob w now h uuid ref no_key =
      if-lem (Moves uuid h.lanes) (has h.lanes.shipped uuid) _ _ (OnlyBlob-refl uuid h.lanes) (
        rw (get-put_self h.uuid_to_db uuid ref, flush_t2, no_key)
          (ship_alone-OnlyBlob w now _ uuid none))

  pub pointed_no_key :
      (w : World V) (path : String) (value : V) (uuid : String) (ref : ℕ)
      → pointed w path value ≡ some (uuid, ref)
      → w.is_key ref ≡ false
  unfolding pointed
  pointed_no_key w path value uuid ref h = elim (Option-cases (Dict.get pointer_setters path)) [
    | inl missing ↦ absurd (ground (arith, missing, h))
    | inr (collection, there) ↦ w.target_no_key collection value uuid ref (rw (there, pointed) at h)
  ]
