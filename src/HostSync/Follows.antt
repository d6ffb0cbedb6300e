-- ===== src/HostSync/Follows.antt =====
-- Each operation of the host that sends is a run of the protocol of Lanes/Step.antt.
use Prim.Native.Nat.{max}
use qcbridge.Prelude.{
  ℕ, zero, suc, ◌+◌, ◌≤◌, ◌≡◌, refl, Eq, Bool, true, false, not, Option, none, some, [], ◌∷◌,
  String, string_eq, ◌==◌, arith, All, is_some, length, ==_refl, Option-cases, inl, inr,
}
use qcbridge.Dict
use qcbridge.KeySet.{has}
use qcbridge.Blob
use qcbridge.Blob.{Bytes, chunk_blob, chunks_from, total_of}
use qcbridge.HostSync.{
  World, Host, setters_first, pointed, know, put_back, send_tombstone, blob_chunks, queue_and_drain,
  ship, ship_alone, flush_owner, flush_key, flush_t2, ship_first, ship_pointers, scene_entry,
  send_named, send_t1, flush_structural, flush_snapshot, flush_t1, default_chunk_size,
}
use qcbridge.HostSync.Targets.{
  if-lem, option-lem, serialized-lem, after_for-OnlyBlob, ship_first-OnlyBlob, pointed_no_key,
}
use qcbridge.Lanes.{
  Lanes, Meta, Chunk, Fast, tomb, send_logged, after_for, cold_seq_of, queue_blob, drain_uuid,
}
use qcbridge.Lanes.Step.{
  Steps, stay, Steps-trans, Steps-one, is_block_meta, blob_queued, drain_uuid-Steps,
  send_logged-Steps,
}
use qcbridge.Shadow.{Snapshot, diff_and_update}

pub chunks_from-meta :
    (kind id : String) (bytes : Bytes) (meta : Meta) (size i count : ℕ) (P : Meta → Bool)
    → P meta ≡ true
    → All (λ (c : Chunk). P c.0.meta ≡ true) (chunks_from kind id bytes meta size i count)
unfolding chunks_from Blob.chunk
chunks_from-meta kind id bytes meta size i zero P h = tt
chunks_from-meta kind id bytes meta size i (suc count) P h =
    (h, chunks_from-meta kind id bytes meta size (i + 1) count P h)

pub chunk_blob-meta :
    (kind id : String) (bytes : Bytes) (meta : Meta) (size : ℕ) (P : Meta → Bool)
    → P meta ≡ true
    → All (λ (c : Chunk). P c.0.meta ≡ true) (chunk_blob kind id bytes meta size)
unfolding chunk_blob
chunk_blob-meta kind id bytes meta size P h =
    chunks_from-meta kind id bytes meta size 0 (total_of (length bytes) size) P h

module _ {ℓ} {V : Type ℓ} where
  -- From these lanes the protocol leads to those of a host, alone or beside a result.
  abbrev pub Leads : Lanes V → Host V → Type ℓ
  Leads l h = Steps l h.lanes

  abbrev pub LeadsTo {κ} : {B : Type κ} → Lanes V → Host V × B → Type ℓ
  LeadsTo l r = Steps l r.0.lanes

  pub send_tombstone-Leads : (h : Host V) (uuid : String) → LeadsTo h.lanes (send_tombstone h uuid)
  unfolding send_tombstone
  send_tombstone-Leads h uuid =
      let after = after_for h.lanes uuid in
      let s =
        send_logged-Steps h.lanes uuid "tomb" after (tomb uuid after) refl refl (omega arith) in
      if-lem (LeadsTo h.lanes) (send_logged h.lanes uuid "tomb" (tomb uuid after)).1 _ _ s s

  lanes-know : (h : Host V) (uuid : String) (ref : ℕ) → (know h uuid ref).lanes ≡ h.lanes
  unfolding know
  lanes-know h uuid ref = refl

  lanes-put_back :
      (h : Host V) (uuid : String) (old : Option (Snapshot V))
      → (put_back h uuid old).lanes ≡ h.lanes
  unfolding put_back
  lanes-put_back h uuid old = refl

module _ {ℓ} {V : Type ℓ} ⦃e : Eq V⦄ where
  pub blob_queued-Steps :
      (w : World V) (l : Lanes V) (uuid : String) (ref : ℕ) (bytes : Bytes) (digest : String)
      (more : Bool)
      → Steps l (drain_uuid (queue_blob l uuid (blob_chunks w l uuid ref bytes digest more)) uuid).0
  unfolding blob_chunks
  blob_queued-Steps w l uuid ref bytes digest more =
      Steps-trans
        (Steps-one (
          blob_queued uuid _ (
            chunk_blob-meta "t2" _ bytes _ default_chunk_size (is_block_meta uuid) (==_refl uuid))))
        (drain_uuid-Steps _ uuid)

  ship-Leads :
      (w : World V) (h : Host V) (uuid : String) (ref : ℕ) (snapshot : Option (Snapshot V))
      → LeadsTo h.lanes (ship w h uuid ref snapshot)
  unfolding ship queue_and_drain
  ship-Leads w h uuid ref snapshot =
      serialized-lem (LeadsTo h.lanes) (w.serialize ref) _ _ _ stay stay (λ bytes seen.
        if-lem (LeadsTo h.lanes) _ _ _ stay (blob_queued-Steps w h.lanes uuid ref bytes _ h.burst))

  ship_alone-Leads :
      (w : World V) (now : ℕ) (h : Host V) (uuid : String) (snapshot : Option (Snapshot V))
      → Leads h.lanes (ship_alone w now h uuid snapshot)
  unfolding ship_alone
  ship_alone-Leads w now h uuid snapshot =
      option-lem (Leads h.lanes) (Dict.get h.uuid_to_db uuid) _ _ stay (λ ref.
        let s = ship-Leads w h uuid ref snapshot in
        if-lem (Leads h.lanes) (ship w h uuid ref snapshot).1 _ _ s s)

  flush_owner-Leads :
      (w : World V) (now : ℕ) (h : Host V) (uuid : String) (ref : ℕ) (s : Snapshot V)
      → Leads h.lanes (flush_owner w now h uuid ref s)
  unfolding flush_owner know
  flush_owner-Leads w now h uuid ref s = option-lem (Leads h.lanes) (w.owner ref) _ _ stay (λ owner.
      if-lem (Leads h.lanes) (owner.0 == uuid) _ _ stay (ship_alone-Leads w now _ owner.0 none))

  flush_key-Leads :
      (w : World V) (now : ℕ) (h : Host V) (uuid : String) (ref : ℕ)
      (snapshot : Option (Snapshot V))
      → Leads h.lanes (flush_key w now h uuid ref snapshot)
  unfolding flush_key
  flush_key-Leads w now h uuid ref snapshot =
      let seen : Option (Snapshot V) = elim snapshot [
        | none ↦ w.snapshot ref
        | some given ↦ some given
      ] in
      option-lem (Leads h.lanes) seen _ _ stay (λ s. flush_owner-Leads w now h uuid ref s)

  pub flush_t2-Leads :
      (w : World V) (now : ℕ) (h : Host V) (uuid : String) (snapshot : Option (Snapshot V))
      → Leads h.lanes (flush_t2 w now h uuid snapshot)
  unfolding flush_t2
  flush_t2-Leads w now h uuid snapshot =
      option-lem (Leads h.lanes) (Dict.get h.uuid_to_db uuid) _ _ stay (λ ref.
        if-lem (Leads h.lanes) (w.is_key ref) _ _ (flush_key-Leads w now h uuid ref snapshot)
          (ship_alone-Leads w now h uuid snapshot))

  ship_first-Leads :
      (w : World V) (now : ℕ) (h : Host V) (uuid : String) → Leads h.lanes (ship_first w now h uuid)
  unfolding ship_first
  ship_first-Leads w now h uuid =
      if-lem (Leads h.lanes) (has h.lanes.shipped uuid) _ _ stay (flush_t2-Leads w now h uuid none)

  send_named-Leads :
      (w : World V) (h : Host V) (uuid : String) (ref : ℕ) (changes : Snapshot V)
      (old : Option (Snapshot V)) (full : Bool) (after : ℕ)
      → after_for h.lanes uuid ≤ after
      → LeadsTo h.lanes (send_named w h uuid ref changes old full after)
  unfolding send_named put_back
  send_named-Leads w h uuid ref changes old full after le =
      let s =
        send_logged-Steps h.lanes uuid "t1" after
          (Fast.t1 uuid after full (scene_entry w h ref) changes) refl refl le in
      if-lem (LeadsTo h.lanes) _ _ _ s s

  -- What the loop over the pointers leaves: a run, and a number behind every mark of the delta.
  record Pointed (uuid : String) (l : Lanes V) (r : Host V × Option ℕ) : Type ℓ where
    leads : LeadsTo l r
    behind : (a : ℕ) → r.1 ≡ some a → after_for r.0.lanes uuid ≤ a

  Pointed-from :
      (uuid : String) (l : Lanes V) (h : Host V) (r : Host V × Option ℕ)
      → Leads l h
      → Pointed uuid h.lanes r
      → Pointed uuid l r
  Pointed-from uuid l h r s p = record { leads = Steps-trans s p.leads; behind = p.behind }

  ship_first-known :
      (w : World V) (now : ℕ) (h : Host V) (uuid : String) (ref : ℕ)
      → Leads h.lanes (ship_first w now (know h uuid ref) uuid)
  unfolding know
  ship_first-known w now h uuid ref = ship_first-Leads w now _ uuid

  ship_pointers-Pointed :
      (w : World V) (now : ℕ) (uuid : String) (old : Option (Snapshot V)) (changes : Snapshot V)
      (after : ℕ) (h : Host V)
      → after_for h.lanes uuid ≤ after
      → Pointed uuid h.lanes (ship_pointers w now uuid old changes after h)
  unfolding ship_pointers put_back
  ship_pointers-Pointed w now uuid old [] after h le = record {
    leads = stay;
    behind = λ a e. ground arith;
  }
  ship_pointers-Pointed w now uuid old ((path, value) ∷ changes) after h le =
      elim (Option-cases (pointed w path value)) [
        | inl plain ↦
            rw (plain, ship_pointers) (ship_pointers-Pointed w now uuid old changes after h le)
        | inr ((t, ref), points) ↦
            let h' = ship_first w now (know h t ref) t in
            let s = ship_first-known w now h t ref in
            let moved =
              ship_first-OnlyBlob w now h t ref (pointed_no_key w path value t ref points) in
            rw (points, ship_pointers)
              (if-lem (Pointed uuid h.lanes) (is_some (Dict.get h'.lanes.t2_outbox t)) _ _
                (record { leads = s; behind = λ a e. absurd (cc e) })
                (Pointed-from uuid h.lanes h' _ s (
                  ship_pointers-Pointed w now uuid old changes (max after (cold_seq_of h'.lanes t))
                    h' (after_for-OnlyBlob t uuid h.lanes h'.lanes after moved le))))
      ]

  pub send_t1-Leads :
      (w : World V) (now : ℕ) (h : Host V) (uuid : String) (ref : ℕ) (changes : Snapshot V)
      (old : Option (Snapshot V)) (full : Bool)
      → LeadsTo h.lanes (send_t1 w now h uuid ref changes old full)
  unfolding send_t1
  send_t1-Leads w now h uuid ref [] old full = stay
  send_t1-Leads w now h uuid ref (c ∷ cs) old full =
      let changes = setters_first (c ∷ cs) in
      let r = ship_pointers w now uuid old changes (after_for h.lanes uuid) h in
      let p =
        ship_pointers-Pointed w now uuid old changes (after_for h.lanes uuid) h (omega arith) in
      elim (Option-cases r.1) [
        | inl waits ↦ rw (waits, send_t1) p.leads
        | inr (a, ok) ↦
            rw (ok, send_t1)
              (Steps-trans p.leads
                (send_named-Leads w r.0 uuid ref changes old full a (p.behind a ok)))
      ]

  flush_structural-Leads :
      (w : World V) (now : ℕ) (h : Host V) (uuid : String) (ref : ℕ)
      (snapshot fallback : Snapshot V)
      → Leads h.lanes (flush_structural w now h uuid ref snapshot fallback)
  unfolding flush_structural
  flush_structural-Leads w now h uuid ref snapshot fallback =
      let r = ship w h uuid ref (some snapshot) in
      let s = ship-Leads w h uuid ref (some snapshot) in
      if-lem (Leads h.lanes) (w.is_key ref) _ _ (flush_key-Leads w now h uuid ref (some snapshot)) (
        if-lem (Leads h.lanes) r.1 _ _
          (Steps-trans s (send_t1-Leads w now r.0 uuid ref fallback none false)) s)

  flush_snapshot-Leads :
      (w : World V) (now : ℕ) (h : Host V) (uuid : String) (ref : ℕ) (snapshot : Snapshot V)
      → Leads h.lanes (flush_snapshot w now h uuid ref snapshot)
  unfolding flush_snapshot
  flush_snapshot-Leads w now h uuid ref snapshot =
      option-lem (Leads h.lanes) (diff_and_update h.shadow uuid snapshot).1 _ _
        (if-lem (Leads h.lanes) (not (w.used ref)) _ _ stay
          (flush_t2-Leads w now _ uuid (some snapshot)))
        (λ d.
          if-lem (Leads h.lanes) d.structural _ _
            (flush_structural-Leads w now _ uuid ref snapshot d.changes)
            (send_t1-Leads w now _ uuid ref d.changes _ false))

  pub flush_t1-Leads :
      (w : World V) (now : ℕ) (h : Host V) (uuid : String) → Leads h.lanes (flush_t1 w now h uuid)
  unfolding flush_t1
  flush_t1-Leads w now h uuid =
      option-lem (Leads h.lanes) (Dict.get h.uuid_to_db uuid) _ _ stay (λ ref.
        option-lem (Leads h.lanes) (w.snapshot ref) _ _ stay
          (λ snapshot. flush_snapshot-Leads w now h uuid ref snapshot))
