-- ===== src/HostSync/Waiting.antt =====
-- Sending leaves the debouncer as it was.
use Prim.Native.Nat.{max}
use qcbridge.Prelude.{
  ℕ, ◌≡◌, refl, ◌∙◌, Eq, Bool, Option, none, some, [], ◌∷◌, String, string_eq, ◌==◌, is_some,
}
use qcbridge.Dict
use qcbridge.HostSync.{
  World, Host, setters_first, pointed, know, put_back, ship, ship_alone, flush_owner, flush_key,
  flush_t2, ship_first, ship_pointers, scene_entry, send_named, send_t1, queue_and_drain,
}
use qcbridge.HostSync.Targets.{if-lem, option-lem, serialized-lem}
use qcbridge.KeySet.{has}
use qcbridge.Lanes.{Fast, after_for, cold_seq_of, send_logged}
use qcbridge.Shadow.{Snapshot}

module _ {ℓ} {V : Type ℓ} ⦃e : Eq V⦄ where
  debounce-ship :
      (w : World V) (h : Host V) (uuid : String) (ref : ℕ) (snapshot : Option (Snapshot V))
      → (ship w h uuid ref snapshot).0.debounce ≡ h.debounce
  unfolding ship queue_and_drain
  debounce-ship w h uuid ref snapshot =
      let P : Host V × Bool → Type 0 = λ r. r.0.debounce ≡ h.debounce in
      serialized-lem P (w.serialize ref) _ _ _ refl refl
        (λ bytes now_there. if-lem P _ _ _ refl refl)

  debounce-ship_alone :
      (w : World V) (now : ℕ) (h : Host V) (uuid : String) (snapshot : Option (Snapshot V))
      → (ship_alone w now h uuid snapshot).debounce ≡ h.debounce
  unfolding ship_alone
  debounce-ship_alone w now h uuid snapshot =
      let P : Host V → Type 0 = λ x. x.debounce ≡ h.debounce in
      option-lem P (Dict.get h.uuid_to_db uuid) _ _ refl (λ ref.
        let s = debounce-ship w h uuid ref snapshot in
        if-lem P (ship w h uuid ref snapshot).1 _ _ s s)

  debounce-flush_owner :
      (w : World V) (now : ℕ) (h : Host V) (uuid : String) (ref : ℕ) (s : Snapshot V)
      → (flush_owner w now h uuid ref s).debounce ≡ h.debounce
  unfolding flush_owner know
  debounce-flush_owner w now h uuid ref s =
      let P : Host V → Type 0 = λ x. x.debounce ≡ h.debounce in
      option-lem P (w.owner ref) _ _ refl
        (λ owner. if-lem P (owner.0 == uuid) _ _ refl (debounce-ship_alone w now _ owner.0 none))

  debounce-flush_t2 :
      (w : World V) (now : ℕ) (h : Host V) (uuid : String) (snapshot : Option (Snapshot V))
      → (flush_t2 w now h uuid snapshot).debounce ≡ h.debounce
  unfolding flush_t2 flush_key
  debounce-flush_t2 w now h uuid snapshot =
      let P : Host V → Type 0 = λ x. x.debounce ≡ h.debounce in
      option-lem P (Dict.get h.uuid_to_db uuid) _ _ refl (λ ref.
        let seen : Option (Snapshot V) = elim snapshot [
          | none ↦ w.snapshot ref
          | some given ↦ some given
        ] in
        if-lem P (w.is_key ref) _ _
          (option-lem P seen _ _ refl (λ s. debounce-flush_owner w now h uuid ref s))
          (debounce-ship_alone w now h uuid snapshot))

  debounce-ship_first :
      (w : World V) (now : ℕ) (h : Host V) (uuid : String)
      → (ship_first w now h uuid).debounce ≡ h.debounce
  unfolding ship_first
  debounce-ship_first w now h uuid =
      if-lem (λ (x : Host V). x.debounce ≡ h.debounce) (has h.lanes.shipped uuid) _ _ refl
        (debounce-flush_t2 w now h uuid none)

  debounce-ship_pointers :
      (w : World V) (now : ℕ) (uuid : String) (old : Option (Snapshot V)) (changes : Snapshot V)
      (after : ℕ) (h : Host V)
      → (ship_pointers w now uuid old changes after h).0.debounce ≡ h.debounce
  unfolding ship_pointers know put_back
  debounce-ship_pointers w now uuid old [] after h = refl
  debounce-ship_pointers w now uuid old ((path, value) ∷ changes) after h =
      let P : Host V × Option ℕ → Type 0 = λ r. r.0.debounce ≡ h.debounce in
      option-lem P (pointed w path value) _ _
        (debounce-ship_pointers w now uuid old changes after h)
        (λ t.
          let h' = ship_first w now (know h t.0 t.1) t.0 in
          let same = debounce-ship_first w now (know h t.0 t.1) t.0 in
          if-lem P (is_some (Dict.get h'.lanes.t2_outbox t.0)) (put_back h' uuid old, none) _ same
            (debounce-ship_pointers w now uuid old changes (max after (cold_seq_of h'.lanes t.0)) h'
              ∙ same))

  debounce-send_named :
      (w : World V) (h : Host V) (uuid : String) (ref : ℕ) (changes : Snapshot V)
      (old : Option (Snapshot V)) (full : Bool) (after : ℕ)
      → (send_named w h uuid ref changes old full after).0.debounce ≡ h.debounce
  unfolding send_named put_back
  debounce-send_named w h uuid ref changes old full after =
      let P : Host V × Bool → Type 0 = λ r. r.0.debounce ≡ h.debounce in
      if-lem P
        (send_logged h.lanes uuid "t1" (Fast.t1 uuid after full (scene_entry w h ref) changes)).1 _
        _ refl refl

  pub debounce-send_t1 :
      (w : World V) (now : ℕ) (h : Host V) (uuid : String) (ref : ℕ) (changes : Snapshot V)
      (old : Option (Snapshot V)) (full : Bool)
      → (send_t1 w now h uuid ref changes old full).0.debounce ≡ h.debounce
  unfolding send_t1
  debounce-send_t1 w now h uuid ref [] old full = refl
  debounce-send_t1 w now h uuid ref (c ∷ cs) old full =
      let changes = setters_first (c ∷ cs) in
      let r = ship_pointers w now uuid old changes (after_for h.lanes uuid) h in
      let same = debounce-ship_pointers w now uuid old changes (after_for h.lanes uuid) h in
      option-lem (λ (x : Host V × Bool). x.0.debounce ≡ h.debounce) r.1 _ _ same
        (λ a. debounce-send_named w r.0 uuid ref changes old full a ∙ same)
