-- ===== src/HostSync/Sampled.antt =====
-- What the visibility sweep remembers, and that it marks a change once.
use qcbridge.Prelude.{
  ℕ, ◌≡◌, refl, ◌∙◌, Bool, false, not, Option, none, some, List, [], ◌∷◌, String, string_eq, ◌==◌,
  ==_refl, arith, if◌then◌else◌, map, All, Option-cases, inl, inr,
}
use text.Mathlib.TextEquality.{eq_iff}
use qcbridge.Dict
use qcbridge.Dict.{get-put, get-put_self}
use qcbridge.DirtySet.{Entry, ratchet, t1, t2}
use qcbridge.DirtySet.Ratchet.{get-mark}
use qcbridge.HostSync.{Host, Sample}
use qcbridge.HostSync.Tick.{touch_ready, sample_one, sweep_visibility}
use qcbridge.KeySet.{has, Distinct}

abbrev pub uuid_of : Sample → String
uuid_of s = s.uuid

-- The host remembers the vector of each sample.
abbrev pub Remembers {ℓ} : {V : Type ℓ} → Host V → List Sample → Type 0
Remembers h samples = All (λ s. Dict.get h.vis_state s.uuid ≡ some s.vector) samples

-- A change of the vector, or the first vector of what is no mesh.
abbrev pub is_changed : Option String → Sample → Bool
is_changed none s = not s.is_mesh
is_changed (some old) s = not (old == s.vector)

-- The entry of a sampled datablock in the dirty set, once its sample is taken.
abbrev pub marked_by {ℓ} : {V : Type ℓ} → Host V → Sample → Option Entry
marked_by h s =
    if is_changed (Dict.get h.vis_state s.uuid) s
    then some (ratchet (Dict.get h.dirty.entries s.uuid) (if s.is_mesh then t2 else t1))
    else Dict.get h.dirty.entries s.uuid

abbrev pub Marks {ℓ} : {V : Type ℓ} → Host V → Host V → List Sample → Type 0
Marks before after samples =
    All (λ s. Dict.get after.dirty.entries s.uuid ≡ marked_by before s) samples

module _ {ℓ} {V : Type ℓ} where
  sample_seen :
      (now : ℕ) (h : Host V) (s : Sample)
      → Dict.get h.vis_state s.uuid ≡ some s.vector
      → sample_one now h s ≡ h
  unfolding sample_one
  sample_seen now h s seen = rw (seen, sample_one, ==_refl s.vector) refl

  sweep_seen :
      (now : ℕ) (samples : List Sample) (h : Host V)
      → Remembers h samples
      → sweep_visibility now h samples ≡ h
  unfolding sweep_visibility
  sweep_seen now [] h seen = refl
  sweep_seen now (s ∷ samples) h seen =
      rw (sample_seen now h s seen.0) (sweep_seen now samples h seen.1)

  vis-sample_one :
      (now : ℕ) (h : Host V) (s : Sample) (j : String)
      → Dict.get (sample_one now h s).vis_state j
        ≡ (if s.uuid == j then some s.vector else Dict.get h.vis_state j)
  unfolding sample_one touch_ready
  vis-sample_one now h s j = elim (Option-cases (Dict.get h.vis_state s.uuid)) [
    | inl first ↦ ground (arith, get-put h.vis_state s.uuid s.vector j)
    | inr (old, held) ↦
        ground (arith, get-put h.vis_state s.uuid s.vector j, eq_iff s.uuid j, eq_iff old s.vector)
  ]

  vis-sweep :
      (now : ℕ) (samples : List Sample) (h : Host V) (j : String)
      → has (map uuid_of samples) j ≡ false
      → Dict.get (sweep_visibility now h samples).vis_state j ≡ Dict.get h.vis_state j
  unfolding sweep_visibility has
  vis-sweep now [] h j other = refl
  vis-sweep now (s ∷ samples) h j other =
      ground (arith, vis-sweep now samples (sample_one now h s) j, vis-sample_one now h s j)

  sweep-Remembers :
      (now : ℕ) (samples : List Sample) (h : Host V)
      → Distinct (map uuid_of samples)
      → Remembers (sweep_visibility now h samples) samples
  unfolding sweep_visibility
  sweep-Remembers now [] h d = tt
  sweep-Remembers now (s ∷ samples) h d = (
    vis-sweep now samples (sample_one now h s) s.uuid d.0
        ∙ vis-sample_one now h s s.uuid
        ∙ ground (arith, ==_refl s.uuid),
    sweep-Remembers now samples (sample_one now h s) d.1,
  )

  dirty-sample_one :
      (now : ℕ) (h : Host V) (s : Sample) (j : String)
      → Dict.get (sample_one now h s).dirty.entries j
        ≡ (if s.uuid == j then marked_by h s else Dict.get h.dirty.entries j)
  unfolding sample_one touch_ready
  dirty-sample_one now h s j = elim (Option-cases (Dict.get h.vis_state s.uuid)) [
    | inl first ↦ ground (arith, get-mark h.dirty s.uuid t1 j, eq_iff s.uuid j)
    | inr (old, held) ↦
        ground (arith, get-mark h.dirty s.uuid t1 j, get-mark h.dirty s.uuid t2 j, eq_iff s.uuid j)
  ]

  dirty-sweep :
      (now : ℕ) (samples : List Sample) (h : Host V) (j : String)
      → has (map uuid_of samples) j ≡ false
      → Dict.get (sweep_visibility now h samples).dirty.entries j ≡ Dict.get h.dirty.entries j
  unfolding sweep_visibility has
  dirty-sweep now [] h j other = refl
  dirty-sweep now (s ∷ samples) h j other =
      ground (arith, dirty-sweep now samples (sample_one now h s) j, dirty-sample_one now h s j)

  -- A sample of another datablock does not change what this one marks.
  marked_by-other :
      (now : ℕ) (h : Host V) (s other : Sample)
      → (s.uuid == other.uuid) ≡ false
      → marked_by (sample_one now h s) other ≡ marked_by h other
  marked_by-other now h s other apart =
      rw (vis-sample_one now h s other.uuid, dirty-sample_one now h s other.uuid, apart) refl

  Marks-from :
      (now : ℕ) (h h' : Host V) (s : Sample) (samples : List Sample)
      → has (map uuid_of samples) s.uuid ≡ false
      → Marks (sample_one now h s) h' samples
      → Marks h h' samples
  unfolding has
  Marks-from now h h' s [] apart m = tt
  Marks-from now h h' s (other ∷ samples) apart m = (
    m.0 ∙ marked_by-other now h s other (ground (arith, eq_iff s.uuid other.uuid, ==_refl s.uuid)),
    Marks-from now h h' s samples (ground arith) m.1,
  )

  sweep-Marks :
      (now : ℕ) (samples : List Sample) (h : Host V)
      → Distinct (map uuid_of samples)
      → Marks h (sweep_visibility now h samples) samples
  unfolding sweep_visibility
  sweep-Marks now [] h d = tt
  sweep-Marks now (s ∷ samples) h d = (
    dirty-sweep now samples (sample_one now h s) s.uuid d.0
        ∙ dirty-sample_one now h s s.uuid
        ∙ ground (arith, ==_refl s.uuid),
    Marks-from now h (sweep_visibility now (sample_one now h s) samples) s samples d.0
        (sweep-Marks now samples (sample_one now h s) d.1),
  )

  -- A sweep whose samples have uuids of their own marks each datablock whose vector is not the one
  -- remembered, a mesh as tier 2 and any other as tier 1, over what the dirty set holds of it; a
  -- mesh that is sampled for the first time is not marked. It then remembers each vector, and a
  -- later sweep that finds the same vectors changes nothing.
  pub sweep_once :
      (now later : ℕ) (samples : List Sample) (h : Host V)
      → Distinct (map uuid_of samples)
      → let swept = sweep_visibility now h samples in
        Marks h swept samples
        × Remembers swept samples
        × (sweep_visibility later swept samples ≡ swept)
  sweep_once now later samples h d =
      let seen = sweep-Remembers now samples h d in
      (
        sweep-Marks now samples h d,
        seen,
        sweep_seen later samples (sweep_visibility now h samples) seen,
      )
