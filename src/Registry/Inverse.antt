-- ===== src/Registry/Inverse.antt =====
-- The two maps of the registry are inverse to one another, so no two datablocks share a uuid.
use qcbridge.Prelude.{
  ℕ, ◌≡◌, refl, ◌≢◌, ◌⊎◌, not, ◌&&◌, Option, none, some, List, String, string_eq, nat_eq, ◌==◌,
  ==_refl, arith, if◌then◌else◌, Option-cases, Bool-cases, inl, inr,
}
use text.Mathlib.TextEquality.{eq_iff}
use qcbridge.Dict
use qcbridge.Dict.{get-put, get-remove}
use qcbridge.Registry
use qcbridge.Registry.{
  Registry, Claim, claimed, collision, drop_stale, register, claim, forget_uuid, uuid_for,
  session_uid_for,
}

-- A uuid leads to a session uid exactly when that leads back.
pub record IsInverse (r : Registry) : Type 0 where
  pub back : (u : String) (s : ℕ) → session_uid_for r u ≡ some s → uuid_for r s ≡ some u
  pub forth : (u : String) (s : ℕ) → uuid_for r s ≡ some u → session_uid_for r u ≡ some s

pub init-IsInverse : IsInverse Registry.init
unfolding session_uid_for uuid_for
init-IsInverse = record {
  back = λ u s h. absurd (ground arith);
  forth = λ u s h. absurd (ground arith);
}

get-drop_stale :
    (d : List (String × ℕ)) (old : Option String) (u j : String)
    → Dict.get (drop_stale d old u) j ≡ elim old [
      | none ↦ Dict.get d j
      | some o ↦ if not (o == u) && o == j then none else Dict.get d j
    ]
unfolding drop_stale
get-drop_stale d none u j = refl
get-drop_stale d (some o) u j = ground (arith, get-remove d o j)

session_uid_for-register :
    (r : Registry) (u : String) (s : ℕ) (j : String)
    → session_uid_for (register r u s) j ≡ (
        if u == j then some s else elim (uuid_for r s) [
          | none ↦ session_uid_for r j
          | some o ↦ if not (o == u) && o == j then none else session_uid_for r j
        ])
unfolding session_uid_for uuid_for register
session_uid_for-register r u s j = ground (
  arith,
  get-put (drop_stale r.uuid_to_suid (Dict.get r.suid_to_uuid s) u) u s j,
  get-drop_stale r.uuid_to_suid (Dict.get r.suid_to_uuid s) u j,
)

uuid_for-register :
    (r : Registry) (u : String) (s k : ℕ)
    → uuid_for (register r u s) k ≡ (if s == k then some u else uuid_for r k)
unfolding uuid_for register
uuid_for-register r u s k = get-put r.suid_to_uuid s u k

-- A new uuid for a session uid that has none, and for one whose older uuid is dropped.
register-back :
    (r : Registry) (u : String) (s : ℕ) (j : String) (k : ℕ)
    → IsInverse r
    → session_uid_for (register r u s) j ≡ some k
    → uuid_for (register r u s) k ≡ some j
register-back r u s j k v h = elim (Option-cases (uuid_for r s)) [
  | inl fresh ↦
      ground
        (arith, session_uid_for-register r u s j, uuid_for-register r u s k, eq_iff u j, v.back j k)
  | inr (o, held) ↦ ground (
    arith,
    session_uid_for-register r u s j,
    uuid_for-register r u s k,
    eq_iff u j,
    eq_iff o j,
    eq_iff o u,
    v.back j k,
  )
]

register-forth :
    (r : Registry) (u : String) (s : ℕ) (j : String) (k : ℕ)
    → session_uid_for r u ≡ none
    → IsInverse r
    → uuid_for (register r u s) k ≡ some j
    → session_uid_for (register r u s) j ≡ some k
register-forth r u s j k new v h = elim (Option-cases (uuid_for r s)) [
  | inl fresh ↦
      ground (
        arith,
        session_uid_for-register r u s j,
        uuid_for-register r u s k,
        eq_iff u j,
        v.forth j k,
      )
  | inr (o, held) ↦ ground (
    arith,
    session_uid_for-register r u s j,
    uuid_for-register r u s k,
    eq_iff u j,
    eq_iff o j,
    eq_iff o u,
    v.forth j k,
    v.forth j s,
  )
]

register-IsInverse :
    (r : Registry) (u : String) (s : ℕ)
    → session_uid_for r u ≡ none
    → IsInverse r
    → IsInverse (register r u s)
register-IsInverse r u s new v = record {
  back = λ j k h. register-back r u s j k v h;
  forth = λ j k h. register-forth r u s j k new v h;
}

-- A claim, accepted or not, keeps the two maps inverse.
pub claim-IsInverse : (r : Registry) (u : String) (s : ℕ) → IsInverse r → IsInverse (claim r u s).0
unfolding claim session_uid_for
claim-IsInverse r u s v = elim (Option-cases (Dict.get r.uuid_to_suid u)) [
  | inl new ↦ rw (new, claim) (register-IsInverse r u s new v)
  | inr (holder, held) ↦ elim (Bool-cases (holder == s)) [
    | inl same ↦ rw (held, same, claim) v
    | inr other ↦ rw (held, other, claim) v
  ]
]

-- `claim` succeeds exactly when no other datablock carries the uuid, and then the two lead to one
-- another; where another carries it, it answers a collision and the registry is unchanged.
pub claim_lem :
    (r : Registry) (u : String) (s : ℕ)
    → IsInverse r
    → ((session_uid_for r u ≡ none) ⊎ (session_uid_for r u ≡ some s))
        × ((claim r u s).1 ≡ claimed)
        × (session_uid_for (claim r u s).0 u ≡ some s)
        × (uuid_for (claim r u s).0 s ≡ some u)
      ⊎ ((claim r u s).1 ≡ collision)
        × ((claim r u s).0 ≡ r)
        × ((holder : ℕ) × (session_uid_for r u ≡ some holder) × (holder ≢ s))
unfolding claim session_uid_for
claim_lem r u s v = elim (Option-cases (Dict.get r.uuid_to_suid u)) [
  | inl new ↦
      rw (new, claim)
        (inl (
          inl refl,
          refl,
          ground (arith, session_uid_for-register r u s u, ==_refl u),
          ground (arith, uuid_for-register r u s s),
        ))
  | inr (holder, held) ↦ elim (Bool-cases (holder == s)) [
    | inl same ↦
        rw (held, same, claim)
          (inl (inr (ground arith), refl, ground arith, ground (arith, v.back u s)))
    | inr other ↦ rw (held, other, claim) (inr (refl, refl, (holder, refl, ground arith)))
  ]
]

get-forget_back :
    (r : Registry) (u : String) (h : ℕ) (j : String) (k : ℕ)
    → IsInverse r
    → session_uid_for r u ≡ some h
    → (if u == j then none else session_uid_for r j) ≡ some k
    → (if h == k then none else uuid_for r k) ≡ some j
get-forget_back r u h j k v held e = ground (arith, eq_iff u j, v.back j k, v.back u h)

get-forget_forth :
    (r : Registry) (u : String) (h : ℕ) (j : String) (k : ℕ)
    → IsInverse r
    → session_uid_for r u ≡ some h
    → (if h == k then none else uuid_for r k) ≡ some j
    → (if u == j then none else session_uid_for r j) ≡ some k
get-forget_forth r u h j k v held e = ground (arith, eq_iff u j, v.forth j k, v.back u h)

-- Forgetting a uuid keeps the two maps inverse.
pub forget_uuid-IsInverse : (r : Registry) (u : String) → IsInverse r → IsInverse (forget_uuid r u)
unfolding forget_uuid session_uid_for uuid_for
forget_uuid-IsInverse r u v = elim (Option-cases (Dict.get r.uuid_to_suid u)) [
  | inl absent ↦ rw (absent, forget_uuid) v
  | inr (h, held) ↦
      rw (held, forget_uuid)
        (record {
          back = λ j k e. rw get-remove (get-forget_back r u h j k v held (rw get-remove at e));
          forth = λ j k e. rw get-remove (get-forget_forth r u h j k v held (rw get-remove at e));
        })
]
