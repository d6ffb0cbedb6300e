-- ===== src/Resync/Repair.antt =====
-- What a plan names, and that carrying it out makes the two inventories agree.
use qcbridge.Prelude.{
  ◌≡◌, refl, ap, ◌∙◌, Bool, true, false, not, ◌&&◌, ◌||◌, Option, none, some, List, [], ◌∷◌, ◌++◌,
  String, string_eq, ◌==◌, if◌then◌else◌, arith, is_some, Option-cases, inl, inr,
}
use text.Mathlib.TextEquality.{eq_iff}
use qcbridge.Dict
use qcbridge.Dict.{keys, has-keys}
use qcbridge.KeySet.{has, minus, has-minus, has-append, to_set, has-to_set}
use qcbridge.Sorting.{sorted, has-sorted}
use qcbridge.Resync.{
  DeltaPlan, Need, send_again, check_hash, in_step, need, hash_of, plan_uuid, plan_loop, plan_delta,
  scenes_differ, empty_plan,
}

abbrev pub is_resend : Need → Bool
is_resend send_again = true
is_resend _ = false

abbrev pub is_verify : Need → Bool
is_verify check_hash = true
is_verify _ = false

plan_uuid-resend :
    (n : Need) (u : String) (p : DeltaPlan) (j : String)
    → has (plan_uuid n u p).resend j ≡ (has p.resend j || is_resend n && u == j)
unfolding plan_uuid has
plan_uuid-resend send_again u p j = ground (arith, has-append p.resend (u ∷ []) j)
plan_uuid-resend check_hash u p j = ground arith
plan_uuid-resend in_step u p j = ground arith

plan_uuid-verify :
    (n : Need) (u : String) (p : DeltaPlan) (j : String)
    → has (plan_uuid n u p).verify j ≡ (has p.verify j || is_verify n && u == j)
unfolding plan_uuid has
plan_uuid-verify send_again u p j = ground arith
plan_uuid-verify check_hash u p j = ground (arith, has-append p.verify (u ∷ []) j)
plan_uuid-verify in_step u p j = ground arith

plan_uuid-tombs : (n : Need) (u : String) (p : DeltaPlan) → (plan_uuid n u p).tombs ≡ p.tombs
unfolding plan_uuid
plan_uuid-tombs send_again u p = refl
plan_uuid-tombs check_hash u p = refl
plan_uuid-tombs in_step u p = refl

module _ (hashes : List (String × Option String)) (held : List (String × String)) where
  abbrev pub need_of : String → Need
  need_of u = need (Dict.get held u) (hash_of hashes u)

  plan_loop-resend :
      (us : List String) (p : DeltaPlan) (j : String)
      → has (plan_loop hashes held us p).resend j
        ≡ (has p.resend j || is_resend (need_of j) && has us j)
  unfolding plan_loop has
  plan_loop-resend [] p j = ground arith
  plan_loop-resend (u ∷ us) p j =
      plan_loop-resend us (plan_uuid (need_of u) u p) j
      ∙ ground (arith, plan_uuid-resend (need_of u) u p j, eq_iff u j)

  plan_loop-verify :
      (us : List String) (p : DeltaPlan) (j : String)
      → has (plan_loop hashes held us p).verify j
        ≡ (has p.verify j || is_verify (need_of j) && has us j)
  unfolding plan_loop has
  plan_loop-verify [] p j = ground arith
  plan_loop-verify (u ∷ us) p j =
      plan_loop-verify us (plan_uuid (need_of u) u p) j
      ∙ ground (arith, plan_uuid-verify (need_of u) u p j, eq_iff u j)

  plan_loop-tombs :
      (us : List String) (p : DeltaPlan) → (plan_loop hashes held us p).tombs ≡ p.tombs
  unfolding plan_loop
  plan_loop-tombs [] p = refl
  plan_loop-tombs (u ∷ us) p =
      plan_loop-tombs us (plan_uuid (need_of u) u p) ∙ plan_uuid-tombs (need_of u) u p

  module _ (alive : List String) (host_scene replica_scene gap_lane : String)
      (at_all : List String) where
    abbrev first : DeltaPlan
    first = record empty_plan { tombs = sorted (minus (keys held) alive) }

    abbrev looped : DeltaPlan
    looped = plan_loop hashes held (sorted alive) first

    abbrev planned : DeltaPlan
    planned = record looped {
      at_state =
          if gap_lane == "cold"
          then sorted (to_set (looped.resend ++ looped.verify))
          else sorted (to_set at_all);
    }

    plan_delta-planned :
        scenes_differ host_scene replica_scene ≡ false
        → plan_delta alive hashes held host_scene replica_scene gap_lane at_all ≡ some planned
    unfolding plan_delta
    plan_delta-planned h = ground arith

    -- What a plan names, uuid by uuid.
    pub record Names (p : DeltaPlan) (j : String) : Type 0 where
      pub tombs : has p.tombs j ≡ (not (has alive j) && is_some (Dict.get held j))
      pub resend : has p.resend j ≡ (is_resend (need_of j) && has alive j)
      pub verify : has p.verify j ≡ (is_verify (need_of j) && has alive j)
      pub at_state :
          has p.at_state j
          ≡ (if gap_lane == "cold" then has p.resend j || has p.verify j else has at_all j)

    -- The replica's inventory after the plan: what is sent or checked ends with the host's digest.
    abbrev pub repaired : (String → String) → DeltaPlan → String → Option String
    repaired digest p j =
        if has p.tombs j
        then none
        else if has p.resend j || has p.verify j
        then some (digest j)
        else Dict.get held j

    repaired_uuid :
        (digest : String → String) (p : DeltaPlan) (j : String)
        → ((d : String) → hash_of hashes j ≡ some d → d ≡ digest j)
        → Names p j
        → repaired digest p j ≡ (if has alive j then some (digest j) else none)
    unfolding need
    repaired_uuid digest p j true_hash n = elim (Option-cases (hash_of hashes j)) [
      | inl unknown ↦ ground (arith, n.tombs, n.resend, n.verify)
      | inr (d, known) ↦ elim (Option-cases (Dict.get held j)) [
        | inl lacking ↦ ground (arith, n.tombs, n.resend, n.verify)
        | inr (t, holds) ↦
            ground (arith, n.tombs, n.resend, n.verify, true_hash d known, eq_iff d t)
      ]
    ]

    planned-tombs :
        (j : String) → has planned.tombs j ≡ (not (has alive j) && is_some (Dict.get held j))
    planned-tombs j =
        ap (λ (s : List String). has s j) (plan_loop-tombs (sorted alive) first)
        ∙ has-sorted (minus (keys held) alive) j
        ∙ has-minus (keys held) alive j
        ∙ ap (λ (b : Bool). not (has alive j) && b) (has-keys held j)

    planned-Names : (j : String) → Names planned j
    unfolding has
    planned-Names j = record {
      tombs = planned-tombs j;
      resend = plan_loop-resend (sorted alive) first j ∙ rw has-sorted;
      verify = plan_loop-verify (sorted alive) first j ∙ rw has-sorted;
      at_state = ground (
        arith,
        has-sorted (to_set (looped.resend ++ looped.verify)) j,
        has-to_set (looped.resend ++ looped.verify) j,
        has-append looped.resend looped.verify j,
        has-sorted (to_set at_all) j,
        has-to_set at_all j,
      );
    }

    -- With the same, known scene structure on both ends there is a plan. It buries exactly what only
    -- the replica has, sends what it lacks or holds under another digest, checks what the host has
    -- not hashed, and re-asserts the "@" state of what it sends or checks after a hole on the cold
    -- lane alone, of everything otherwise.
    plan_delta-Names :
        scenes_differ host_scene replica_scene ≡ false
        → (p : DeltaPlan) × (plan_delta alive hashes held host_scene replica_scene gap_lane at_all
            ≡ some p)
          × ((j : String) → Names p j)
    plan_delta-Names h = (planned, plan_delta-planned h, planned-Names)

    -- When the plan is carried out, the replica holds exactly the host's datablocks, each with the
    -- host's digest, provided that the digests that the host remembers are the true ones.
    pub plan_delta-repaired :
        (digest : String → String)
        → ((j d : String) → hash_of hashes j ≡ some d → d ≡ digest j)
        → scenes_differ host_scene replica_scene ≡ false
        → (p : DeltaPlan) × (plan_delta alive hashes held host_scene replica_scene gap_lane at_all
            ≡ some p)
          × ((j : String) → repaired digest p j ≡ (if has alive j then some (digest j) else none))
    plan_delta-repaired digest true_hash h = (
      planned,
      plan_delta-planned h,
      λ j. repaired_uuid digest planned j (true_hash j) (planned-Names j),
    )
