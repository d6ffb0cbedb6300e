-- ===== src/Resync.antt =====
-- qcbridge/ring1/resync.py: the plan that brings the replica's inventory to the host's.
pub mod Repair
use qcbridge.Prelude.{
  ℕ, ◌+◌, Bool, true, false, not, ◌&&◌, ◌||◌, Option, none, some, List, [], ◌∷◌, ◌++◌, String,
  string_eq, ◌==◌, if◌then◌else◌, length,
}
use qcbridge.Dict
use qcbridge.Dict.{keys}
use qcbridge.KeySet.{to_set, minus}
use qcbridge.Sorting.{sorted}

pub record DeltaPlan : Type 0 where
  pub tombs : List String
  pub resend : List String
  pub verify : List String
  pub scene_t1 : Bool
  pub at_state : List String

-- `DeltaPlan()`
abbrev pub empty_plan : DeltaPlan
empty_plan = record { tombs = []; resend = []; verify = []; scene_t1 = true; at_state = [] }

-- The truth of a list.
abbrev pub nonempty {ℓ} : {A : Type ℓ} → List A → Bool
nonempty [] = false
nonempty (x ∷ xs) = true

-- The property `empty`, and `__len__`
unfoldable pub is_empty : DeltaPlan → Bool
is_empty p = not (nonempty p.tombs || nonempty p.resend || nonempty p.verify)

unfoldable pub size : DeltaPlan → ℕ
size p = length p.tombs + length p.resend + length p.verify

-- `host_hash.get(uuid)`, where an entry may hold `None`.
unfoldable pub hash_of : List (String × Option String) → String → Option String
unfolding Dict.get
hash_of hashes uuid = elim (Dict.get hashes uuid) [ none ↦ none | some digest ↦ digest ]

-- What the loop does with one uuid.
pub data Need : Type 0 where
  send_again check_hash in_step : Need

unfoldable pub need : Option String → Option String → Need
need none ours = send_again
need (some theirs) none = check_hash
need (some theirs) (some ours) = if not (ours == theirs) then send_again else in_step

unfoldable pub plan_uuid : Need → String → DeltaPlan → DeltaPlan
plan_uuid send_again uuid p = record p { resend = p.resend ++ uuid ∷ [] }
plan_uuid check_hash uuid p = record p { verify = p.verify ++ uuid ∷ [] }
plan_uuid in_step uuid p = p

unfoldable pub plan_loop :
    List (String × Option String) → List (String × String) → List String → DeltaPlan → DeltaPlan
unfolding plan_uuid need hash_of Dict.get
plan_loop hashes held [] p = p
plan_loop hashes held (uuid ∷ uuids) p =
    plan_loop hashes held uuids (plan_uuid (need (Dict.get held uuid) (hash_of hashes uuid)) uuid p)

-- `if not host_scene or not replica_scene or host_scene != replica_scene`
unfoldable pub scenes_differ : String → String → Bool
scenes_differ host replica = host == "" || replica == "" || not (host == replica)

unfoldable pub plan_delta :
    List String
    → List (String × Option String)
    → List (String × String)
    → String
    → String
    → String
    → List String
    → Option DeltaPlan
unfolding plan_loop scenes_differ sorted minus to_set
plan_delta alive hashes held host_scene replica_scene gap_lane at_state_all =
    if scenes_differ host_scene replica_scene
    then none
    else (let first = record empty_plan { tombs = sorted (minus (keys held) alive) } in
        let p = plan_loop hashes held (sorted alive) first in
        if gap_lane == "cold"
        then some (record p { at_state = sorted (to_set (p.resend ++ p.verify)) })
        else some (record p { at_state = sorted (to_set at_state_all) }))
