-- ===== src/Registry.antt =====
-- `IdentityRegistry` of qcbridge/ring1/registry.py: uuid and session uid, both ways.
pub mod Inverse
use qcbridge.Prelude.{
  ℕ, ◌≡◌, refl, ◌≢◌, Bool, true, false, not, ◌&&◌, ◌||◌, Option, none, some, List, [], ◌∷◌, String,
  string_eq, nat_eq, ◌==◌, arith, if◌then◌else◌, is_some, length,
}
use qcbridge.Dict

pub record Registry : Type 0 where
  pub uuid_to_suid : List (String × ℕ)
  pub suid_to_uuid : List (ℕ × String)

-- `__init__`
abbrev pub init : Registry
init = record { uuid_to_suid = []; suid_to_uuid = [] }

pub data Claim : Type 0 where
  claimed collision : Claim

-- The stale entry that `_register` drops first.
unfoldable pub drop_stale : List (String × ℕ) → Option String → String → List (String × ℕ)
unfolding Dict.remove
drop_stale d none uuid = d
drop_stale d (some old) uuid = if not (old == uuid) then Dict.remove d old else d

unfoldable pub register : Registry → String → ℕ → Registry
unfolding drop_stale Dict.get Dict.put
register r uuid suid =
    let old = Dict.get r.suid_to_uuid suid in
    record {
      uuid_to_suid = Dict.put (drop_stale r.uuid_to_suid old uuid) uuid suid;
      suid_to_uuid = Dict.put r.suid_to_uuid suid uuid;
    }

unfoldable pub claim : Registry → String → ℕ → Registry × Claim
unfolding register
claim r uuid suid = elim (Dict.get r.uuid_to_suid uuid) [
  | none ↦ (register r uuid suid, claimed)
  | some holder ↦ if holder == suid then (r, claimed) else (r, collision)
]

unfoldable pub forget_uuid : Registry → String → Registry
unfolding Dict.get Dict.remove
forget_uuid r uuid = elim (Dict.get r.uuid_to_suid uuid) [
  | none ↦ r
  | some suid ↦ record {
    uuid_to_suid = Dict.remove r.uuid_to_suid uuid;
    suid_to_uuid = Dict.remove r.suid_to_uuid suid;
  }
]

unfoldable pub uuid_for : Registry → ℕ → Option String
unfolding Dict.get
uuid_for r suid = Dict.get r.suid_to_uuid suid

unfoldable pub session_uid_for : Registry → String → Option ℕ
unfolding Dict.get
session_uid_for r uuid = Dict.get r.uuid_to_suid uuid

-- `__len__`
unfoldable pub size : Registry → ℕ
size r = length r.uuid_to_suid
