-- ===== src/DirtySet.antt =====
-- `DirtySet` of qcbridge/ring1/dirtyset.py: what the host still owes the peer, one entry a uuid.
-- Dictionary and set are those of Dict.antt and KeySet.antt.
pub mod Drain
pub mod Ratchet
use qcbridge.Prelude.{
  ℕ, suc, ◌+◌, ◌≤◌, ◌<◌, ◌≡◌, refl, Bool, true, false, not, ◌&&◌, ◌||◌, Option, none, some, List,
  [], ◌∷◌, ◌++◌, String, string_eq, arith, if◌then◌else◌, is_some, select, length,
}
use qcbridge.Dict
use qcbridge.Dict.{keys}
use qcbridge.KeySet.{has, add, discard}

-- `Tier`, an `IntEnum`.
pub data Tier : Type 0 where
  t1 t2 : Tier

-- The values of `_entries`: a `Tier` value or `_TOMBSTONE`.
pub data Entry : Type 0 where
  dirty : Tier → Entry
  tombstone : Entry

pub record DirtySet : Type 0 where
  pub entries : List (String × Entry)
  pub sent : List String

-- `__init__`
abbrev pub init : DirtySet
init = record { entries = []; sent = [] }

-- `max` on the two values.
unfoldable pub max_tier : Tier → Tier → Tier
max_tier t1 t = t
max_tier t2 t = t2

-- `max(current or 0, int(tier))`, where `current` is no tombstone.
unfoldable pub ratchet : Option Entry → Tier → Entry
unfolding max_tier
ratchet none tier = dirty tier
ratchet (some (dirty current)) tier = dirty (max_tier current tier)
ratchet (some tombstone) tier = tombstone

unfoldable pub is_tombstone : Option Entry → Bool
is_tombstone (some tombstone) = true
is_tombstone _ = false

unfoldable pub mark : DirtySet → String → Tier → DirtySet
unfolding is_tombstone ratchet Dict.get Dict.put
mark d uuid tier =
    let current = Dict.get d.entries uuid in
    if is_tombstone current
    then d
    else record d { entries = Dict.put d.entries uuid (ratchet current tier) }

unfoldable pub mark_deleted : DirtySet → String → DirtySet
unfolding has Dict.remove Dict.put
mark_deleted d uuid =
    if not (has d.sent uuid)
    then record d { entries = Dict.remove d.entries uuid }
    else record d { entries = Dict.put d.entries uuid tombstone }

-- The three results of the loop of `drain`.
pub record Drained : Type 0 where
  pub tombstones : List String
  pub changed : List (String × Tier)
  pub known : List String

-- The loop's body for one entry: `tombstones.append`, `dirty.append` and the change of `_sent`.
unfoldable pub drain_entry : String → Entry → Drained → Drained
unfolding discard add
drain_entry uuid tombstone r = record r {
  tombstones = r.tombstones ++ uuid ∷ [];
  known = discard r.known uuid;
}
drain_entry uuid (dirty tier) r = record r {
  changed = r.changed ++ (uuid, tier) ∷ [];
  known = add r.known uuid;
}

unfoldable pub drain_loop : List (String × Entry) → Drained → Drained
unfolding drain_entry
drain_loop [] r = r
drain_loop ((uuid, value) ∷ entries) r = drain_loop entries (drain_entry uuid value r)

unfoldable pub drain : DirtySet → DirtySet × List String × List (String × Tier)
unfolding drain_loop
drain d =
    let r = drain_loop d.entries (record { tombstones = []; changed = []; known = d.sent }) in
    (record { entries = []; sent = r.known }, r.tombstones, r.changed)

unfoldable pub requeue : DirtySet → String → Tier → DirtySet
unfolding mark
requeue d uuid tier = mark d uuid tier

unfoldable pub assume_known : DirtySet → String → DirtySet
unfolding add
assume_known d uuid = record d { sent = add d.sent uuid }

unfoldable pub requeue_tombstone : DirtySet → String → DirtySet
unfolding add Dict.put
requeue_tombstone d uuid = record {
  entries = Dict.put d.entries uuid tombstone;
  sent = add d.sent uuid;
}

-- `v != _TOMBSTONE`
abbrev pub is_dirty : String × Entry → Bool
is_dirty (uuid, tombstone) = false
is_dirty (uuid, dirty tier) = true

unfoldable pub peer_forgot_everything : DirtySet → DirtySet
peer_forgot_everything d = record { entries = select is_dirty d.entries; sent = [] }

abbrev pub is_t1 : String × Entry → Bool
is_t1 (uuid, dirty t1) = true
is_t1 (uuid, _) = false

abbrev pub is_t2 : String × Entry → Bool
is_t2 (uuid, dirty t2) = true
is_t2 (uuid, _) = false

unfoldable pub counts : DirtySet → ℕ × ℕ × ℕ
counts d = (
  length (select is_t1 d.entries),
  length (select is_t2 d.entries),
  length (select (λ e. not (is_dirty e)) d.entries),
)

-- `__len__`
unfoldable pub size : DirtySet → ℕ
size d = length d.entries
