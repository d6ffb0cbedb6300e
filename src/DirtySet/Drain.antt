-- ===== src/DirtySet/Drain.antt =====
-- What `drain` hands out, and that putting it back after a failed send loses nothing.
use qcbridge.Prelude.{
  ◌≡◌, refl, Bool, true, false, Option, none, some, List, [], ◌∷◌, ◌++◌, String, string_eq, arith,
  if◌then◌else◌,
}
use mathlib.Core.List.{append_assoc, append-nil}
use text.Mathlib.TextEquality.{eq_iff}
use qcbridge.Dict
use qcbridge.Dict.{keys, has-keys, get-put}
use qcbridge.KeySet.{has, has-add, has-discard, Distinct}
use qcbridge.DirtySet.{
  DirtySet, Entry, Tier, Drained, dirty, tombstone, is_tombstone, drain, drain_loop, drain_entry,
  requeue, requeue_tombstone, ratchet,
}
use qcbridge.DirtySet.Ratchet.{get-mark}

-- The tier of an entry that is no tombstone.
abbrev pub tier_of : Option Entry → Option Tier
tier_of (some (dirty tier)) = some tier
tier_of _ = none

-- Whether the peer may know a uuid after its entry is drained.
abbrev pub known_after : Option Entry → Bool → Bool
known_after none known = known
known_after (some tombstone) known = false
known_after (some (dirty tier)) known = true

tombs : List (String × Entry) → List String
tombs [] = []
tombs ((uuid, tombstone) ∷ es) = uuid ∷ tombs es
tombs ((uuid, dirty tier) ∷ es) = tombs es

dirties : List (String × Entry) → List (String × Tier)
dirties [] = []
dirties ((uuid, tombstone) ∷ es) = dirties es
dirties ((uuid, dirty tier) ∷ es) = (uuid, tier) ∷ dirties es

drain_loop-tombstones :
    (es : List (String × Entry)) (r : Drained)
    → (drain_loop es r).tombstones ≡ r.tombstones ++ tombs es
unfolding drain_loop tombs
drain_loop-tombstones [] r = rw append-nil
drain_loop-tombstones ((uuid, tombstone) ∷ es) r =
    rw (drain_loop-tombstones es (drain_entry uuid tombstone r), append_assoc)
drain_loop-tombstones ((uuid, dirty tier) ∷ es) r =
    drain_loop-tombstones es (drain_entry uuid (dirty tier) r)

drain_loop-changed :
    (es : List (String × Entry)) (r : Drained) → (drain_loop es r).changed ≡ r.changed ++ dirties es
unfolding drain_loop dirties
drain_loop-changed [] r = rw append-nil
drain_loop-changed ((uuid, tombstone) ∷ es) r = drain_loop-changed es (drain_entry uuid tombstone r)
drain_loop-changed ((uuid, dirty tier) ∷ es) r =
    rw (drain_loop-changed es (drain_entry uuid (dirty tier) r), append_assoc)

has-tombs :
    (es : List (String × Entry)) (j : String)
    → Distinct (keys es)
    → has (tombs es) j ≡ is_tombstone (Dict.get es j)
unfolding tombs has is_tombstone Dict.get
has-tombs [] j h = refl
has-tombs ((uuid, tombstone) ∷ es) j h = ground (arith, has-tombs es j h.1)
has-tombs ((uuid, dirty tier) ∷ es) j h =
    ground (arith, has-tombs es j h.1, has-keys es uuid, eq_iff uuid j)

get-dirties :
    (es : List (String × Entry)) (j : String)
    → Distinct (keys es)
    → Dict.get (dirties es) j ≡ tier_of (Dict.get es j)
unfolding dirties has Dict.get
get-dirties [] j h = refl
get-dirties ((uuid, dirty tier) ∷ es) j h = ground (arith, get-dirties es j h.1)
get-dirties ((uuid, tombstone) ∷ es) j h =
    ground (arith, get-dirties es j h.1, has-keys es uuid, eq_iff uuid j)

tombs_among_keys :
    (es : List (String × Entry)) (j : String) → has (keys es) j ≡ false → has (tombs es) j ≡ false
unfolding tombs has
tombs_among_keys [] j h = refl
tombs_among_keys ((uuid, tombstone) ∷ es) j h = ground (arith, tombs_among_keys es j)
tombs_among_keys ((uuid, dirty tier) ∷ es) j h = ground (arith, tombs_among_keys es j)

Distinct-tombs : (es : List (String × Entry)) → Distinct (keys es) → Distinct (tombs es)
unfolding tombs
Distinct-tombs [] h = tt
Distinct-tombs ((uuid, tombstone) ∷ es) h = (tombs_among_keys es uuid h.0, Distinct-tombs es h.1)
Distinct-tombs ((uuid, dirty tier) ∷ es) h = Distinct-tombs es h.1

has-dirties :
    (es : List (String × Entry)) (j : String)
    → has (keys es) j ≡ false
    → has (keys (dirties es)) j ≡ false
unfolding dirties has
has-dirties [] j h = refl
has-dirties ((uuid, tombstone) ∷ es) j h = ground (arith, has-dirties es j)
has-dirties ((uuid, dirty tier) ∷ es) j h = ground (arith, has-dirties es j)

Distinct-dirties : (es : List (String × Entry)) → Distinct (keys es) → Distinct (keys (dirties es))
unfolding dirties
Distinct-dirties [] h = tt
Distinct-dirties ((uuid, tombstone) ∷ es) h = Distinct-dirties es h.1
Distinct-dirties ((uuid, dirty tier) ∷ es) h = (has-dirties es uuid h.0, Distinct-dirties es h.1)

drain_loop-known :
    (es : List (String × Entry)) (r : Drained) (j : String)
    → Distinct (keys es)
    → has (drain_loop es r).known j ≡ known_after (Dict.get es j) (has r.known j)
unfolding drain_loop has Dict.get
drain_loop-known [] r j h = refl
drain_loop-known ((uuid, tombstone) ∷ es) r j h = ground (
  arith,
  drain_loop-known es (drain_entry uuid tombstone r) j h.1,
  has-discard r.known uuid j,
  has-keys es uuid,
  eq_iff uuid j,
)
drain_loop-known ((uuid, dirty tier) ∷ es) r j h = ground (
  arith,
  drain_loop-known es (drain_entry uuid (dirty tier) r) j h.1,
  has-add r.known uuid j,
  has-keys es uuid,
  eq_iff uuid j,
)

-- In a set with one entry for each uuid, each entry leaves once, as a tombstone or with its tier, and
-- the set is left empty; a drained uuid joins the uuids that the peer may know, and a tombstoned one
-- leaves them.
pub drain_lem :
    (d : DirtySet) (j : String)
    → Distinct (keys d.entries)
    → ((drain d).0.entries ≡ [])
      × Distinct (drain d).1
      × Distinct (keys (drain d).2)
      × (has (drain d).1 j ≡ is_tombstone (Dict.get d.entries j))
      × (Dict.get (drain d).2 j ≡ tier_of (Dict.get d.entries j))
      × (has (drain d).0.sent j ≡ known_after (Dict.get d.entries j) (has d.sent j))
unfolding drain
drain_lem d j h =
    let r : Drained = record { tombstones = []; changed = []; known = d.sent } in
    (
      refl,
      rw (drain_loop-tombstones d.entries r) (Distinct-tombs d.entries h),
      rw (drain_loop-changed d.entries r) (Distinct-dirties d.entries h),
      rw (drain_loop-tombstones d.entries r) (has-tombs d.entries j h),
      rw (drain_loop-changed d.entries r) (get-dirties d.entries j h),
      drain_loop-known d.entries r j h,
    )

-- A flush whose every send failed: the drained entries go back, tombstones first.
unfoldable pub requeue_tombstones : DirtySet → List String → DirtySet
unfolding requeue_tombstone
requeue_tombstones d [] = d
requeue_tombstones d (u ∷ us) = requeue_tombstones (requeue_tombstone d u) us

unfoldable pub requeue_changed : DirtySet → List (String × Tier) → DirtySet
unfolding requeue
requeue_changed d [] = d
requeue_changed d ((u, t) ∷ es) = requeue_changed (requeue d u t) es

get-requeue_tombstones :
    (d : DirtySet) (us : List String) (j : String)
    → Dict.get (requeue_tombstones d us).entries j
      ≡ (if has us j then some tombstone else Dict.get d.entries j)
unfolding requeue_tombstones has
get-requeue_tombstones d [] j = refl
get-requeue_tombstones d (u ∷ us) j =
    ground
      (arith, get-requeue_tombstones (requeue_tombstone d u) us j, get-put d.entries u tombstone j)

-- A tier that goes back, over what the entry is by then.
abbrev put_back : Option Tier → Option Entry → Option Entry
put_back none e = e
put_back (some t) e = some (ratchet e t)

get-requeue_changed :
    (d : DirtySet) (es : List (String × Tier)) (j : String)
    → Distinct (keys es)
    → Dict.get (requeue_changed d es).entries j ≡ put_back (Dict.get es j) (Dict.get d.entries j)
unfolding requeue_changed has Dict.get
get-requeue_changed d [] j h = refl
get-requeue_changed d ((u, t) ∷ es) j h = ground (
  arith,
  get-requeue_changed (requeue d u t) es j h.1,
  get-mark d u t j,
  has-keys es u,
  eq_iff u j,
)

Distinct-changed : (d : DirtySet) → Distinct (keys d.entries) → Distinct (keys (drain d).2)
unfolding drain
Distinct-changed d h = rw drain_loop-changed (Distinct-dirties d.entries h)

put_back_all :
    (e : Option Entry) → put_back (tier_of e) (if is_tombstone e then some tombstone else none) ≡ e
unfolding is_tombstone ratchet
put_back_all e = ground arith

-- If every send of a flush fails and each drained entry is put back, every uuid has the entry
-- again that it had before the drain.
pub drain-requeue :
    (d : DirtySet) (j : String)
    → Distinct (keys d.entries)
    → Dict.get (requeue_changed (requeue_tombstones (drain d).0 (drain d).1) (drain d).2).entries j
      ≡ Dict.get d.entries j
unfolding Dict.get
drain-requeue d j h = ground (
  arith,
  get-requeue_changed (requeue_tombstones (drain d).0 (drain d).1) (drain d).2 j
      (Distinct-changed d h),
  get-requeue_tombstones (drain d).0 (drain d).1 j,
  drain_lem d j h,
  put_back_all (Dict.get d.entries j),
)
