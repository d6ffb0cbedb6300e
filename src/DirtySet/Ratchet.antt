-- ===== src/DirtySet/Ratchet.antt =====
-- The invariant of a dirty set, and the one-way ratchet of its entries.
use qcbridge.Prelude.{
  ℕ, ◌≤◌, ◌≡◌, refl, ◌≢◌, Bool, true, false, Option, none, some, List, [], ◌∷◌, String, string_eq,
  ◌==◌, ==_refl, arith, if◌then◌else◌, Bool-cases, inl, inr, select,
}
use text.Mathlib.TextEquality.{eq_iff}
use qcbridge.Dict
use qcbridge.Dict.{keys, get-put, get-remove, Distinct-put, Distinct-remove, dict_laws}
use qcbridge.KeySet.{has, has-add, Distinct}
use qcbridge.DirtySet
use qcbridge.DirtySet.{
  DirtySet, Entry, Tier, t1, t2, dirty, tombstone, is_tombstone, drain, max_tier, is_dirty, requeue,
  requeue_tombstone, mark, mark_deleted, ratchet, assume_known, peer_forgot_everything,
}

-- Each uuid has one entry, and a tombstone is kept only for a uuid that the peer may know.
pub record IsValid (d : DirtySet) : Type 0 where
  pub distinct : Distinct (keys d.entries)
  pub known : (u : String) → Dict.get d.entries u ≡ some tombstone → has d.sent u ≡ true

-- Tombstones rank above tier 2, tier 2 above tier 1, and any entry above none.
abbrev pub rank : Option Entry → ℕ
rank none = 0
rank (some (dirty t1)) = 1
rank (some (dirty t2)) = 2
rank (some tombstone) = 3

pub init-IsValid : IsValid DirtySet.init
unfolding Dict.get
init-IsValid = record { distinct = tt; known = λ u h. absurd (ground arith) }

pub get-mark :
    (d : DirtySet) (u : String) (t : Tier) (j : String)
    → Dict.get (mark d u t).entries j
      ≡ (if u == j then some (ratchet (Dict.get d.entries u) t) else Dict.get d.entries j)
unfolding mark ratchet is_tombstone
get-mark d u t j =
    ground (arith, get-put d.entries u (ratchet (Dict.get d.entries u) t) j, eq_iff u j)

max_tier-rank : (a b : Tier) → rank (some (dirty a)) ≤ rank (some (dirty (max_tier a b)))
unfolding max_tier
max_tier-rank t1 t1 = omega arith
max_tier-rank t1 t2 = omega arith
max_tier-rank t2 t = omega arith

ratchet-rank : (e : Option Entry) (t : Tier) → rank e ≤ rank (some (ratchet e t))
unfolding ratchet
ratchet-rank none t = omega arith
ratchet-rank (some tombstone) t = omega arith
ratchet-rank (some (dirty a)) t = max_tier-rank a t

ratchet-rank_tier :
    (e : Option Entry) (t : Tier) → rank (some (dirty t)) ≤ rank (some (ratchet e t))
unfolding ratchet max_tier
ratchet-rank_tier none t = omega arith
ratchet-rank_tier (some tombstone) t1 = omega arith
ratchet-rank_tier (some tombstone) t2 = omega arith
ratchet-rank_tier (some (dirty t1)) t = omega arith
ratchet-rank_tier (some (dirty t2)) t1 = omega arith
ratchet-rank_tier (some (dirty t2)) t2 = omega arith

rank_choice :
    (b : Bool) (e f : Option Entry)
    → (b ≡ true → rank e ≤ rank f)
    → rank e ≤ rank (if b then f else e)
rank_choice true e f h = h refl
rank_choice false e f h = omega arith

-- `mark` never lowers an entry: the marked uuid ends at least at the tier given, and every uuid at
-- least where it was, a tombstone above both tiers.
pub mark-rank :
    (d : DirtySet) (u : String) (t : Tier) (j : String)
    → (rank (some (dirty t)) ≤ rank (Dict.get (mark d u t).entries u))
      × (rank (Dict.get d.entries j) ≤ rank (Dict.get (mark d u t).entries j))
mark-rank d u t j = (
  rw (get-mark, ==_refl u) (ratchet-rank_tier (Dict.get d.entries u) t),
  rw get-mark (
      rank_choice (u == j) _ _
        (λ e. rw ((eq_iff u j).0 e) (ratchet-rank (Dict.get d.entries j) t))),
)

ratchet-dirty :
    (e : Option Entry) (t : Tier) → is_tombstone e ≡ false → some (ratchet e t) ≢ some tombstone
unfolding ratchet is_tombstone
ratchet-dirty none t h e = cc
ratchet-dirty (some tombstone) t h e = cc
ratchet-dirty (some (dirty a)) t h e = cc

mark-known :
    (d : DirtySet) (u : String) (t : Tier) (j : String)
    → IsValid d
    → is_tombstone (Dict.get d.entries u) ≡ false
    → Dict.get (Dict.put d.entries u (ratchet (Dict.get d.entries u) t)) j ≡ some tombstone
    → has d.sent j ≡ true
mark-known d u t j v there h = ground (
  arith,
  get-put d.entries u (ratchet (Dict.get d.entries u) t) j,
  ratchet-dirty (Dict.get d.entries u) t there,
  v.known j,
)

mark-IsValid : (d : DirtySet) (u : String) (t : Tier) → IsValid d → IsValid (mark d u t)
unfolding mark
mark-IsValid d u t v = elim (Bool-cases (is_tombstone (Dict.get d.entries u))) [
  | inl gone ↦ rw (gone, mark) v
  | inr there ↦
      rw (there, mark)
        (record {
          distinct = Distinct-put d.entries u _ v.distinct;
          known = λ j h. mark-known d u t j v there h;
        })
]

mark_deleted-IsValid : (d : DirtySet) (u : String) → IsValid d → IsValid (mark_deleted d u)
unfolding mark_deleted
mark_deleted-IsValid d u v = elim (Bool-cases (has d.sent u)) [
  | inl known ↦
      rw (known, mark_deleted)
        (record {
          distinct = Distinct-put d.entries u tombstone v.distinct;
          known = λ j h. ground (arith, get-put d.entries u tombstone j, eq_iff u j, v.known j);
        })
  | inr fresh ↦
      rw (fresh, mark_deleted)
        (record {
          distinct = Distinct-remove d.entries u v.distinct;
          known = λ j h. ground (arith, get-remove d.entries u j, v.known j);
        })
]

requeue_tombstone-IsValid :
    (d : DirtySet) (u : String) → IsValid d → IsValid (requeue_tombstone d u)
unfolding requeue_tombstone
requeue_tombstone-IsValid d u v = record {
  distinct = Distinct-put d.entries u tombstone v.distinct;
  known = λ j h. ground (arith, get-put d.entries u tombstone j, has-add d.sent u j, v.known j);
}

assume_known-IsValid : (d : DirtySet) (u : String) → IsValid d → IsValid (assume_known d u)
unfolding assume_known
assume_known-IsValid d u v = record {
  distinct = v.distinct;
  known = λ j h. ground (arith, has-add d.sent u j, v.known j);
}

get-forgotten :
    (es : List (String × Entry)) (j : String) → Dict.get (select is_dirty es) j ≢ some tombstone
unfolding Dict.get
get-forgotten [] j h = cc
get-forgotten ((u, tombstone) ∷ es) j h = get-forgotten es j h
get-forgotten ((u, dirty t) ∷ es) j h = ground (arith, get-forgotten es j)

has-forgotten :
    (es : List (String × Entry)) (j : String)
    → has (keys es) j ≡ false
    → has (keys (select is_dirty es)) j ≡ false
unfolding has
has-forgotten [] j h = h
has-forgotten ((u, tombstone) ∷ es) j h = ground (arith, has-forgotten es j)
has-forgotten ((u, dirty t) ∷ es) j h = ground (arith, has-forgotten es j)

Distinct-forgotten :
    (es : List (String × Entry)) → Distinct (keys es) → Distinct (keys (select is_dirty es))
Distinct-forgotten [] h = h
Distinct-forgotten ((u, tombstone) ∷ es) h = Distinct-forgotten es h.1
Distinct-forgotten ((u, dirty t) ∷ es) h = (has-forgotten es u h.0, Distinct-forgotten es h.1)

forgot-IsValid : (d : DirtySet) → IsValid d → IsValid (peer_forgot_everything d)
unfolding peer_forgot_everything
forgot-IsValid d v = record {
  distinct = Distinct-forgotten d.entries v.distinct;
  known = λ j h. absurd (get-forgotten d.entries j h);
}

drain-IsValid : (d : DirtySet) → IsValid (drain d).0
unfolding drain Dict.get
drain-IsValid d = record { distinct = tt; known = λ j h. absurd (ground arith) }

-- The calls that change a dirty set.
pub data Call : Type 0 where
  mark_call requeue_call : String → Tier → Call
  mark_deleted_call assume_known_call requeue_tombstone_call : String → Call
  drain_call forgot_call : Call

unfoldable pub after : DirtySet → Call → DirtySet
unfolding requeue
after d (mark_call u t) = mark d u t
after d (requeue_call u t) = requeue d u t
after d (mark_deleted_call u) = mark_deleted d u
after d (assume_known_call u) = assume_known d u
after d (requeue_tombstone_call u) = requeue_tombstone d u
after d drain_call = (drain d).0
after d forgot_call = peer_forgot_everything d

after-IsValid : (d : DirtySet) (c : Call) → IsValid d → IsValid (after d c)
unfolding after
after-IsValid d (mark_call u t) v = mark-IsValid d u t v
after-IsValid d (requeue_call u t) v = mark-IsValid d u t v
after-IsValid d (mark_deleted_call u) v = mark_deleted-IsValid d u v
after-IsValid d (assume_known_call u) v = assume_known-IsValid d u v
after-IsValid d (requeue_tombstone_call u) v = requeue_tombstone-IsValid d u v
after-IsValid d drain_call v = drain-IsValid d
after-IsValid d forgot_call v = forgot-IsValid d v

unfoldable pub after_all : DirtySet → List Call → DirtySet
unfolding after
after_all d [] = d
after_all d (c ∷ cs) = after_all (after d c) cs

after_all-IsValid : (d : DirtySet) (cs : List Call) → IsValid d → IsValid (after_all d cs)
unfolding after_all
after_all-IsValid d [] v = v
after_all-IsValid d (c ∷ cs) v = after_all-IsValid (after d c) cs (after-IsValid d c v)

-- After any calls on a new set every uuid has at most one entry, and a tombstone stands only for
-- a uuid that the peer may know.
pub calls-IsValid : (cs : List Call) → IsValid (after_all DirtySet.init cs)
calls-IsValid cs = after_all-IsValid DirtySet.init cs init-IsValid
