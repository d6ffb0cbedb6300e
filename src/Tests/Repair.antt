-- ===== src/Tests/Repair.antt =====
-- Concrete inputs for the shadow, the resync plan and the viewport: qcbridge/ring1/shadow.py,
-- resync.py, visview.py.
use qcbridge.Prelude.{
  ℕ, ◌≡◌, refl, true, false, not, ◌&&◌, Option, none, some, List, [], ◌∷◌, String, string_eq,
  nat_eq, ◌==◌, if◌then◌else◌, arith,
}
use qcbridge.Dict
use qcbridge.Dict.{keys}
use qcbridge.KeySet.{has, Distinct}
use qcbridge.Resync.{DeltaPlan, hash_of, plan_delta, scenes_differ}
use qcbridge.Resync.Repair.{repaired, plan_delta-repaired}
use qcbridge.Shadow.{Store, Snapshot, diff}
use qcbridge.Shadow.Diff.{write_all, diff-write_all}
use qcbridge.VisView.{VisSig, plan}
use qcbridge.VisView.Plan.{local_after, colls_after, hidden_after, plan_lem}

abbrev hashes : List (String × Option String)
hashes = ("a", some "d1") ∷ ("b", none) ∷ []

abbrev held : List (String × String)
held = ("a", "d0") ∷ ("b", "d2") ∷ ("z", "d9") ∷ []

abbrev alive : List String
alive = "a" ∷ "b" ∷ []

same_scene : scenes_differ "s" "s" ≡ false
unfolding scenes_differ
same_scene = refl

abbrev digest : String → String
digest u = if "a" == u then "d1" else "d2"

digest_true : (j d : String) → hash_of hashes j ≡ some d → d ≡ digest j
unfolding hash_of Dict.get
digest_true j d h = ground arith

plan_delta-repaired_example :
    (p : DeltaPlan) × (plan_delta alive hashes held "s" "s" "cold" [] ≡ some p)
    × ((j : String)
        → repaired hashes held alive "s" "s" "cold" [] digest p j
          ≡ (if has alive j then some (digest j) else none))
plan_delta-repaired_example =
    plan_delta-repaired hashes held alive "s" "s" "cold" [] digest digest_true same_scene

abbrev before_edit : Snapshot ℕ
before_edit = ("energy", 1) ∷ ("name", 2) ∷ []

abbrev after_edit : Snapshot ℕ
after_edit = ("energy", 5) ∷ ("name", 2) ∷ []

Distinct-paths : Distinct (keys after_edit)
unfolding has
Distinct-paths = (refl, (refl, tt))

not_structural : (diff before_edit after_edit).structural ≡ false
unfolding diff
not_structural = refl

diff-write_all_example :
    Dict.get (write_all before_edit (diff before_edit after_edit).changes) "energy"
    ≡ Dict.get after_edit "energy"
diff-write_all_example =
    diff-write_all before_edit after_edit "energy" Distinct-paths not_structural

abbrev shadows : Store ℕ
shadows = ("lamp", before_edit) ∷ []

abbrev shown : VisSig
shown = record { local = "a" ∷ []; local_colls = true; hidden_lc = "c" ∷ [] }

abbrev wanted : VisSig
wanted = record { local = "b" ∷ []; local_colls = false; hidden_lc = [] }

plan_lem_example :
    (local_after (plan shown wanted) (has shown.local) "b" ≡ has wanted.local "b")
    × (colls_after (plan shown wanted) shown.local_colls ≡ wanted.local_colls)
    × (hidden_after (plan shown wanted) (has shown.hidden_lc) "b" ≡ (
        if wanted.local_colls
        then has wanted.hidden_lc "b"
        else not shown.local_colls && has shown.hidden_lc "b"))
plan_lem_example = plan_lem shown wanted "b"
