-- ===== src/Tests/Paths.antt =====
-- Concrete inputs for qcbridge/ring1/pathmap.py.
use qcbridge.Prelude.{ℕ, Bool, true, List, [], ◌∷◌, nat_eq}
use qcbridge.PathMap.{Text, PathMapping}

abbrev lower : Text → Text
lower text = text

abbrev letter : ℕ → Bool
letter c = true

-- "/a" and "/a/b" on the Mac, "u:" and "v:" on Windows
abbrev rows : List PathMapping
rows =
    record { win_root = 117 ∷ 58 ∷ []; mac_root = 47 ∷ 97 ∷ []; enabled = true; label = [] }
    ∷ record {
      win_root = 118 ∷ 58 ∷ [];
      mac_root = 47 ∷ 97 ∷ 47 ∷ 98 ∷ [];
      enabled = true;
      label = [];
    }
    ∷ []

abbrev file : Text
file = 47 ∷ 97 ∷ 47 ∷ 98 ∷ 47 ∷ 99 ∷ []
