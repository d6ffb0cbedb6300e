-- ===== src/HotState/Packet.antt =====
-- The flags of a hot packet.
use qcbridge.Prelude.{◌≡◌, Bool, arith}
use qcbridge.HotState.{flags_of, has_flag}

-- Each flag is read back from the byte that the three of them make.
pub has_flag-flags_of :
    (is_persp hold camera : Bool)
    → (has_flag (flags_of is_persp hold camera) 1 ≡ is_persp)
      × (has_flag (flags_of is_persp hold camera) 2 ≡ hold)
      × (has_flag (flags_of is_persp hold camera) 4 ≡ camera)
unfolding has_flag flags_of
has_flag-flags_of is_persp hold camera = ground arith
