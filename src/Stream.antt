-- ===== src/Stream.antt =====
-- `StreamParams.from_prefs` of qcbridge/ring1/stream_params.py: the rate, the width and the frame
-- rate, within their limits. A preference is `none` when `int` refuses it; a negative one is as 0.
use Prim.Native.Nat.{min, max}
use qcbridge.Prelude.{ℕ, ◌*◌, ◌/◌, ◌≤◌, ◌%◌, ◌≡◌, Option, none, some, arith}

-- The fields that `from_prefs` sets.
pub record StreamParams : Type 0 where
  pub bitrate_mbps : ℕ
  pub width : ℕ
  pub fps : ℕ

-- The local `_int`
unfoldable pub int_or : Option ℕ → ℕ → ℕ → ℕ → ℕ
int_or none default lo hi = default
int_or (some value) default lo hi = max lo (min hi value)

unfoldable pub from_prefs : Option ℕ → Option ℕ → Option ℕ → StreamParams
unfolding int_or
from_prefs width bitrate fps = record {
  bitrate_mbps = int_or bitrate 50 5 400;
  width = int_or width 2560 640 7680 / 2 * 2;
  fps = int_or fps 30 5 120;
}

int_or_bounds :
    (value : Option ℕ) (default lo hi : ℕ)
    → lo ≤ default
    → default ≤ hi
    → (lo ≤ int_or value default lo hi) × (int_or value default lo hi ≤ hi)
unfolding int_or
int_or_bounds none default lo hi low high = (low, high)
int_or_bounds (some value) default lo hi low high = omega arith

-- Whatever the preferences hold, the rate is 5 to 400, the width an even number from 640 to 7680,
-- and the frame rate 5 to 120.
pub from_prefs_lem :
    (width bitrate fps : Option ℕ)
    → (5 ≤ (from_prefs width bitrate fps).bitrate_mbps)
      × ((from_prefs width bitrate fps).bitrate_mbps ≤ 400)
      × (640 ≤ (from_prefs width bitrate fps).width)
      × ((from_prefs width bitrate fps).width ≤ 7680)
      × ((from_prefs width bitrate fps).width % 2 ≡ 0)
      × (5 ≤ (from_prefs width bitrate fps).fps)
      × ((from_prefs width bitrate fps).fps ≤ 120)
unfolding from_prefs
from_prefs_lem width bitrate fps =
    let b = int_or_bounds bitrate 50 5 400 (omega arith) (omega arith) in
    let w = int_or_bounds width 2560 640 7680 (omega arith) (omega arith) in
    let f = int_or_bounds fps 30 5 120 (omega arith) (omega arith) in omega (arith, b, w, f)
