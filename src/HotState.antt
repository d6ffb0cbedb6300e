-- ===== src/HotState.antt =====
-- `HotState`, `hot_core`, `unpack_hot` and `check_hello` of qcbridge/ring1/protocol.py. `F` stands for
-- a float and `I` for a signed integer; the struct formats `_HOT` and `_HOT_PROBE` are parameters.
pub mod Packet
use qcbridge.Prelude.{
  ℕ, ◌+◌, ◌/◌, ◌%◌, Bool, true, false, not, ◌&&◌, ◌||◌, Option, none, some, List, [], ◌∷◌, ◌++◌,
  String, string_eq, nat_eq, ◌==◌, if◌then◌else◌, length, take, drop,
}
use qcbridge.Blob.{Bytes}
use qcbridge.PathMap.{same_text}

-- `_HOT_MAGIC`: "QCB2"
abbrev pub hot_magic : Bytes
hot_magic = 81 ∷ 67 ∷ 66 ∷ 50 ∷ []

-- `_HOT.size` of "<4sBi3f16f3f" and `_HOT_PROBE.size` of "<dI"
abbrev pub hot_size : ℕ
hot_size = 97

abbrev pub probe_size : ℕ
probe_size = 12

-- The fields of `_HOT`: the magic, the flags, the frame, and the floats in order.
pub record Core (I F : Type 0) : Type 0 where
  pub magic : Bytes
  pub flags : ℕ
  pub frame : I
  pub lens : F
  pub clip_start : F
  pub clip_end : F
  pub rest : List F

pub record HotState (I F : Type 0) : Type 0 where
  pub frame : I
  pub view_matrix : List F
  pub lens : F
  pub clip_start : F
  pub clip_end : F
  pub is_persp : Bool
  pub hold : Bool
  pub camera : Bool
  pub cam_zoom : F
  pub cam_x : F
  pub cam_y : F
  pub t_host : F
  pub probe_seq : ℕ

-- `FLAG_PERSP | FLAG_HOLD | FLAG_CAMERA`, of those that are set
unfoldable pub flags_of : Bool → Bool → Bool → ℕ
flags_of is_persp hold camera =
    (if is_persp then 1 else 0) + (if hold then 2 else 0) + (if camera then 4 else 0)

-- `bool(flags & bit)`, for the bit of this value
unfoldable pub has_flag : ℕ → ℕ → Bool
has_flag flags bit = flags / bit % 2 == 1

-- `_HOT` and `_HOT_PROBE`, the test of a float for zero, and the zero.
pub record Codec (I F : Type 0) : Type 0 where
  pub pack_core : Core I F → Bytes
  pub unpack_core : Bytes → Core I F
  pub pack_probe : F → ℕ → Bytes
  pub unpack_probe : Bytes → F × ℕ
  pub is_zero : F → Bool
  pub zero_float : F

module _ {I F : Type 0} (codec : Codec I F) where
  unfoldable pub core_of : HotState I F → Core I F
  unfolding flags_of
  core_of s = record {
    magic = hot_magic;
    flags = flags_of s.is_persp s.hold s.camera;
    frame = s.frame;
    lens = s.lens;
    clip_start = s.clip_start;
    clip_end = s.clip_end;
    rest = s.view_matrix ++ s.cam_zoom ∷ s.cam_x ∷ s.cam_y ∷ [];
  }

  unfoldable pub pack : HotState I F → Bytes
  unfolding core_of
  pack s =
      codec.pack_core (core_of s)
      ++ (if not (codec.is_zero s.t_host) then codec.pack_probe s.t_host s.probe_seq else [])

  unfoldable pub hot_core : Bytes → Bytes
  hot_core bytes = take hot_size bytes

  -- The state of an unpacked packet; `none` for a foreign magic.
  unfoldable pub state_of : Core I F → List F → F → ℕ → Option (HotState I F)
  unfolding same_text has_flag
  state_of c (zoom ∷ x ∷ y ∷ []) t_host probe_seq =
      if not (same_text c.magic hot_magic)
      then none
      else some (record {
        frame = c.frame;
        view_matrix = take 16 c.rest;
        lens = c.lens;
        clip_start = c.clip_start;
        clip_end = c.clip_end;
        is_persp = has_flag c.flags 1;
        hold = has_flag c.flags 2;
        camera = has_flag c.flags 4;
        cam_zoom = zoom;
        cam_x = x;
        cam_y = y;
        t_host = t_host;
        probe_seq = probe_seq;
      })
  state_of c _ t_host probe_seq = none

  unfoldable pub unpack_hot : Bytes → Option (HotState I F)
  unfolding state_of
  unpack_hot bytes =
      let c = codec.unpack_core (take hot_size bytes) in
      if length bytes == hot_size + probe_size
      then (let (t_host, probe_seq) = codec.unpack_probe (drop hot_size bytes) in
          state_of c (drop 16 c.rest) t_host probe_seq)
      else if not (length bytes == hot_size)
      then none
      else state_of c (drop 16 c.rest) codec.zero_float 0

-- The entries of a hello that are checked; `same_token` is `hmac.compare_digest`.
pub data Checked : Type 0 where
  accepted not_hello token_mismatch protocol_mismatch : Checked

unfoldable pub check_hello :
    (String → String → Bool) → Option String → Option String → Option ℕ → String → Checked
check_hello same_token kind token protocol expected =
    if not (elim kind [ none ↦ false | some k ↦ k == "hello" ])
    then not_hello
    else if not (same_token (elim token [ none ↦ "" | some t ↦ t ]) expected)
    then token_mismatch
    else if not (elim protocol [ none ↦ false | some p ↦ p == 2 ])
    then protocol_mismatch
    else accepted
