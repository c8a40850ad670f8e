-- ===== src/Rtsp/Vp9.antt =====
-- crates/vscreen-rtsp/src/vp9_packetizer.rs: VP9 frames as RTP payloads (RFC 9628).
-- An offset into the frame is the rest of it, `frame[offset..]`.
pub mod Receiver
pub mod Frames
pub mod PictureIds
use Prim.Native.Nat.{bit_and, bit_or}
use mathlib.Core.Option
use vscreen.Base.{
  Bool, List, Option, [], drop, false, if◌then◌else◌, is_empty, leb, length, map, max, min, none,
  not, some, suc, take, true, zero, ℕ, ◌%◌, ◌++◌, ◌+◌, ◌-◌, ◌/◌, ◌^◌, ◌∷◌, nat_eq, string_eq,
}

pub record Vp9Packetizer : Type 0 where
  pub picture_id : ℕ
  pub mtu : ℕ
  pub width : ℕ
  pub height : ℕ

unfoldable pub new : ℕ → ℕ → Vp9Packetizer
new width height = record { picture_id = 0; mtu = 1200; width = width; height = height }

unfoldable pub with_mtu : ℕ → ℕ → ℕ → Vp9Packetizer
with_mtu width height mtu = record {
  picture_id = 0;
  mtu = max mtu 100;
  width = width;
  height = height;
}

unfoldable pub set_resolution : Vp9Packetizer → ℕ → ℕ → Vp9Packetizer
set_resolution p width height = record p { width = width; height = height }

-- `u8::from(b) << k`.
abbrev pub flag : Bool → ℕ → ℕ
flag true k = 2 ^ k
flag false k = 0

-- Byte 0, `I|P|L|F|B|E|V|Z` with I = 1 and L = F = Z = 0.
unfoldable pub byte_0 : Bool → Bool → Bool → Bool → ℕ
byte_0 is_keyframe is_start is_end include_ss =
    bit_or
      (bit_or (bit_or (bit_or (flag true 7) (flag (not is_keyframe) 6)) (flag is_start 3))
        (flag is_end 2))
      (flag include_ss 1)

-- The scalability structure: `N_S = 0, Y = 1, G = 0`, the width and the height.
abbrev pub scalability : Vp9Packetizer → Bool → List ℕ
scalability p false = []
scalability p true =
    16
    ∷ (p.width / 256 % 256)
    ∷ bit_and p.width 0xFF % 256
    ∷ (p.height / 256 % 256)
    ∷ bit_and p.height 0xFF % 256
    ∷ []

unfoldable pub build_descriptor : Vp9Packetizer → Bool → Bool → Bool → Bool → ℕ → List ℕ
unfolding byte_0
build_descriptor p is_keyframe is_start is_end include_ss pid =
    byte_0 is_keyframe is_start is_end include_ss
    ∷ bit_or 0x80 (bit_and (pid / 256) 0x7F % 256)
    ∷ bit_and pid 0xFF % 256
    ∷ scalability p include_ss

unfoldable pub continuation_max_payload : Vp9Packetizer → Bool → ℕ → ℕ
unfolding build_descriptor
continuation_max_payload p is_keyframe pid =
    p.mtu - length (build_descriptor p is_keyframe false true false pid)

-- The loop for the packets after the first; `none` means that the fuel ran out.
unfoldable pub continuation_loop : ℕ → Vp9Packetizer → Bool → ℕ → List ℕ → Option (List (List ℕ))
unfolding continuation_max_payload
continuation_loop fuel p is_keyframe pid [] = some []
continuation_loop zero p is_keyframe pid (x ∷ xs) = none
continuation_loop (suc fuel) p is_keyframe pid (x ∷ xs) =
    let is_last = leb (length (x ∷ xs)) (continuation_max_payload p is_keyframe pid) in
    let descriptor = build_descriptor p is_keyframe false is_last false pid in
    let size = min (p.mtu - length descriptor) (length (x ∷ xs)) in
    Option.map (λ later. (descriptor ++ take size (x ∷ xs)) ∷ later)
      (continuation_loop fuel p is_keyframe pid (drop size (x ∷ xs)))

-- The payloads, and the packetizer with the next picture ID.
unfoldable pub packetize : Vp9Packetizer → List ℕ → Bool → Option (List (List ℕ)) × Vp9Packetizer
unfolding continuation_loop continuation_max_payload
packetize p frame is_keyframe =
    let pid = p.picture_id in
    let next = record p { picture_id = bit_and (pid + 1) 0x7FFF } in
    let first_descriptor = build_descriptor p is_keyframe true false is_keyframe pid in
    let first_max_payload = p.mtu - length first_descriptor in
    let chunk_size = min first_max_payload (length frame) in
    if is_empty frame
    then (some (build_descriptor p is_keyframe true true true pid ∷ []), next)
    else if leb (length frame) first_max_payload
    then (some ((build_descriptor p is_keyframe true true is_keyframe pid ++ frame) ∷ []), next)
    else (
      Option.map (λ later. (first_descriptor ++ take chunk_size frame) ∷ later)
          (continuation_loop (length frame) p is_keyframe pid (drop chunk_size frame)),
      next,
    )
