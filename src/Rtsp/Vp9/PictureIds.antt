-- ===== src/Rtsp/Vp9/PictureIds.antt =====
-- How the picture IDs of frames follow each other.
use Prim.Native.Nat.{bit_and}
use vscreen.Base.Bytes.{all_below, all_below_sound}
use vscreen.Base.{
  Bool, List, arith, nat_beq_iff, refl, true, ℕ, ◌%◌, ◌+◌, ◌<◌, ◌==◌, ◌^◌, ◌≡◌, nat_eq, string_eq,
}
use vscreen.Rtsp.Vp9.{Vp9Packetizer, packetize}

next_table : all_below 0x8000 (λ n. bit_and (n + 1) 0x7FFF == (n + 1) % 0x8000) ≡ true
unfolding all_below
next_table = refl

-- A picture ID of 15 bits is followed by the next, modulo 2 ^ 15, whatever the frame.
picture_id-packetize :
    (p : Vp9Packetizer) (frame : List ℕ) (is_keyframe : Bool)
    → p.picture_id < 2 ^ 15
    → (packetize p frame is_keyframe).1.picture_id ≡ (p.picture_id + 1) % 2 ^ 15
unfolding packetize
picture_id-packetize p frame is_keyframe h =
    ground (arith, (nat_beq_iff _ _).0 (all_below_sound 0x8000 _ p.picture_id next_table h))
