-- ===== src/Rtsp/Tests.antt =====
-- The RTSP server's parts on concrete inputs, and the theorems at inputs that meet their hypotheses.
use vscreen.Base.{Bool, List, [], arith, false, refl, some, true, ℕ, ◌∷◌, ◌≡◌, nat_eq, string_eq}
use vscreen.Rtsp.H264
use vscreen.Rtsp.H264.{fragment_fu_a, split_annex_b, new, packetize, with_mtu}
use vscreen.Rtsp.H264.Receiver.{Received, fragment_fu_a-Received}
use vscreen.Rtsp.H264.Split.{annex_b, nals_of, split_annex_b-annex_b}
use vscreen.Rtsp.H264.Bounds.{Bounded, packetize-Bounded}
use vscreen.Rtsp.Vp9
use vscreen.Rtsp.Vp9.Receiver.{Carries}
use vscreen.Rtsp.Vp9.Frames.{packetize-Carries}

fragments :
    fragment_fu_a (0x65 ∷ 1 ∷ 2 ∷ 3 ∷ []) 4
    ≡ some ((124 ∷ 0x85 ∷ 1 ∷ 2 ∷ []) ∷ (124 ∷ 0x45 ∷ 3 ∷ []) ∷ [])
unfolding fragment_fu_a
fragments = refl

three_units :
    split_annex_b (0 ∷ 0 ∷ 0 ∷ 1 ∷ 9 ∷ 8 ∷ 0 ∷ 0 ∷ 1 ∷ 7 ∷ 0 ∷ 0 ∷ 0 ∷ 1 ∷ 6 ∷ [])
    ≡ (9 ∷ 8 ∷ []) ∷ (7 ∷ []) ∷ (6 ∷ []) ∷ []
unfolding split_annex_b
three_units = refl

abbrev units : List (Bool × List ℕ)
units = (true, 0x67 ∷ 0x42 ∷ []) ∷ (false, 0x65 ∷ 0 ∷ 0xAA ∷ []) ∷ []

split_annex_b-annex_b_example : split_annex_b (annex_b units) ≡ nals_of units
split_annex_b-annex_b_example = split_annex_b-annex_b units (omega arith, ((refl, omega arith), tt))

fragment_fu_a-Received_example :
    Received (0x65 ∷ 1 ∷ 2 ∷ 3 ∷ 4 ∷ []) (fragment_fu_a (0x65 ∷ 1 ∷ 2 ∷ 3 ∷ 4 ∷ []) 4)
fragment_fu_a-Received_example =
    fragment_fu_a-Received 0x65 (1 ∷ 2 ∷ 3 ∷ 4 ∷ []) 4 (omega arith) (omega arith) (omega arith)

packetize-Bounded_example :
    Bounded 88 (H264.packetize (H264.with_mtu 50) (0 ∷ 0 ∷ 1 ∷ 0x65 ∷ 9 ∷ []))
packetize-Bounded_example = packetize-Bounded 50 (0 ∷ 0 ∷ 1 ∷ 0x65 ∷ 9 ∷ [])

key_frame :
    (Vp9.packetize (Vp9.new 1920 1080) (7 ∷ []) true).0
    ≡ some ((0x8E ∷ 0x80 ∷ 0 ∷ 16 ∷ 7 ∷ 0x80 ∷ 4 ∷ 0x38 ∷ 7 ∷ []) ∷ [])
unfolding Vp9.packetize Vp9.new
key_frame = refl

packetize-Carries_example :
    Carries 100 true (1 ∷ 2 ∷ []) (Vp9.packetize (Vp9.with_mtu 640 480 5) (1 ∷ 2 ∷ []) false).0
packetize-Carries_example = packetize-Carries 640 480 5 (1 ∷ 2 ∷ []) false
