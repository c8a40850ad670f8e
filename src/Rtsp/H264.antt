-- ===== src/Rtsp/H264.antt =====
-- crates/vscreen-rtsp/src/h264_packetizer.rs: H.264 NAL units as RTP payloads (RFC 6184).
-- A position `i` in the bitstream is the rest of it, `data[i..]`, and the slice
-- `data[nal_start..i]` is the list of the bytes since the last start code.
pub mod Fragments
pub mod Receiver
pub mod Split
pub mod Bounds
use Prim.Native.Nat.{bit_and, bit_or}
use mathlib.Core.Option
use vscreen.Base.{
  Bool, List, Option, [], drop, false, if◌then◌else◌, leb, length, map, max, min, none, some, suc,
  take, true, zero, ℕ, ◌&&◌, ◌++◌, ◌-◌, ◌==◌, ◌∷◌, nat_eq, string_eq,
}

abbrev pub default_mtu : ℕ
default_mtu = 1200

abbrev pub rtp_header_size : ℕ
rtp_header_size = 12

pub record H264Packetizer : Type 0 where
  pub mtu : ℕ

unfoldable pub new : H264Packetizer
new = record { mtu = default_mtu }

unfoldable pub with_mtu : ℕ → H264Packetizer
with_mtu mtu = record { mtu = max mtu 100 }

-- `[0, 0, 1]` and `[0, 0, 0, 1]`.
abbrev pub is_start_code_3 : ℕ → ℕ → ℕ → Bool
is_start_code_3 a b c = a == 0 && b == 0 && c == 1

abbrev pub is_start_code_4 : ℕ → ℕ → ℕ → ℕ → Bool
is_start_code_4 a b c d = a == 0 && b == 0 && c == 0 && d == 1

-- The first loop of `split_annex_b`: what follows the first start code.
unfoldable pub skip_to_first : List ℕ → List ℕ
skip_to_first [] = []
skip_to_first (a ∷ []) = []
skip_to_first (a ∷ b ∷ []) = []
skip_to_first (a ∷ b ∷ c ∷ []) = []
skip_to_first (a ∷ b ∷ c ∷ d ∷ rest) =
    let later = skip_to_first (b ∷ c ∷ d ∷ rest) in
    if is_start_code_4 a b c d then rest else if is_start_code_3 a b c then d ∷ rest else later

-- `if nal_start < i { nals.push(&data[nal_start..i]) }`
abbrev pub push_nal : List ℕ → List (List ℕ) → List (List ℕ)
push_nal [] nals = nals
push_nal (x ∷ nal) nals = (x ∷ nal) ∷ nals

-- The second loop and the last push.
unfoldable pub split_nals : List ℕ → List ℕ → List (List ℕ)
split_nals nal [] = push_nal nal []
split_nals nal (a ∷ []) = push_nal (nal ++ a ∷ []) []
split_nals nal (a ∷ b ∷ []) = split_nals (nal ++ a ∷ []) (b ∷ [])
split_nals nal (a ∷ b ∷ c ∷ []) =
    let later = split_nals (nal ++ a ∷ []) (b ∷ c ∷ []) in
    if is_start_code_3 a b c then push_nal nal [] else later
split_nals nal (a ∷ b ∷ c ∷ d ∷ rest) =
    let after_4 = split_nals [] rest in
    let after_3 = split_nals [] (d ∷ rest) in
    let later = split_nals (nal ++ a ∷ []) (b ∷ c ∷ d ∷ rest) in
    if is_start_code_4 a b c d
    then push_nal nal after_4
    else if is_start_code_3 a b c
    then push_nal nal after_3
    else later

unfoldable pub split_annex_b : List ℕ → List (List ℕ)
unfolding skip_to_first split_nals
split_annex_b bytes = split_nals [] (skip_to_first bytes)

-- `fu_header`: the NAL type with the S and E bits.
abbrev pub fu_header : ℕ → Bool → Bool → ℕ
fu_header nal_type is_first is_last =
    let started = if is_first then bit_or nal_type 0x80 else nal_type in
    if is_last then bit_or started 0x40 else started

-- The loop of `fragment_fu_a` over `data[offset..]`. Each round takes at least one byte if
-- `frag_max` is not 0; `none` means that the fuel ran out.
unfoldable pub fragment_loop : ℕ → ℕ → ℕ → ℕ → Bool → List ℕ → Option (List (List ℕ))
fragment_loop fuel indicator nal_type frag_max is_first [] = some []
fragment_loop zero indicator nal_type frag_max is_first (x ∷ xs) = none
fragment_loop (suc fuel) indicator nal_type frag_max is_first (x ∷ xs) =
    let chunk_size = min (length (x ∷ xs)) frag_max in
    let header = fu_header nal_type is_first (leb (length (x ∷ xs)) chunk_size) in
    let packet = indicator ∷ header ∷ take chunk_size (x ∷ xs) in
    Option.map (λ later. packet ∷ later)
      (fragment_loop fuel indicator nal_type frag_max false (drop chunk_size (x ∷ xs)))

unfoldable pub fragment_fu_a : List ℕ → ℕ → Option (List (List ℕ))
unfolding fragment_loop
fragment_fu_a [] max_payload = none
fragment_fu_a (nal_header ∷ bytes) max_payload =
    fragment_loop (length bytes) (bit_or (bit_and nal_header 0xE0) 28) (bit_and nal_header 0x1F)
      (max_payload - 2) true bytes

abbrev pub append_both : Option (List (List ℕ)) → Option (List (List ℕ)) → Option (List (List ℕ))
append_both none later = none
append_both (some ps) none = none
append_both (some ps) (some qs) = some (ps ++ qs)

-- The loop of `packetize` over the NAL units.
unfoldable pub packetize_nals : ℕ → List (List ℕ) → Option (List (List ℕ))
unfolding fragment_fu_a
packetize_nals max_payload [] = some []
packetize_nals max_payload ([] ∷ nals) = packetize_nals max_payload nals
packetize_nals max_payload ((x ∷ nal) ∷ nals) =
    let here : Option (List (List ℕ)) =
      if leb (length (x ∷ nal)) max_payload
      then some ((x ∷ nal) ∷ [])
      else fragment_fu_a (x ∷ nal) max_payload in
    append_both here (packetize_nals max_payload nals)

unfoldable pub packetize : H264Packetizer → List ℕ → Option (List (List ℕ))
unfolding packetize_nals split_annex_b
packetize p annex_b = packetize_nals (p.mtu - rtp_header_size) (split_annex_b annex_b)
