-- ===== src/Rtsp/Vp9/Frames.antt =====
-- What a receiver gets from the payloads of a frame.
use mathlib.Core.Option
use vscreen.Base.{
  Bool, Bool-cases, List, Option, [], all, ap, append-nil, ap₂, arith, drop, drop-all, false,
  if◌then◌else◌, inl, inr, leb, leb→le, length, length-append, length-drop, length-take, max, min,
  none, not_leb, refl, some, subst, suc, take, take-all, take-append-drop, true, zero, ℕ, ◌++◌, ◌+◌,
  ◌-◌, ◌<◌, ◌∙◌, ◌∷◌, ◌≡◌, ◌≤◌, nat_eq, string_eq,
}
use vscreen.Rtsp.Vp9.Receiver.{Carries, bit, body, byte_0-bits}
use vscreen.Rtsp.Vp9.{
  Vp9Packetizer, build_descriptor, continuation_loop, continuation_max_payload, packetize, with_mtu,
}

module _ (p : Vp9Packetizer) (pid : ℕ) where
  body-descriptor :
      (k s e v : Bool) (xs : List ℕ) → body (build_descriptor p k s e v pid ++ xs) ≡ xs
  unfolding build_descriptor
  body-descriptor k s e true xs = rw (byte_0-bits k s e true _).2 refl
  body-descriptor k s e false xs = rw (byte_0-bits k s e false _).2 refl

  bits-descriptor :
      (k s e v : Bool) (xs : List ℕ)
      → (bit 3 (build_descriptor p k s e v pid ++ xs) ≡ s)
        × (bit 2 (build_descriptor p k s e v pid ++ xs) ≡ e)
  unfolding build_descriptor
  bits-descriptor k s e v xs = ((byte_0-bits k s e v []).0, (byte_0-bits k s e v []).1)

  length-descriptor :
      (k s e v : Bool) → length (build_descriptor p k s e v pid) ≡ (if v then 8 else 3)
  unfolding build_descriptor
  length-descriptor k s e true = refl
  length-descriptor k s e false = refl

  -- One more packet in front.
  Carries-cons :
      (k s v : Bool) (xs frame : List ℕ) (o : Option (List (List ℕ)))
      → length (build_descriptor p k s false v pid ++ xs) ≤ p.mtu
      → 0 < length frame
      → Carries p.mtu false frame o
      → Carries p.mtu s
          (xs ++ frame)
          (Option.map (λ later. (build_descriptor p k s false v pid ++ xs) ∷ later) o)
  Carries-cons k s v xs frame none le pos c = c
  Carries-cons k s v xs frame (some []) le pos c = absurd (omega (arith, ap length c.0))
  Carries-cons k s v xs frame (some (q ∷ qs)) le pos c = (
    ap₂ ◌++◌ (body-descriptor k s false v xs) c.0,
    (le, c.1),
    ((bits-descriptor k s false v xs).0, (bits-descriptor k s false v xs).1, c.2),
  )

  -- The only or the last packet.
  Carries-last :
      (k s v : Bool) (xs : List ℕ)
      → length (build_descriptor p k s true v pid ++ xs) ≤ p.mtu
      → Carries p.mtu s xs (some ((build_descriptor p k s true v pid ++ xs) ∷ []))
  Carries-last k s v xs le =
      (append-nil _ ∙ body-descriptor k s true v xs, (le, tt), bits-descriptor k s true v xs)

  continuation-room : (k : Bool) → continuation_max_payload p k pid ≡ p.mtu - 3
  unfolding continuation_max_payload
  continuation-room k = rw (length-descriptor k false true false) refl

  length-packet :
      (k s e v : Bool) (xs : List ℕ)
      → length (build_descriptor p k s e v pid ++ xs) ≡ (if v then 8 else 3) + length xs
  length-packet k s e v xs =
      length-append (build_descriptor p k s e v pid) xs
      ∙ ap (λ n. n + length xs) (length-descriptor k s e v)

  -- A round whose packet takes all that is left.
  last_round :
      (fuel size : ℕ) (k : Bool) (bytes : List ℕ)
      → length bytes ≤ size
      → 3 + length bytes ≤ p.mtu
      → Carries p.mtu false bytes (
          Option.map
            (λ later. (build_descriptor p k false true false pid ++ take size bytes) ∷ later)
            (continuation_loop fuel p k pid (drop size bytes)))
  unfolding continuation_loop
  last_round fuel size k bytes all fits =
      rw (drop-all size bytes all, take-all size bytes all)
        (Carries-last k false false bytes (omega (arith, length-packet k false true false bytes)))

  -- A round that leaves bytes for the next.
  full_round :
      (fuel size : ℕ) (k s v : Bool) (bytes : List ℕ)
      → (if v then 8 else 3) + size ≤ p.mtu
      → size < length bytes
      → Carries p.mtu false (drop size bytes) (continuation_loop fuel p k pid (drop size bytes))
      → Carries p.mtu s bytes (
          Option.map
            (λ later. (build_descriptor p k s false v pid ++ take size bytes) ∷ later)
            (continuation_loop fuel p k pid (drop size bytes)))
  full_round fuel size k s v bytes fits more c =
      subst
        (λ frame. Carries p.mtu s frame (
          Option.map (λ later. (build_descriptor p k s false v pid ++ take size bytes) ∷ later)
            (continuation_loop fuel p k pid (drop size bytes))))
        (take-append-drop size bytes)
        (Carries-cons k s v (take size bytes) (drop size bytes) _
          (omega (arith, length-packet k s false v (take size bytes), length-take size bytes))
          (omega (arith, length-drop size bytes)) c)

  continuation-Carries :
      (fuel : ℕ) (k : Bool) (bytes : List ℕ)
      → length bytes ≤ fuel
      → 0 < length bytes
      → 8 < p.mtu
      → Carries p.mtu false bytes (continuation_loop fuel p k pid bytes)
  unfolding continuation_loop
  continuation-Carries fuel k [] h pos m = absurd (omega arith)
  continuation-Carries zero k (x ∷ xs) h pos m = absurd (omega arith)
  continuation-Carries (suc fuel) k (x ∷ xs) h pos m =
      elim (Bool-cases (leb (length (x ∷ xs)) (continuation_max_payload p k pid))) [
        | inl last ↦ rw last (
            last_round fuel _ k (x ∷ xs)
              (omega
                (arith, leb→le _ _ last, continuation-room k, length-descriptor k false true false))
              (omega (arith, leb→le _ _ last, continuation-room k)))
        | inr more ↦ rw more (
            full_round fuel _ k false false (x ∷ xs)
              (omega (arith, length-descriptor k false false false))
              (omega (
                arith,
                not_leb _ _ more,
                continuation-room k,
                length-descriptor k false false false,
              ))
              (continuation-Carries fuel k _
                (omega (
                  arith,
                  length-drop
                      (min (p.mtu - length (build_descriptor p k false false false pid))
                        (length (x ∷ xs)))
                      (x ∷ xs),
                  length-descriptor k false false false,
                ))
                (omega (
                  arith,
                  length-drop
                      (min (p.mtu - length (build_descriptor p k false false false pid))
                        (length (x ∷ xs)))
                      (x ∷ xs),
                  not_leb _ _ more,
                  continuation-room k,
                  length-descriptor k false false false,
                ))
                m))
      ]

pub packetize-cases :
    (p : Vp9Packetizer) (frame : List ℕ) (k : Bool)
    → 8 < p.mtu
    → Carries p.mtu true frame (packetize p frame k).0
unfolding packetize
packetize-cases p [] k m =
    subst (λ packet. Carries p.mtu true [] (some (packet ∷ [])))
      (append-nil (build_descriptor p k true true true p.picture_id))
      (Carries-last p p.picture_id k true true []
        (omega (arith, length-packet p p.picture_id k true true true [])))
packetize-cases p (x ∷ xs) k m = elim (Bool-cases (leb (length (x ∷ xs)) room)) [
  | inl fits ↦ rw fits (
      Carries-last p p.picture_id k true k (x ∷ xs) (
        ground (
          arith,
          leb→le _ room fits,
          descriptor,
          length-packet p p.picture_id k true true k (x ∷ xs),
        )))
  | inr long ↦ rw long (
      full_round p p.picture_id (length (x ∷ xs)) (min room (length (x ∷ xs))) k true k (x ∷ xs)
        (ground (arith, descriptor)) (ground (arith, not_leb _ room long))
        (continuation-Carries p p.picture_id (length (x ∷ xs)) k _
          (omega (arith, length-drop (min room (length (x ∷ xs))) (x ∷ xs)))
          (omega (arith, length-drop (min room (length (x ∷ xs))) (x ∷ xs), not_leb _ room long))
          m))
]
  where
    room : ℕ
    room = p.mtu - length (build_descriptor p k true false k p.picture_id)

    descriptor : length (build_descriptor p k true false k p.picture_id) ≡ (if k then 8 else 3)
    descriptor = length-descriptor p p.picture_id k true false k

-- With a packetizer made by `with_mtu`, for every frame, `packetize` ends; a receiver that takes
-- the payload descriptor off each packet, and puts the rest together, gets the frame; no packet is
-- longer than the MTU; the start bit is set on the first packet only, and the end bit on the last
-- packet only.
pub packetize-Carries :
    (width height mtu : ℕ) (frame : List ℕ) (is_keyframe : Bool)
    → Carries (max mtu 100) true frame (packetize (with_mtu width height mtu) frame is_keyframe).0
unfolding with_mtu
packetize-Carries width height mtu frame is_keyframe =
    packetize-cases (record { picture_id = 0; mtu = max mtu 100; width = width; height = height })
      frame is_keyframe (omega arith)
