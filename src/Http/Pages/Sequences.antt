-- ===== src/Http/Pages/Sequences.antt =====
-- The images of a sequence of screenshots.
use vscreen.Base.{
  List, Option, [], ap, append-nil, append_assoc, arith, length, length-append, none, suc, sym,
  zero, ℕ, ◌++◌, ◌+◌, ◌∙◌, ◌∷◌, ◌≡◌, nat_eq, string_eq,
}
use vscreen.Base.Text.{Text, text_eq}
use vscreen.Cdp.Pages
use vscreen.Cdp.Pages.{
  PageCommand, Page, Asked, Answer, Json, gives, fails, image_of, captures, capture_screenshot,
  next,
}
use vscreen.Http.Pages.{capture_each, capture_screenshot_sequence}

-- So many captures of the viewport.
abbrev pub repeated : {F : Type 0} → ℕ → Text → Option ℕ → List (PageCommand F)
repeated zero format quality = []
repeated (suc n) format quality = captures format quality none ∷ repeated n format quality

-- If the outcome gives images, then they are the ones there were and `n` more, and the page was
-- asked for `n` captures and for nothing else.
abbrev pub Takes :
    {F : Type 0} → List (PageCommand F) → Text → Option ℕ → ℕ → ℕ → Asked F (List (List ℕ)) → Type 0
Takes asked format quality before n out =
    (images : List (List ℕ))
    → out.1 ≡ gives images
    → (length images ≡ before + n) × (out.0 ≡ asked ++ repeated n format quality)

module _ {F : Type 0} (page : Page F) (format : Text) (quality : Option ℕ) where
  gives_same : {A : Type 0} {a b : A} → gives a ≡ gives b → a ≡ b
  gives_same h = ground arith

  capture_each-Takes :
      (asked : List (PageCommand F)) (taken : List (List ℕ)) (n : ℕ)
      → Takes asked format quality (length taken) n (capture_each page asked format quality taken n)
  unfolding capture_each capture_screenshot
  capture_each-Takes asked taken zero =
      λ images h. (ap length (sym (gives_same h)) ∙ omega arith, sym (append-nil asked))
  capture_each-Takes asked taken (suc n) =
      outer (page.ask asked command)
        (λ image. capture_each-Takes (asked ++ command ∷ []) (taken ++ image ∷ []) n)
    where
      command : PageCommand F
      command = captures format quality none

      rest : List (PageCommand F) → List ℕ → Asked F (List (List ℕ))
      rest asked' image = capture_each page asked' format quality (taken ++ image ∷ []) n

      Later : Type 0
      Later =
          (image : List ℕ)
          → Takes (asked ++ command ∷ []) format quality (length (taken ++ image ∷ [])) n
              (rest (asked ++ command ∷ []) image)

      inner :
          (b : Answer (List ℕ))
          → Later
          → Takes asked format quality
              (length taken)
              (suc n)
              (Pages.next (asked ++ command ∷ [], b) rest)
      inner (fails e) later images h = ground arith
      inner (gives image) later images h =
          let out = later image images h in
          (
            out.0 ∙ ap (λ k. k + n) (length-append taken (image ∷ [])) ∙ omega arith,
            out.1 ∙ append_assoc asked (command ∷ []) (repeated n format quality),
          )

      outer :
          (a : Answer (Option (Json F)))
          → Later
          → Takes asked format quality (length taken) (suc n) (
              Pages.next
                (Pages.next
                  (asked ++ command ∷ [], a)
                  (λ asked' result. (asked', image_of page result)))
                rest)
      outer (fails e) later = λ images h. ground arith
      outer (gives result) later = inner (image_of page result) later

  -- If a sequence of screenshots gives images, then there are as many as were asked for, and the
  -- page was asked for as many captures of the viewport and for nothing else.
  capture_screenshot_sequence-Takes :
      (asked : List (PageCommand F)) (count : ℕ)
      → Takes asked format quality 0 count
          (capture_screenshot_sequence page asked count format quality)
  unfolding capture_screenshot_sequence
  capture_screenshot_sequence-Takes asked count = capture_each-Takes asked [] count
