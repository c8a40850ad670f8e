-- ===== src/Cdp/Pages/Restores.antt =====
-- The viewport after a screenshot of the full page.
use vscreen.Base.{
  Bool, Bool-cases, List, Option, [], ap, append-nil, append_assoc, arith, false, inl, inr, none,
  not, refl, sym, true, ℕ, ◌&&◌, ◌++◌, ◌∙◌, ◌∷◌, ◌≡◌, ◌⊎◌, nat_eq, string_eq,
}
use vscreen.Base.Text.{Text, text_eq}
use vscreen.Core.Errors.{CdpError}
use vscreen.Cdp.Pages.{
  Json, Answer, Asked, Page, PageCommand, asks_frames, capture_full_page_screenshot,
  capture_overridden, captures, clears, dimensions, evaluate_js, evaluated, fails, gives, image_of,
  next, overrides, runs, script,
}

abbrev answered : {F : Type 0} → Answer (Option (Json F)) → Bool
answered (fails e) = false
answered (gives result) = true

-- Whether the viewport may be overridden after a command, asked after those before it. A command to
-- override counts whatever its answer, a command to clear only if its answer is no error.
abbrev after_command : {F : Type 0} → Page F → List (PageCommand F) → Bool → PageCommand F → Bool
after_command page before b (runs expression await) = b
after_command page before b (captures format quality clip) = b
after_command page before b (overrides width height) = true
after_command page before b clears = b && not (answered (page.ask before clears))
after_command page before b asks_frames = b

unfoldable pub is_overridden :
    {F : Type 0} → Page F → List (PageCommand F) → Bool → List (PageCommand F) → Bool
is_overridden page before b [] = b
is_overridden page before b (c ∷ cs) =
    is_overridden page (before ++ c ∷ []) (after_command page before b c) cs

-- The command that overrides the viewport was the last one, and it failed.
pub record OverrideFailed {F : Type 0} (page : Page F) (out : Asked F (List ℕ)) : Type 0 where
  pub before : List (PageCommand F)
  pub width : ℕ
  pub height : ℕ
  pub error : CdpError
  pub refused : page.ask before (overrides width height) ≡ fails error
  pub outcome : out ≡ (before ++ overrides width height ∷ [], fails error)

-- The command that clears the override was the last one, and it failed.
pub record ClearFailed {F : Type 0} (page : Page F) (out : Asked F (List ℕ)) : Type 0 where
  pub before : List (PageCommand F)
  pub refused : answered (page.ask before clears) ≡ false
  pub outcome : out.0 ≡ before ++ clears ∷ []

abbrev pub Restored : {F : Type 0} → Page F → Asked F (List ℕ) → Type 0
Restored page out =
    (is_overridden page [] false out.0 ≡ false) ⊎ OverrideFailed page out ⊎ ClearFailed page out

module _ {F : Type 0} (page : Page F) where
  is_overridden-append :
      (before : List (PageCommand F)) (b : Bool) (cs more : List (PageCommand F))
      → is_overridden page before b (cs ++ more)
        ≡ is_overridden page (before ++ cs) (is_overridden page before b cs) more
  unfolding is_overridden
  is_overridden-append before b [] more =
      ap (λ l. is_overridden page l b more) (sym (append-nil before))
  is_overridden-append before b (c ∷ cs) more =
      is_overridden-append (before ++ c ∷ []) (after_command page before b c) cs more
      ∙ ap
          (λ l.
            is_overridden page l
              (is_overridden page (before ++ c ∷ []) (after_command page before b c) cs) more)
          (append_assoc before (c ∷ []) cs)

  next-Restored :
      {A : Type 0} (out : Asked F A) (rest : List (PageCommand F) → A → Asked F (List ℕ))
      → is_overridden page [] false out.0 ≡ false
      → ((asked : List (PageCommand F)) (a : A)
          → is_overridden page [] false asked ≡ false
          → Restored page (rest asked a))
      → Restored page (next out rest)
  next-Restored (asked, fails e) rest h k = inl h
  next-Restored (asked, gives a) rest h k = k asked a h

  evaluate_js-keeps :
      (asked : List (PageCommand F)) (expression : Text)
      → is_overridden page [] false asked ≡ false
      → is_overridden page [] false (evaluate_js page asked expression).0 ≡ false
  unfolding evaluate_js is_overridden
  evaluate_js-keeps asked expression h = go (page.ask asked (runs expression false))
    where
      kept : is_overridden page [] false (asked ++ runs expression false ∷ []) ≡ false
      kept = is_overridden-append [] false asked (runs expression false ∷ []) ∙ h

      go :
          (a : Answer (Option (Json F)))
          → is_overridden page [] false
              (next
                (asked ++ runs expression false ∷ [], a)
                (λ asked' result. (asked', evaluated page result))).0
            ≡ false
      go (fails e) = kept
      go (gives result) = kept

  -- The outcome of a capture, whatever it is, by the answer to the clearing before it.
  cleared-Restored :
      (before : List (PageCommand F)) (response : Answer (Option (Json F)))
      → let asked = before ++ clears ∷ [] in
        Restored page (next (asked, response) (λ asked' result. (asked', image_of page result)))
  cleared-Restored before response = go response (Bool-cases (answered (page.ask before clears)))
    where
      cleared :
          answered (page.ask before clears) ≡ true
          → is_overridden page [] false (before ++ clears ∷ []) ≡ false
      cleared h =
          is_overridden-append [] false before (clears ∷ [])
          ∙ (unfold is_overridden in ground (arith, h))

      go :
          (r : Answer (Option (Json F)))
          → (answered (page.ask before clears) ≡ true) ⊎ (answered (page.ask before clears) ≡ false)
          → Restored page
              (next (before ++ clears ∷ [], r) (λ asked' result. (asked', image_of page result)))
      go (fails e) (inl h) = inl (cleared h)
      go (gives result) (inl h) = inl (cleared h)
      go (fails e) (inr h) = inr (inr (record { before = before; refused = h; outcome = refl }))
      go (gives result) (inr h) =
          inr (inr (record { before = before; refused = h; outcome = refl }))

  capture_overridden-Restored :
      (asked : List (PageCommand F)) (format : Text) (quality : Option ℕ) (width height : ℕ)
      → Restored page (capture_overridden page asked format quality width height)
  unfolding capture_overridden
  capture_overridden-Restored asked format quality width height =
      go (page.ask asked (overrides width height)) refl
    where
      begun : List (PageCommand F)
      begun = asked ++ overrides width height ∷ []

      rest : List (PageCommand F) → Option (Json F) → Asked F (List ℕ)
      rest asked₁ _ =
          next
            (
              (asked₁ ++ captures format quality none ∷ []) ++ clears ∷ [],
              page.ask asked₁ (captures format quality none),
            )
            (λ asked₄ result. (asked₄, image_of page result))

      go :
          (a : Answer (Option (Json F)))
          → page.ask asked (overrides width height) ≡ a
          → Restored page (next (begun, a) rest)
      go (fails e) r = inr (
          inl (record {
            before = asked;
            width = width;
            height = height;
            error = e;
            refused = r;
            outcome = refl;
          }))
      go (gives result) r =
          cleared-Restored (begun ++ captures format quality none ∷ [])
            (page.ask begun (captures format quality none))

  -- If the viewport is not overridden before a screenshot of the full page, then it is not
  -- overridden after it, whether or not there is an image, but for two cases: the command that
  -- overrides it fails, which then was the last command, and whose error is the outcome; or the
  -- command that clears the override fails, which then was the last command. A command to override
  -- is taken to override whatever its answer, and one to clear to clear if its answer is no error.
  pub capture_full_page_screenshot-Restored :
      (asked : List (PageCommand F)) (format : Text) (quality : Option ℕ)
      → is_overridden page [] false asked ≡ false
      → Restored page (capture_full_page_screenshot page asked format quality)
  unfolding capture_full_page_screenshot
  capture_full_page_screenshot-Restored asked format quality h =
      next-Restored (evaluate_js page asked (script page)) _
        (evaluate_js-keeps asked (script page) h)
        (λ asked₁ value h₁.
          next-Restored (asked₁, dimensions page value) _ h₁
            (λ asked₂ dims h₂. capture_overridden-Restored _ format quality _ _))
