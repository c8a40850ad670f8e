-- ===== src/Http/Pages.antt =====
-- The handlers of crates/vscreen-server/src/handlers.rs for screenshots and for the history of the
-- page, with the methods of supervisor.rs that they call. The images of a sequence stand as bytes,
-- not in base64; the pauses between them are left out.
pub mod Sequences
use vscreen.Base.{
  Bool, List, Option, String, [], if◌then◌else◌, length, suc, zero, ℕ, ◌++◌, ◌==◌, ◌∷◌, nat_eq,
  string_eq,
}
use vscreen.Base.Assoc.{get}
use vscreen.Base.Text.{Text, codes, text_eq}
use vscreen.Core.Errors.{CdpError, VScreenError, cdp}
use vscreen.Cdp.Pages
use vscreen.Cdp.Pages.{
  Answer, Asked, Json, Page, PageCommand, capture_full_page_screenshot, capture_screenshot,
  evaluate_js, fails, gives, next, script,
}
use vscreen.Http.State.{
  AppState, ImageType, Response, Supervisor, answer, done, error_response, image, images, jpeg,
  on_supervisor, png, put_supervisor, require_supervisor, webp,
}

pub record ScreenshotQuery : Type 0 where
  pub format : Text
  pub quality : Option ℕ
  pub full_page : Bool

pub record ScreenshotSequenceRequest : Type 0 where
  pub count : ℕ
  pub format : Text
  pub quality : Option ℕ

-- `match query.format.as_str() { .. }`
abbrev pub content_type : Text → ImageType
content_type format =
    if format == codes "jpeg" then jpeg else if format == codes "webp" then webp else png

module _ {F : Type 0} (page : Page F) where
  -- The loop of `capture_screenshot_sequence`, with the images so far and so many rounds left.
  unfoldable pub capture_each :
      List (PageCommand F) → Text → Option ℕ → List (List ℕ) → ℕ → Asked F (List (List ℕ))
  capture_each asked format quality taken zero = (asked, gives taken)
  capture_each asked format quality taken (suc rounds) =
      Pages.next (capture_screenshot page asked format quality)
        (λ asked' image. capture_each asked' format quality (taken ++ image ∷ []) rounds)

  unfoldable pub capture_screenshot_sequence :
      List (PageCommand F) → ℕ → Text → Option ℕ → Asked F (List (List ℕ))
  unfolding capture_each
  capture_screenshot_sequence asked count format quality =
      capture_each asked format quality [] count

  -- What a handler makes of the outcome.
  abbrev pub settle :
      {A : Type 0}
      → AppState F
      → String
      → Supervisor F
      → (A → Response)
      → Asked F A
      → AppState F × Response
  settle state id sup answered (asked, fails e) =
      (put_supervisor state id (record sup { asked = asked }), error_response (VScreenError.cdp e))
  settle state id sup answered (asked, gives a) =
      (put_supervisor state id (record sup { asked = asked }), answered a)

  unfoldable pub screenshot : AppState F → String → ScreenshotQuery → AppState F × Response
  screenshot state id query = on_supervisor state (require_supervisor state id) (λ sup.
      settle state id sup (λ bytes. answer 200 (image (content_type query.format) bytes))
        (if query.full_page
          then capture_full_page_screenshot page sup.asked query.format query.quality
          else capture_screenshot page sup.asked query.format query.quality))

  unfoldable pub screenshot_sequence :
      AppState F → String → ScreenshotSequenceRequest → AppState F × Response
  unfolding capture_screenshot_sequence
  screenshot_sequence state id body = on_supervisor state (require_supervisor state id) (λ sup.
      settle state id sup (λ taken. answer 200 (images taken body.format (length taken)))
        (capture_screenshot_sequence sup.asked body.count body.format body.quality))

  abbrev run_script : AppState F → String → Text → AppState F × Response
  run_script state id script =
      on_supervisor state (require_supervisor state id)
        (λ sup. settle state id sup (λ _. answer 200 done) (evaluate_js page sup.asked script))

  unfoldable pub go_back : AppState F → String → AppState F × Response
  go_back state id = run_script state id (codes "history.back()")

  unfoldable pub go_forward : AppState F → String → AppState F × Response
  go_forward state id = run_script state id (codes "history.forward()")
