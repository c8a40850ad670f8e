-- ===== src/Cdp/Pages.antt =====
-- crates/vscreen-cdp/src/client.rs: the commands that wait for the answer of the page. What the
-- browser answers is a parameter, by the commands that it was asked so far: an error, or what the
-- response has as its result. serde_json, base64 and the cast of an `f64` to a `u32` are parameters
-- too. The pauses are left out.
pub mod Restores
use vscreen.Base.{
  Bool, List, Option, String, [], false, if◌then◌else◌, max, none, some, true, ℕ, ◌++◌, ◌==◌, ◌∷◌,
  nat_eq, string_eq,
}
use vscreen.Base.Text.{Text, codes, text_eq}
use vscreen.Core.Errors.{CdpError, parse, protocol}

mutual
  -- `serde_json::Value`; `other` is a Boolean or an array.
  pub data Json (F : Type 0) : Type 0 where
    null other : Json F
    text : Text → Json F
    number : F → Json F
    object : Fields F → Json F

  pub data Fields (F : Type 0) : Type 0 where
    end : Fields F
    field : Text → Json F → Fields F → Fields F

abbrev find_field : {F : Type 0} → Text → Fields F → Option (Json F)
find_field key end = none
find_field key (field name value rest) =
    let later = find_field key rest in if name == key then some value else later

-- `Value::get`, `as_str` and `as_f64`.
abbrev pub get_key : {F : Type 0} → Text → Json F → Option (Json F)
get_key key (object fields) = find_field key fields
get_key key value = none

abbrev pub as_str : {F : Type 0} → Json F → Option Text
as_str (text s) = some s
as_str value = none

abbrev pub as_f64 : {F : Type 0} → Json F → Option F
as_f64 (number x) = some x
as_f64 value = none

-- `and_then`.
abbrev pub and_then {ℓ κ} : {A : Type ℓ} {B : Type κ} → Option A → (A → Option B) → Option B
and_then none f = none
and_then (some a) f = f a

abbrev pub unwrap_or {ℓ} : {A : Type ℓ} → Option A → A → A
unwrap_or none a = a
unwrap_or (some b) a = b

pub data Answer (A : Type 0) : Type 0 where
  fails : CdpError → Answer A
  gives : A → Answer A

pub record Clip (F : Type 0) : Type 0 where
  pub x : F
  pub y : F
  pub width : F
  pub height : F
  pub scale : F

pub data PageCommand (F : Type 0) : Type 0 where
  runs : Text → Bool → PageCommand F
  captures : Text → Option ℕ → Option (Clip F) → PageCommand F
  overrides : ℕ → ℕ → PageCommand F
  clears : PageCommand F
  asks_frames : PageCommand F

-- The browser and the libraries.
pub record Page (F : Type 0) : Type 0 where
  pub ask : List (PageCommand F) → PageCommand F → Answer (Option (Json F))
  pub from_json : Text → Option (Json F)
  pub decode_base64 : Text → Option (List ℕ)
  pub of_nat : ℕ → F
  pub smaller : F → F → F
  pub to_u32 : F → ℕ

-- The commands asked so far, and what an operation returns.
abbrev pub Asked : Type 0 → Type 0 → Type 0
Asked F A = List (PageCommand F) × Answer A

abbrev protocol_error : {A : Type 0} → String → Answer A
protocol_error reason = fails (CdpError.protocol (codes reason))

-- `?`
abbrev pub next : {F A B : Type 0} → Asked F A → (List (PageCommand F) → A → Asked F B) → Asked F B
next (asked, fails e) rest = (asked, fails e)
next (asked, gives a) rest = rest asked a

module _ {F : Type 0} (page : Page F) where
  -- `send_command_and_wait`, seen from its caller.
  abbrev pub ask_page : List (PageCommand F) → PageCommand F → Asked F (Option (Json F))
  ask_page asked command = (asked ++ command ∷ [], page.ask asked command)

  abbrev exception_text : Json F → Text
  exception_text exception =
      unwrap_or (and_then (get_key (codes "text") exception) as_str) (codes "unknown JS error")

  -- What is made of the result of an evaluation.
  unfoldable pub evaluated : Option (Json F) → Answer (Json F)
  evaluated none = protocol_error "missing evaluation result"
  evaluated (some result) = elim (get_key (codes "exceptionDetails") result) [
    | some exception ↦
        fails (CdpError.protocol (codes "JS exception: " ++ exception_text exception))
    | none ↦
        gives
          (unwrap_or (and_then (get_key (codes "result") result) (get_key (codes "value"))) null)
  ]

  unfoldable pub evaluate_js : List (PageCommand F) → Text → Asked F (Json F)
  unfolding evaluated
  evaluate_js asked expression =
      next (ask_page asked (runs expression false)) (λ asked' result. (asked', evaluated result))

  unfoldable pub evaluate_js_async : List (PageCommand F) → Text → Asked F (Json F)
  unfolding evaluated
  evaluate_js_async asked expression =
      next (ask_page asked (runs expression true)) (λ asked' result. (asked', evaluated result))

  -- The bytes of the image in the result of a capture.
  unfoldable pub image_of : Option (Json F) → Answer (List ℕ)
  image_of result = elim (and_then (and_then result (get_key (codes "data"))) as_str) [
    | some data_text ↦ elim (page.decode_base64 data_text) [
      | some bytes ↦ gives bytes
      | none ↦ protocol_error "base64 decode failed: "
    ]
    | none ↦ protocol_error "missing screenshot data in response"
  ]

  unfoldable pub capture_screenshot : List (PageCommand F) → Text → Option ℕ → Asked F (List ℕ)
  unfolding image_of
  capture_screenshot asked format quality =
      next (ask_page asked (captures format quality none))
        (λ asked' result. (asked', image_of result))

  unfoldable pub capture_screenshot_clip_scaled :
      List (PageCommand F) → Text → Option ℕ → Option (Clip F) → Asked F (List ℕ)
  unfolding image_of
  capture_screenshot_clip_scaled asked format quality clip =
      next (ask_page asked (captures format quality clip))
        (λ asked' result. (asked', image_of result))

  unfoldable pub get_frame_tree : List (PageCommand F) → Asked F (Json F)
  get_frame_tree asked =
      next (ask_page asked asks_frames) (λ asked' result. (asked', gives (unwrap_or result null)))

  abbrev pub script : Text
  script =
      codes
        "JSON.stringify({w: Math.max(document.documentElement.scrollWidth, document.body.scrollWidth), h: Math.max(document.documentElement.scrollHeight, document.body.scrollHeight)})"

  -- A dimension of the document, capped, as a `u32`.
  abbrev capped : Text → ℕ → Json F → ℕ
  capped key otherwise dims = page.to_u32 (
      page.smaller (unwrap_or (and_then (get_key key dims) as_f64) (page.of_nat otherwise))
        (page.of_nat 16384))

  -- The dimensions of the document, as JSON.
  unfoldable pub dimensions : Json F → Answer (Json F)
  dimensions value = elim (as_str value) [
    | some s ↦ elim (page.from_json s) [
      | some dims ↦ gives dims
      | none ↦ protocol_error "failed to parse dimensions: "
    ]
    | none ↦ protocol_error "unexpected type for document dimensions"
  ]

  -- From the override on: capture, clear the override whatever came of it, and look at the capture.
  unfoldable pub capture_overridden :
      List (PageCommand F) → Text → Option ℕ → ℕ → ℕ → Asked F (List ℕ)
  unfolding image_of
  capture_overridden asked format quality width height =
      next (ask_page asked (overrides width height)) (λ asked₁ _.
        let (asked₂, response) = ask_page asked₁ (captures format quality none) in
        let asked₃ = (ask_page asked₂ clears).0 in
        next (asked₃, response) (λ asked₄ result. (asked₄, image_of result)))

  unfoldable pub capture_full_page_screenshot :
      List (PageCommand F) → Text → Option ℕ → Asked F (List ℕ)
  unfolding evaluate_js dimensions capture_overridden
  capture_full_page_screenshot asked format quality =
      next (evaluate_js asked script) (λ asked₁ value.
        next (asked₁, dimensions value)
          (λ asked₂ dims.
            capture_overridden (evaluate_js asked₂ (codes "window.scrollTo(0, 0)")).0 format quality
              (capped (codes "w") 1920 dims) (capped (codes "h") 1080 dims)))
