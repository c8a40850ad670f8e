-- ===== src/Cdp/Input.antt =====
-- crates/vscreen-cdp/src/input.rs, with the events of crates/vscreen-core/src/event.rs and the
-- parameters of crates/vscreen-cdp/src/protocol.rs: the CDP request that an input event becomes.
-- A coordinate, an `f64`, is passed on as it is, so its type is a parameter; a key is the text of
-- its bytes.
pub mod Buttons
use vscreen.Base.Assoc.{get}
use vscreen.Base.{
  Bool, List, Option, [], false, if◌then◌else◌, leb, ltb, none, some, true, ℕ, ◌%◌, ◌&&◌, ◌-◌, ◌/◌,
  ◌==◌, ◌^◌, ◌||◌, ◌∷◌, nat_eq, string_eq,
}
use vscreen.Base.Text.{Text, codes, text_eq}

pub data InputEvent (F : Type 0) : Type 0 where
  mouse_move : F → F → ℕ → ℕ → InputEvent F
  mouse_down : F → F → ℕ → ℕ → InputEvent F
  mouse_up : F → F → ℕ → ℕ → InputEvent F
  wheel : F → F → F → F → ℕ → InputEvent F
  key_down : Text → Text → ℕ → InputEvent F
  key_up : Text → Text → ℕ → InputEvent F
  paste : Text → InputEvent F
  bitrate_hint : ℕ → InputEvent F

-- `modifiers`.
unfoldable pub modifiers : {F : Type 0} → InputEvent F → ℕ
modifiers (mouse_move x y b m) = m
modifiers (mouse_down x y b m) = m
modifiers (mouse_up x y b m) = m
modifiers (wheel x y dx dy m) = m
modifiers (key_down key code m) = m
modifiers (key_up key code m) = m
modifiers (paste text) = 0
modifiers (bitrate_hint kbps) = 0

unfoldable pub is_keyboard : {F : Type 0} → InputEvent F → Bool
is_keyboard (key_down key code m) = true
is_keyboard (key_up key code m) = true
is_keyboard event = false

unfoldable pub is_mouse : {F : Type 0} → InputEvent F → Bool
is_mouse (mouse_move x y b m) = true
is_mouse (mouse_down x y b m) = true
is_mouse (mouse_up x y b m) = true
is_mouse (wheel x y dx dy m) = true
is_mouse event = false

pub data MouseType : Type 0 where
  mouse_moved mouse_pressed mouse_released mouse_wheel : MouseType

pub data ButtonName : Type 0 where
  left middle right back forward no_button : ButtonName

pub data KeyType : Type 0 where
  key_downs raw_key_down key_ups : KeyType

pub record DispatchMouseEventParams (F : Type 0) : Type 0 where
  pub event_type : MouseType
  pub x : F
  pub y : F
  pub button : Option ButtonName
  pub buttons : Option ℕ
  pub click_count : Option ℕ
  pub delta_x : Option F
  pub delta_y : Option F
  pub modifiers : ℕ

pub record DispatchKeyEventParams : Type 0 where
  pub event_type : KeyType
  pub key : Option Text
  pub code : Option Text
  pub text : Option Text
  pub modifiers : ℕ
  pub windows_virtual_key_code : Option ℕ

-- A request by its method.
pub data CdpRequest (F : Type 0) : Type 0 where
  dispatch_mouse : DispatchMouseEventParams F → CdpRequest F
  dispatch_key : DispatchKeyEventParams → CdpRequest F
  insert_text : Text → CdpRequest F
  evaluate : Text → CdpRequest F
  reload_page : Bool → CdpRequest F

unfoldable pub button_name : ℕ → ButtonName
button_name b =
    if b == 0
    then left
    else if b == 1
    then middle
    else if b == 2
    then right
    else if b == 3
    then back
    else if b == 4
    then forward
    else no_button

-- The keys with a name, with their codes.
abbrev named_keys : List (Text × ℕ)
named_keys =
    (codes "Backspace", 8)
    ∷ (codes "Tab", 9)
    ∷ (codes "Enter", 13)
    ∷ (codes "Shift", 16)
    ∷ (codes "Control", 17)
    ∷ (codes "Alt", 18)
    ∷ (codes "Pause", 19)
    ∷ (codes "CapsLock", 20)
    ∷ (codes "Escape", 27)
    ∷ (codes " ", 32)
    ∷ (codes "PageUp", 33)
    ∷ (codes "PageDown", 34)
    ∷ (codes "End", 35)
    ∷ (codes "Home", 36)
    ∷ (codes "ArrowLeft", 37)
    ∷ (codes "ArrowUp", 38)
    ∷ (codes "ArrowRight", 39)
    ∷ (codes "ArrowDown", 40)
    ∷ (codes "Insert", 45)
    ∷ (codes "Delete", 46)
    ∷ (codes "Meta", 91)
    ∷ (codes "ContextMenu", 93)
    ∷ (codes "F1", 112)
    ∷ (codes "F2", 113)
    ∷ (codes "F3", 114)
    ∷ (codes "F4", 115)
    ∷ (codes "F5", 116)
    ∷ (codes "F6", 117)
    ∷ (codes "F7", 118)
    ∷ (codes "F8", 119)
    ∷ (codes "F9", 120)
    ∷ (codes "F10", 121)
    ∷ (codes "F11", 122)
    ∷ (codes "F12", 123)
    ∷ (codes "NumLock", 144)
    ∷ (codes "ScrollLock", 145)
    ∷ []

-- The pairs of characters that share a key.
abbrev punctuation : List (ℕ × ℕ × ℕ)
punctuation =
    (59, 58, 186)
    ∷ (61, 43, 187)
    ∷ (44, 60, 188)
    ∷ (45, 95, 189)
    ∷ (46, 62, 190)
    ∷ (47, 63, 191)
    ∷ (96, 126, 192)
    ∷ (91, 123, 219)
    ∷ (92, 124, 220)
    ∷ (93, 125, 221)
    ∷ (39, 34, 222)
    ∷ []

abbrev punctuation_vk : List (ℕ × ℕ × ℕ) → ℕ → Option ℕ
punctuation_vk [] c = none
punctuation_vk ((plain, shifted, vk) ∷ rows) c =
    let rest = punctuation_vk rows c in if c == plain || c == shifted then some vk else rest

-- The inner `match ch`.
unfoldable pub character_vk : ℕ → Option ℕ
character_vk c =
    if leb 97 c && leb c 122
    then some (c - 32)
    else if (leb 65 c && leb c 90) || (leb 48 c && leb c 57)
    then some c
    else punctuation_vk punctuation c

abbrev single_vk : Text → Option ℕ
single_vk (c ∷ []) = character_vk c
single_vk s = none

unfoldable pub key_to_vk : Text → Option ℕ
key_to_vk key = elim (get key named_keys) [ some vk ↦ some vk | none ↦ single_vk key ]

abbrev is_printable : Text → Bool
is_printable (c ∷ []) = true
is_printable s = false

-- Whether the bit of value `w` is set.
abbrev has_bit : ℕ → ℕ → Bool
has_bit b w = b / w % 2 == 1

unfoldable pub held_button : ℕ → Option ButtonName
held_button b =
    if has_bit b 1
    then some left
    else if has_bit b 2
    then some right
    else if has_bit b 4
    then some middle
    else none

-- `1 << *b` for a `u32`, in a release build, where the shift is taken modulo 32.
unfoldable pub pressed_buttons : ℕ → ℕ
pressed_buttons b = 2 ^ (b % 32)

abbrev pub mouse_params : {F : Type 0} → MouseType → F → F → ℕ → DispatchMouseEventParams F
mouse_params event_type x y m = record {
  event_type = event_type;
  x = x;
  y = y;
  button = none;
  buttons = none;
  click_count = none;
  delta_x = none;
  delta_y = none;
  modifiers = m;
}

unfoldable pub input_to_cdp : {F : Type 0} → InputEvent F → CdpRequest F
unfolding button_name key_to_vk held_button pressed_buttons
input_to_cdp (mouse_move x y b m) = dispatch_mouse (record (mouse_params mouse_moved x y m) {
  button = held_button b;
  buttons = if ltb 0 b then some b else none;
})
input_to_cdp (mouse_down x y b m) = dispatch_mouse (record (mouse_params mouse_pressed x y m) {
  button = some (button_name b);
  buttons = some (pressed_buttons b);
  click_count = some 1;
})
input_to_cdp (mouse_up x y b m) = dispatch_mouse (record (mouse_params mouse_released x y m) {
  button = some (button_name b);
  buttons = some 0;
  click_count = some 1;
})
input_to_cdp (wheel x y dx dy m) =
    dispatch_mouse
      (record (mouse_params mouse_wheel x y m) { delta_x = some dx; delta_y = some dy })
input_to_cdp (key_down key code m) = dispatch_key (record {
  event_type = if is_printable key then key_downs else raw_key_down;
  key = some key;
  code = some code;
  text = if is_printable key then some key else none;
  modifiers = m;
  windows_virtual_key_code = key_to_vk key;
})
input_to_cdp (key_up key code m) = dispatch_key (record {
  event_type = key_ups;
  key = some key;
  code = some code;
  text = none;
  modifiers = m;
  windows_virtual_key_code = key_to_vk key;
})
input_to_cdp (paste text) = insert_text text
input_to_cdp (bitrate_hint kbps) = evaluate (codes "void 0")
