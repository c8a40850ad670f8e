-- ===== src/Server/VisionTests.antt =====
-- Answers of a vision model.
use vscreen.Base.Text.{codes, text_eq}
use vscreen.Base.{[], refl, some, ◌++◌, ◌∷◌, ◌≡◌, nat_eq, string_eq}
use vscreen.Server.Vision.{close_brace, extract_json}
use vscreen.Server.Vision.Objects.{
  Body, done, extract_json-show_object, one, plain, quoted, show_object,
}

-- `{"a": "}"}`
abbrev body : Body
body = quoted (one b'a' ∷ []) (plain b':' (plain 32 (quoted (one close_brace ∷ []) done)))

in_prose : extract_json (codes "Sure: {\"x\": \"}\"} ok") ≡ some (codes "{\"x\": \"}\"}")
unfolding extract_json
in_prose = refl

extract_json-show_object_example :
    extract_json (codes "It is " ++ (show_object body ++ codes " }")) ≡ some (show_object body)
extract_json-show_object_example =
    extract_json-show_object (codes "It is ") body (codes " }") refl refl refl refl
