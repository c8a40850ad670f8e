-- ===== src/Rtsp/Parser/Url.antt =====
-- crates/vscreen-rtsp/src/parser.rs: what the handlers read from a URL.
use vscreen.Base.Assoc
use vscreen.Base.Assoc.{get, insert}
use vscreen.Base.Text.{
  Text, codes, find_text, parse_number, split, split_once, split_parts, starts_with, strip_prefix,
  to_lowercase, text_eq,
}
use vscreen.Base.{
  Bool, List, Option, [], false, if◌then◌else◌, is_empty, none, not, some, true, ℕ, ◌&&◌, ◌==◌,
  ◌||◌, ◌∷◌, nat_eq, string_eq,
}
use vscreen.Rtsp.Session.{MediaConfig}

abbrev after : Option (Text × Text) → Text → Text
after none s = s
after (some r) s = r.1

-- From the first `/` on; empty if there is none.
unfoldable pub from_slash : Text → Text
from_slash [] = []
from_slash (c ∷ s) = let rest = from_slash s in if c == b'/' then c ∷ s else rest

-- Without scheme, host and query.
unfoldable pub extract_url_path : Text → Text
unfolding from_slash
extract_url_path url = (split_parts b'?' (from_slash (after (find_text (codes "://") url) url))).0

abbrev or_self : Option Text → Text → Text
or_self (some s) t = s
or_self none t = t

-- The path without its first `/`.
unfoldable pub segments : Text → Text
unfolding extract_url_path
segments url = let path = extract_url_path url in or_self (strip_prefix (codes "/") path) path

abbrev instance_in : List Text → Option Text
instance_in (kind ∷ id ∷ rest) =
    if (kind == codes "stream" || kind == codes "audio") && not (is_empty id) then some id else none
instance_in parts = none

unfoldable pub extract_instance_id : Text → Option Text
unfolding segments
extract_instance_id url = instance_in (split b'/' (segments url))

unfoldable pub is_audio_only_url : Text → Bool
unfolding segments
is_audio_only_url url = starts_with (codes "audio/") (segments url)

abbrev last_segment : List Text → Text
last_segment [] = []
last_segment (s ∷ []) = s
last_segment (s ∷ t ∷ rest) = last_segment (t ∷ rest)

unfoldable pub extract_track_id : Text → Option ℕ
unfolding segments
extract_track_id url =
    elim (strip_prefix (codes "trackID=") (last_segment (split b'/' (segments url)))) [
      | none ↦ none
      | some id ↦ parse_number 255 id
    ]

-- The loop over the pairs of the query.
unfoldable pub add_params : List Text → List (Text × Text) → List (Text × Text)
add_params [] params = params
add_params (pair ∷ pairs) params = elim (split_once b'=' pair) [
  | none ↦ add_params pairs params
  | some e ↦ add_params pairs (Assoc.insert (to_lowercase e.0) e.1 params)
]

unfoldable pub extract_query_params : Text → List (Text × Text)
unfolding add_params
extract_query_params url = elim (split_once b'?' url) [
  | none ↦ []
  | some r ↦ add_params (split b'&' r.1) []
]

-- `map_or(true, |v| !matches!(v, "false" | "0" | "no"))`
abbrev is_on : Option Text → Bool
is_on none = true
is_on (some v) = not (v == codes "false" || v == codes "0" || v == codes "no")

unfoldable pub parse_media_config : Text → MediaConfig
unfolding is_audio_only_url extract_query_params
parse_media_config url =
    let params = extract_query_params url in
    if is_audio_only_url url then record { has_video = false; has_audio = true } else record {
      has_video = is_on (get (codes "video") params);
      has_audio = is_on (get (codes "audio") params);
    }
