-- ===== src/Server/AdvisorTests.antt =====
-- A session of calls of tools.
use vscreen.Base.Text.{Text, codes, text_eq}
use vscreen.Base.{List, [], false, none, ◌∷◌, nat_eq, string_eq}
use vscreen.Server.Advisor.{Args}

abbrev args : Args
args = record {
  condition = none;
  expression = none;
  clip = none;
  full_page = false;
  has_duration = false;
}

abbrev typed : Text × Args
typed = (codes "vscreen_type", args)

abbrev calls : List (Text × Args)
calls = typed ∷ typed ∷ typed ∷ typed ∷ typed ∷ typed ∷ typed ∷ []
