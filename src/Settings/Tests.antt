-- ===== src/Settings/Tests.antt =====
-- Flags of reaper/settings.py at concrete texts.
use Prim.Native.String
use reaper.Base.{true, String, ◌≡◌, refl, none, some, if◌then◌else◌, ◌==◌, string_eq}
use reaper.Settings.{isdigit, all_digits, int, task_pool, maintenance_pool, parse_flag}
use reaper.Settings.Flags.{parse_flag-joined}

abbrev mail : String
mail = "mail"

abbrev twelve : String
twelve = "12"

abbrev maintenance : String
maintenance = "maintenance"

abbrev empty_name : String
empty_name = ""

digits : isdigit twelve ≡ true
unfolding all_digits
digits = refl

parse_flag-joined_example :
    (parse_flag (String.◌++◌ mail (String.◌∷◌ ":" twelve)) ≡ (
      if mail == maintenance
      then some (maintenance_pool (int twelve))
      else if mail == empty_name
      then none
      else some (task_pool (int twelve) (some mail))))
    × (parse_flag (String.◌++◌ mail (String.◌∷◌ ":" (String.◌++◌ twelve (String.◌∷◌ ":" "3"))))
        ≡ none)
parse_flag-joined_example = parse_flag-joined mail twelve refl digits "3"
