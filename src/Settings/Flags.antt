-- ===== src/Settings/Flags.antt =====
-- The compact form of a pool in reaper/settings.py, TOPIC:COUNT.
use Prim.Native.Char.{code}
use Prim.Native.String
use Prim.Native.String.append
use reaper.Base.{
  ◌≡◌, refl, String, Bool, true, false, not, ◌&&◌, none, some, List, [], ◌∷◌, if◌then◌else◌, ◌==◌,
  nat_eq, string_eq, arith, Bool-cases, inl, inr,
}
use reaper.Settings.{
  split, all_digits, isdigit, int, task_pool, maintenance_pool, match_parts, parse_flag,
}

-- A text without a colon.
abbrev pub no_colon : String → Bool
no_colon String.[] = true
no_colon (String.◌∷◌ c s) = not (code c == b':') && no_colon s

split-alone : (s : String) → no_colon s ≡ true → split s ≡ s ∷ []
unfolding split
split-alone String.[] h = refl
split-alone (String.◌∷◌ c s) h =
    let other : (code c == b':') ≡ false = ground arith in
    rw (other, split-alone s (ground arith)) refl

split-joined :
    (t s : String) → no_colon t ≡ true → split (String.◌++◌ t (String.◌∷◌ ":" s)) ≡ t ∷ split s
unfolding split
split-joined String.[] s h = rw (append.nil (String.◌∷◌ ":" s)) refl
split-joined (String.◌∷◌ c t) s h =
    let other : (code c == b':') ≡ false = ground arith in
    rw (append.cons c t (String.◌∷◌ ":" s)) (rw (other, split-joined t s (ground arith)) refl)

-- A text has at least one part.
split-more : (s : String) → (part : String) × (parts : List String) × (split s ≡ part ∷ parts)
unfolding split
split-more String.[] = ("", [], refl)
split-more (String.◌∷◌ c s) =
    let (part, parts, e) = split-more s in
    elim (Bool-cases (code c == b':')) [
      | inl colon ↦ ("", split s, rw colon refl)
      | inr other ↦ (String.◌∷◌ c part, parts, rw (other, e) refl)
    ]

digits-no_colon : (s : String) → all_digits s ≡ true → no_colon s ≡ true
unfolding all_digits
digits-no_colon String.[] h = refl
digits-no_colon (String.◌∷◌ c s) h = let rest = digits-no_colon s (ground arith) in ground arith

isdigit-no_colon : (s : String) → isdigit s ≡ true → no_colon s ≡ true
isdigit-no_colon s h = digits-no_colon s (ground arith)

-- NAME:COUNT, where the name has no colon and the count is digits, is a maintenance pool when the name
-- is "maintenance", a task pool on the topic of that name when it is another text, and refused when it
-- is empty. A third part is refused whatever it is.
pub parse_flag-joined :
    (name count : String)
    → no_colon name ≡ true
    → isdigit count ≡ true
    → (rest : String)
    → (parse_flag (String.◌++◌ name (String.◌∷◌ ":" count)) ≡ (
        if name == "maintenance"
        then some (maintenance_pool (int count))
        else if name == ""
        then none
        else some (task_pool (int count) (some name))))
      × (parse_flag (String.◌++◌ name (String.◌∷◌ ":" (String.◌++◌ count (String.◌∷◌ ":" rest))))
          ≡ none)
unfolding parse_flag match_parts
parse_flag-joined name count plain digits rest =
    let digits_plain = isdigit-no_colon count digits in
    (
      rw (split-joined name count plain, split-alone count digits_plain, digits) (ground arith),
      rw (split-joined name (String.◌++◌ count (String.◌∷◌ ":" rest)) plain) (
          rw (split-joined count rest digits_plain)
            (let (part, parts, e) = split-more rest in rw e refl)),
    )
