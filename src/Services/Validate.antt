-- ===== src/Services/Validate.antt =====
-- ValidateImage and ValidateEnvVars of internal/services/services.go. The two regular expressions
-- are written as the automata that read them from left to right.
use agentic_paasd.Prelude.{
  ℕ, ◌-◌, Bool, true, false, not, ◌&&◌, ◌||◌, Option, none, some, List, [], ◌∷◌, Text, codes,
  length, same, any, ltb, leb, ◌==◌, if◌then◌else◌,
}
use agentic_paasd.Runtime.{Error, Result, ok, err}

abbrev pub is_lower : ℕ → Bool
is_lower c = leb b'a' c && leb c b'z'

abbrev pub is_upper : ℕ → Bool
is_upper c = leb b'A' c && leb c b'Z'

abbrev pub is_digit : ℕ → Bool
is_digit c = leb b'0' c && leb c b'9'

-- [a-z0-9]
unfoldable pub is_word : ℕ → Bool
is_word c = is_lower c || is_digit c

-- [._-]
unfoldable pub is_separator : ℕ → Bool
is_separator c = (c == b'.') || ((c == b'_') || (c == b'-'))

-- [a-zA-Z0-9._-]
unfoldable pub is_tag_char : ℕ → Bool
unfolding is_word is_separator
is_tag_char c = is_word c || (is_upper c || is_separator c)

-- How far imageAllowPattern has been read: before a part, in it, behind a separator in it; the
-- same for the part behind the slash; before the tag, in it.
pub data Place : Type 0 where
  start part gap start_2 part_2 gap_2 start_tag tag dead : Place

unfoldable pub read : Place → ℕ → Place
unfolding is_word is_separator is_tag_char
read start c = if is_word c then part else dead
read part c =
    if is_word c
    then part
    else if is_separator c
    then gap
    else if c == b'/'
    then start_2
    else if c == b':'
    then start_tag
    else dead
read gap c = if is_word c then part else dead
read start_2 c = if is_word c then part_2 else dead
read part_2 c =
    if is_word c
    then part_2
    else if is_separator c
    then gap_2
    else if c == b':'
    then start_tag
    else dead
read gap_2 c = if is_word c then part_2 else dead
read start_tag c = if is_tag_char c then tag else dead
read tag c = if is_tag_char c then tag else dead
read dead c = dead

abbrev pub accepts : Place → Bool
accepts part = true
accepts part_2 = true
accepts tag = true
accepts _ = false

-- imageAllowPattern.MatchString
unfoldable pub image_matches : Place → Text → Bool
unfolding read
image_matches p [] = accepts p
image_matches p (c ∷ s) = image_matches (read p c) s

-- The bytes before the first slash, if there is a slash.
unfoldable pub before_slash : Text → Option Text
before_slash [] = none
before_slash (c ∷ s) =
    let rest = before_slash s in
    if c == b'/' then some [] else elim rest [ none ↦ none | some p ↦ some (c ∷ p) ]

-- strings.ContainsAny(prefix, ".:") of a prefix that is not empty
abbrev pub is_registry : Option Text → Bool
is_registry none = false
is_registry (some p) = any (λ c. (c == b'.') || (c == b':')) p

unfoldable pub validate_image : Text → Result (Unit {0})
unfolding before_slash image_matches
validate_image [] = err Error.image_required
validate_image (c ∷ s) =
    let img = c ∷ s in
    if ltb 256 (length img)
    then err Error.image_too_long
    else if is_registry (before_slash img)
    then err Error.custom_registry
    else if image_matches start img
    then ok tt
    else err Error.invalid_image

-- [a-zA-Z_], and [a-zA-Z0-9_]
unfoldable pub is_key_start : ℕ → Bool
is_key_start c = is_lower c || (is_upper c || (c == b'_'))

unfoldable pub is_key_char : ℕ → Bool
unfolding is_key_start
is_key_char c = is_key_start c || is_digit c

abbrev all_key_chars : Text → Bool
all_key_chars s = not (any (λ c. not (is_key_char c)) s)

-- envKeyPattern: a first character, and up to 127 more
unfoldable pub key_matches : Text → Bool
unfolding is_key_char
key_matches [] = false
key_matches (c ∷ s) = is_key_start c && (all_key_chars s && leb (length s) 127)

-- strings.ToUpper, of a key that matched
unfoldable pub to_upper : Text → Text
to_upper [] = []
to_upper (c ∷ s) = (if is_lower c then c - 32 else c) ∷ to_upper s

unfoldable pub is_denied : Text → Bool
is_denied k =
    same k (codes "LD_PRELOAD") || (same k (codes "LD_LIBRARY_PATH") || same k (codes "PATH"))

abbrev pub max_env_value_len : ℕ
max_env_value_len = 32768

unfoldable pub validate_env_var : Text → Text → Result (Unit {0})
unfolding key_matches is_denied to_upper
validate_env_var k v =
    if key_matches k
    then (if is_denied (to_upper k)
        then err Error.env_denied
        else if ltb max_env_value_len (length v)
        then err Error.env_too_long
        else if any (λ c. c == 0) v
        then err Error.env_null
        else ok tt)
    else err Error.invalid_env_key

-- The first error, in the order in which the map is walked.
unfoldable pub validate_env_vars : List (Text × Text) → Result (Unit {0})
unfolding validate_env_var
validate_env_vars [] = ok tt
validate_env_vars ((k, v) ∷ vars) = elim (validate_env_var k v) [
  | err e ↦ err e
  | ok _ ↦ validate_env_vars vars
]
