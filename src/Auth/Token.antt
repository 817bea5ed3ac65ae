-- ===== src/Auth/Token.antt =====
-- The `Authorization` header of internal/middleware/auth.go: "Bearer keyID.secret". Text is its
-- bytes; the spaces that are trimmed are the ASCII ones.
use agentic_paasd.Prelude.{
  ℕ, ◌+◌, Bool, ◌&&◌, ◌||◌, Option, none, some, [], ◌∷◌, Text, codes, same, is_empty, length, ltb,
  leb, ◌==◌, if◌then◌else◌, map,
}

-- What stands before and after the first occurrence of a byte, if there is one.
unfoldable pub cut : ℕ → Text → Option (Text × Text)
cut b [] = none
cut b (x ∷ s) =
    let rest = cut b s in
    if x == b then some ([], s) else elim rest [ none ↦ none | some p ↦ some (x ∷ p.0, p.1) ]

abbrev pub is_space : ℕ → Bool
is_space x = (x == 32) || (leb 9 x && leb x 13)

unfoldable pub trim_left : Text → Text
trim_left [] = []
trim_left (x ∷ s) = let rest = trim_left s in if is_space x then rest else x ∷ s

unfoldable pub trim_right : Text → Text
trim_right [] = []
trim_right (x ∷ s) = let rest = trim_right s in if is_empty rest && is_space x then [] else x ∷ rest

-- strings.TrimSpace
abbrev pub trim_space : Text → Text
trim_space s = trim_right (trim_left s)

abbrev pub lower : ℕ → ℕ
lower x = if leb 65 x && leb x 90 then x + 32 else x

-- strings.EqualFold(s, "Bearer"): no letter of the word has a fold outside ASCII.
abbrev pub is_bearer : Text → Bool
is_bearer s = same (map lower s) (codes "bearer")

pub data Refusal : Type 0 where
  missing_header bad_format invalid_key unavailable : Refusal

pub data Token : Type 0 where
  refused : Refusal → Token
  token : Text → Text → Token

abbrev pub split_token : Text → Token
split_token s = elim (cut 46 s) [
  | none ↦ refused invalid_key
  | some (key_id, secret) ↦
      if is_empty key_id || is_empty secret
      then refused invalid_key
      else if ltb 64 (length key_id) || ltb 256 (length secret)
      then refused invalid_key
      else token key_id secret
]

unfoldable pub parse : Text → Token
parse header = if is_empty header then refused missing_header else elim (cut 32 header) [
  | none ↦ refused bad_format
  | some (scheme, rest) ↦
      if is_bearer scheme then split_token (trim_space rest) else refused bad_format
]
