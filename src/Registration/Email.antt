-- ===== src/Registration/Email.antt =====
-- `emailRegex` of internal/api/tenants.go:
-- ^[a-zA-Z0-9._%+\-]+@[a-zA-Z0-9.\-]+\.[a-zA-Z]{2}$
use agentic_paasd.Prelude.{
  ℕ, Bool, true, false, not, ◌&&◌, ◌||◌, Option, none, some, [], ◌∷◌, Text, is_empty, length, leb,
  ◌==◌, if◌then◌else◌,
}
use agentic_paasd.Auth.Token.{cut}

abbrev pub is_letter : ℕ → Bool
is_letter x = (leb 97 x && leb x 122) || (leb 65 x && leb x 90)

abbrev pub is_alnum : ℕ → Bool
is_alnum x = is_letter x || (leb 48 x && leb x 57)

-- a letter, a digit, or one of . -
abbrev pub is_domain_char : ℕ → Bool
is_domain_char x = is_alnum x || (x == 46) || (x == 45)

-- a domain character, or one of _ % +
abbrev pub is_local_char : ℕ → Bool
is_local_char x = is_domain_char x || (x == 95) || (x == 37) || (x == 43)

unfoldable pub all_chars : (ℕ → Bool) → Text → Bool
all_chars p [] = true
all_chars p (x ∷ s) = p x && all_chars p s

-- What stands before and after the last dot: the top-level name has none.
unfoldable pub cut_last : Text → Option (Text × Text)
cut_last [] = none
cut_last (x ∷ s) =
    let rest = cut_last s in
    elim rest [ some p ↦ some (x ∷ p.0, p.1) | none ↦ if x == 46 then some ([], s) else none ]

unfoldable pub domain_matches : Text → Bool
domain_matches s = elim (cut_last s) [
  | none ↦ false
  | some (name, top) ↦
      not (is_empty name)
      && all_chars is_domain_char name
      && leb 2 (length top)
      && all_chars is_letter top
]

-- A local part has no @, so that the first one ends it.
unfoldable pub email_matches : Text → Bool
email_matches s = elim (cut 64 s) [
  | none ↦ false
  | some (local, domain) ↦
      not (is_empty local) && all_chars is_local_char local && domain_matches domain
]
