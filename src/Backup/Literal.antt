-- ===== src/Backup/Literal.antt =====
-- The path in the statement VACUUM INTO of cmd/ah/backup.go, read the way SQL reads it.
use agentic_paasd.Prelude.{
  ◌≡◌, refl, Bool, true, false, Option, none, some, [], ◌∷◌, ◌++◌, Text, codes, ◌==◌, arith,
}
use agentic_paasd.Backup.Files.{escape, vacuum_statement}

abbrev cons : Option (Text × Text) → Text → Option (Text × Text)
cons none c = none
cons (some (v, rest)) c = some (c ++ v, rest)

-- A string literal of SQL behind its opening quote: its value and what follows it. Two quotes
-- stand for one; the flag says that the last character was a quote.
unfoldable pub read_literal : Bool → Text → Option (Text × Text)
read_literal false [] = none
read_literal true [] = some ([], [])
read_literal false (c ∷ s) = elim (c == b'\'') [
  | true ↦ read_literal true s
  | false ↦ cons (read_literal false s) (c ∷ [])
]
read_literal true (c ∷ s) = elim (c == b'\'') [
  | true ↦ cons (read_literal false s) (b'\'' ∷ [])
  | false ↦ some ([], c ∷ s)
]

read_literal-escape :
    (path : Text) → read_literal false (escape path ++ codes "'") ≡ some (path, [])
unfolding read_literal escape
read_literal-escape [] = refl
read_literal-escape (c ∷ s) = ground (arith, read_literal-escape s)

-- Whatever the path, quotes included, the statement is VACUUM INTO with one string literal, of
-- just that value, and nothing behind it.
pub vacuum_statement-reads_back :
    (path : Text)
    → (text : Text) × (vacuum_statement path ≡ codes "VACUUM INTO '" ++ text)
      × (read_literal false text ≡ some (path, []))
unfolding vacuum_statement
vacuum_statement-reads_back path = (escape path ++ codes "'", refl, read_literal-escape path)
