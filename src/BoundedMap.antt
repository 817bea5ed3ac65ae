-- ===== src/BoundedMap.antt =====
-- A Go map with text keys, and the loop "evict oldest if at capacity" that internal/middleware and
-- internal/api/tenants.go write out five times. A map is the list of its entries, in the order in
-- which `range` would walk it; keys are not repeated, since a write drops the old entry.
pub mod Laws
use agentic_paasd.Prelude.{
  ℕ, Bool, true, false, ◌&&◌, ◌||◌, Option, none, some, List, [], ◌∷◌, Text, same, is_empty, length,
  drop_all, ltb, leb, if◌then◌else◌,
}

module _ {V : Type 0} where
  abbrev pub has_key : Text → Text × V → Bool
  has_key k e = same e.0 k

  -- entry, exists := m[k]
  unfoldable pub get : Text → List (Text × V) → Option V
  get k [] = none
  get k ((j, v) ∷ m) = if same j k then some v else get k m

  -- delete(m, k)
  unfoldable pub delete : Text → List (Text × V) → List (Text × V)
  delete k m = drop_all (has_key k) m

  -- m[k] = v
  unfoldable pub put : Text → V → List (Text × V) → List (Text × V)
  put k v m = (k, v) ∷ delete k m

  -- The loop over `oldestKey` and `oldestTime`.
  unfoldable pub oldest : (V → ℕ) → Text → ℕ → List (Text × V) → Text
  oldest time key t [] = key
  oldest time key t ((k, v) ∷ m) =
      let newer = is_empty key || ltb (time v) t in
      oldest time (if newer then k else key) (if newer then time v else t) m

  abbrev delete_oldest : Text → List (Text × V) → List (Text × V)
  delete_oldest key m = if is_empty key then m else delete key m

  -- Evict oldest if at capacity.
  unfoldable pub evict : ℕ → (V → ℕ) → List (Text × V) → List (Text × V)
  evict capacity time m =
      if leb capacity (length m) then delete_oldest (oldest time [] 0 m) m else m
