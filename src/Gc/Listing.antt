-- ===== src/Gc/Listing.antt =====
-- What Docker answers to the listings of findOrphanedContainers.
use agentic_paasd.Prelude.{
  ℕ, ◌≡◌, refl, true, List, [], ◌∷◌, Text, All, All-imp, any, same, same_refl, arith,
}
use agentic_paasd.Runtime.{Env, Call, got}

-- Docker listed the container under that label.
abbrev pub IsListed : Env → Text → Text → Text → Type 0
IsListed env label value id =
    (t : ℕ) × (ids : List Text) × (env.ask_list t (Call.list_by_label label value) ≡ got ids)
    × (any (λ x. same x id) ids ≡ true)

members :
    (all xs : List Text)
    → ((id : Text) → any (λ x. same x id) xs ≡ true → any (λ x. same x id) all ≡ true)
    → All (λ id. any (λ x. same x id) all ≡ true) xs
members all [] k = tt
members all (x ∷ xs) k =
    (k x (rw (same_refl x) refl), members all xs (λ id h. k id (ground (arith, h))))

-- What a listing answers is listed.
pub IsListed-All :
    (env : Env) (label value : Text) (t : ℕ) (ids : List Text)
    → env.ask_list t (Call.list_by_label label value) ≡ got ids
    → All (IsListed env label value) ids
IsListed-All env label value t ids e =
    All-imp ids (λ id h. (t, ids, e, h)) (members ids ids (λ id h. h))

pub All-units : (xs : List Text) → All (λ _. Unit {0}) xs
All-units [] = tt
All-units (x ∷ xs) = (tt, All-units xs)
