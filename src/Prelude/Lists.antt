-- ===== src/Prelude/Lists.antt =====
-- Lists over the native numbers: lengths, the SQL-like updates by a test, and predicates.
use Prim.Native.Nat.{ℕ, suc, ◌+◌, ◌≤◌}
use mathlib.Core.Path.{◌≡◌, refl, ap, subst}
use mathlib.Core.Logic.{inl, inr}
use mathlib.Core.Bool.{Bool, true, false}
use mathlib.Core.Option.{Option, none, some}
use mathlib.Core.List.{List, [], ◌∷◌, ◌++◌}
use native.Mathlib.Omega.{arith}
use agentic_paasd.Prelude.Tests.{if◌then◌else◌, Bool-cases}

module _ {ℓ} {A : Type ℓ} where
  abbrev pub length : List A → ℕ
  length [] = 0
  length (x ∷ xs) = suc (length xs)

  pub length-append : (xs ys : List A) → length (xs ++ ys) ≡ length xs + length ys
  length-append [] ys = omega arith
  length-append (x ∷ xs) ys = omega (arith, length-append xs ys)

  pub append_assoc : (xs ys zs : List A) → (xs ++ ys) ++ zs ≡ xs ++ (ys ++ zs)
  append_assoc [] ys zs = refl
  append_assoc (x ∷ xs) ys zs = ap (λ l. x ∷ l) (append_assoc xs ys zs)

  pub append_nil : (xs : List A) → xs ++ [] ≡ xs
  append_nil [] = refl
  append_nil (x ∷ xs) = ap (λ l. x ∷ l) (append_nil xs)

  abbrev pub All {κ} : (A → Type κ) → List A → Type κ
  All P [] = Unit
  All P (x ∷ xs) = P x × All P xs

  abbrev pub any : (A → Bool) → List A → Bool
  any p [] = false
  any p (x ∷ xs) = if p x then true else any p xs

  -- The elements that pass the test.
  unfoldable pub keep : (A → Bool) → List A → List A
  keep p [] = []
  keep p (x ∷ xs) = let rest = keep p xs in if p x then x ∷ rest else rest

  -- The elements that do not.
  unfoldable pub drop_all : (A → Bool) → List A → List A
  drop_all p [] = []
  drop_all p (x ∷ xs) = let rest = drop_all p xs in if p x then rest else x ∷ rest

  unfoldable pub find : (A → Bool) → List A → Option A
  find p [] = none
  find p (x ∷ xs) = if p x then some x else find p xs

  unfoldable pub count : (A → Bool) → List A → ℕ
  count p [] = 0
  count p (x ∷ xs) = let rest = count p xs in if p x then suc rest else rest

  unfoldable pub update : (A → Bool) → (A → A) → List A → List A
  update p f [] = []
  update p f (x ∷ xs) = (if p x then f x else x) ∷ update p f xs

  pub length-drop_all-le : (p : A → Bool) (xs : List A) → length (drop_all p xs) ≤ length xs
  unfolding drop_all
  length-drop_all-le p [] = omega arith
  length-drop_all-le p (x ∷ xs) = ground (arith, length-drop_all-le p xs)

  pub count-le-length : (p : A → Bool) (xs : List A) → count p xs ≤ length xs
  unfolding count
  count-le-length p [] = omega arith
  count-le-length p (x ∷ xs) = ground (arith, count-le-length p xs)

  pub count-drop_all-le : (p q : A → Bool) (xs : List A) → count p (drop_all q xs) ≤ count p xs
  unfolding count drop_all
  count-drop_all-le p q [] = omega arith
  count-drop_all-le p q (x ∷ xs) = ground (arith, count-drop_all-le p q xs)

  pub length-update : (p : A → Bool) (f : A → A) (xs : List A) → length (update p f xs) ≡ length xs
  unfolding update
  length-update p f [] = refl
  length-update p f (x ∷ xs) = ap suc (length-update p f xs)

  -- What `find` returns passes the test.
  pub find_sound : (p : A → Bool) (xs : List A) {a : A} → find p xs ≡ some a → p a ≡ true
  unfolding find
  find_sound p [] h = ground arith
  find_sound p (x ∷ xs) {a} h = ground (arith, find_sound p xs {a = a})

  -- An update by a function that the test survives makes the first match the updated one.
  pub find-update :
      (p : A → Bool) (f : A → A) (xs : List A)
      → ((a : A) → p a ≡ true → p (f a) ≡ true)
      → {a : A} → find p xs ≡ some a
      → find p (update p f xs) ≡ some (f a)
  unfolding find update
  find-update p f [] k h = ground arith
  find-update p f (x ∷ xs) k {a} h = ground (arith, k x, find-update p f xs k {a = a})

  -- Where something was counted, something is found.
  pub find_of_count :
      (p : A → Bool) (xs : List A) {n : ℕ} → count p xs ≡ suc n → (a : A) × (find p xs ≡ some a)
  unfolding find count
  find_of_count p [] h = absurd (omega arith)
  find_of_count p (x ∷ xs) {n} h = elim (Bool-cases (p x)) [
    | inl e ↦ (x, rw e)
    | inr e ↦ let (a, q) = find_of_count p xs {n = n} (ground arith) in (a, rw e q)
  ]

  -- Rows that the update's test cannot touch are found as before.
  pub find-update_ne :
      (p q : A → Bool) (f : A → A) (xs : List A)
      → ((a : A) → p a ≡ true → (q a ≡ false) × (q (f a) ≡ false))
      → find q (update p f xs) ≡ find q xs
  unfolding find update
  find-update_ne p q f [] k = refl
  find-update_ne p q f (x ∷ xs) k = ground (arith, k x, find-update_ne p q f xs k)

  pub All-drop_all {κ} :
      (P : A → Type κ) (p : A → Bool) (xs : List A) → All P xs → All P (drop_all p xs)
  unfolding drop_all
  All-drop_all P p [] h = h
  All-drop_all P p (x ∷ xs) h = elim (Bool-cases (p x)) [
    | inl e ↦ rw (e, drop_all) (All-drop_all P p xs h.1)
    | inr e ↦ rw (e, drop_all) (h.0, All-drop_all P p xs h.1)
  ]

  pub find-All {κ} :
      (P : A → Type κ) (p : A → Bool) (xs : List A) {a : A} → All P xs → find p xs ≡ some a → P a
  unfolding find
  find-All P p [] h e = absurd (ground arith)
  find-All P p (x ∷ xs) {a} h e = elim (Bool-cases (p x)) [
    | inl t ↦ subst P (ground arith) h.0
    | inr f ↦ find-All P p xs h.1 (ground arith)
  ]
