-- ===== src/Prelude/Rows.antt =====
-- Predicates and tests on the rows of a table, and what the updates by a test do to them.
use Prim.Native.Nat.{◌+◌, ◌≤◌}
use mathlib.Core.Path.{◌≡◌, sym, subst}
use mathlib.Core.Logic.{inl, inr}
use mathlib.Core.Bool.{Bool, true, false}
use mathlib.Core.Option.{some}
use mathlib.Core.List.{List, [], ◌∷◌, ◌++◌}
use native.Mathlib.Omega.{arith}
use agentic_paasd.Prelude.Tests.{Bool-cases}
use agentic_paasd.Prelude.Lists.{All, any, keep, drop_all, find, count, update}

module _ {ℓ} {A : Type ℓ} where
  pub All-imp {κ κ'} :
      {P : A → Type κ} {Q : A → Type κ'} (xs : List A) → ((x : A) → P x → Q x) → All P xs → All Q xs
  All-imp [] f h = tt
  All-imp (x ∷ xs) f h = (f x h.0, All-imp xs f h.1)

  pub All-update {κ κ'} :
      {P : A → Type κ} {Q : A → Type κ'} (p : A → Bool) (f : A → A) (xs : List A)
      → ((x : A) → P x → p x ≡ true → Q (f x))
      → ((x : A) → P x → p x ≡ false → Q x)
      → All P xs
      → All Q (update p f xs)
  unfolding update
  All-update p f [] hit miss h = tt
  All-update p f (x ∷ xs) hit miss h = elim (Bool-cases (p x)) [
    | inl e ↦ rw (e, update) (hit x h.0 e, All-update p f xs hit miss h.1)
    | inr e ↦ rw (e, update) (miss x h.0 e, All-update p f xs hit miss h.1)
  ]

  pub All-trivial : (xs : List A) → All (λ x. Unit {0}) xs
  All-trivial [] = tt
  All-trivial (x ∷ xs) = (tt, All-trivial xs)

  pub update-All {κ} :
      {Q : A → Type κ} (p : A → Bool) (f : A → A) (xs : List A)
      → ((x : A) → p x ≡ true → Q (f x))
      → ((x : A) → p x ≡ false → Q x)
      → All Q (update p f xs)
  update-All p f xs hit miss =
      All-update p f xs (λ x _ e. hit x e) (λ x _ e. miss x e) (All-trivial xs)

  pub keep_hit : (p : A → Bool) (x : A) (xs : List A) → p x ≡ true → keep p (x ∷ xs) ≡ x ∷ keep p xs
  unfolding keep
  keep_hit p x xs h = rw h

  pub keep_miss : (p : A → Bool) (x : A) (xs : List A) → p x ≡ false → keep p (x ∷ xs) ≡ keep p xs
  unfolding keep
  keep_miss p x xs h = rw h

  pub any-cons : (q : A → Bool) (x : A) (xs : List A) → any q xs ≡ true → any q (x ∷ xs) ≡ true
  any-cons q x xs h = ground arith

  -- Every element that passes the test is related to one of `ys`.
  abbrev pub Met : (A → Bool) → (A → A → Bool) → List A → List A → Type 0
  Met p r ys xs = All (λ x. p x ≡ true → any (λ y. r y x) ys ≡ true) xs

  pub Met-cons :
      (p : A → Bool) (r : A → A → Bool) (y : A) (ys xs : List A)
      → Met p r ys xs
      → Met p r (y ∷ ys) xs
  Met-cons p r y ys xs h = All-imp xs (λ x k q. any-cons (λ z. r z x) y ys (k q)) h

  -- A reflexive relation meets all that passes the test in what `keep` returns.
  pub Met-keep :
      (p : A → Bool) (r : A → A → Bool) (xs : List A)
      → ((x : A) → r x x ≡ true)
      → Met p r (keep p xs) xs
  Met-keep p r [] h = tt
  Met-keep p r (x ∷ xs) h = elim (Bool-cases (p x)) [
    | inl e ↦
        subst (λ ys. Met p r ys (x ∷ xs)) (sym (keep_hit p x xs e))
          (λ _. rw (h x), Met-cons p r x (keep p xs) xs (Met-keep p r xs h))
    | inr e ↦
        subst (λ ys. Met p r ys (x ∷ xs)) (sym (keep_miss p x xs e)) (λ q. cc, Met-keep p r xs h)
  ]

  pub any-append : (q : A → Bool) (xs ys : List A) → any q xs ≡ true → any q (xs ++ ys) ≡ true
  any-append q [] ys h = absurd (ground arith)
  any-append q (x ∷ xs) ys h = ground (arith, any-append q xs ys)

  pub any-append_right : (q : A → Bool) (xs ys : List A) → any q ys ≡ true → any q (xs ++ ys) ≡ true
  any-append_right q [] ys h = h
  any-append_right q (x ∷ xs) ys h = ground (arith, any-append_right q xs ys)

  -- An update that keeps the test where it applies keeps a match.
  pub any-update :
      (q p : A → Bool) (f : A → A) (xs : List A)
      → ((x : A) → p x ≡ true → q x ≡ true → q (f x) ≡ true)
      → any q xs ≡ true
      → any q (update p f xs) ≡ true
  unfolding update
  any-update q p f [] k h = h
  any-update q p f (x ∷ xs) k h = ground (arith, k x, any-update q p f xs k)

  pub any_of_find :
      (p q : A → Bool) (xs : List A) {a : A} → find p xs ≡ some a → q a ≡ true → any q xs ≡ true
  unfolding find
  any_of_find p q [] h e = absurd (ground arith)
  any_of_find p q (x ∷ xs) {a} h e = ground (arith, any_of_find p q xs {a = a})

  pub any-imp :
      (p q : A → Bool) (xs : List A)
      → ((x : A) → p x ≡ true → q x ≡ true)
      → any p xs ≡ true
      → any q xs ≡ true
  any-imp p q [] k h = h
  any-imp p q (x ∷ xs) k h = ground (arith, k x, any-imp p q xs k)

  pub All-drop_all-miss {κ κ'} :
      {P : A → Type κ} {Q : A → Type κ'} (p : A → Bool) (xs : List A)
      → ((x : A) → P x → p x ≡ false → Q x)
      → All P xs
      → All Q (drop_all p xs)
  unfolding drop_all
  All-drop_all-miss p [] k h = tt
  All-drop_all-miss p (x ∷ xs) k h = elim (Bool-cases (p x)) [
    | inl e ↦ rw (e, drop_all) (All-drop_all-miss p xs k h.1)
    | inr e ↦ rw (e, drop_all) (k x h.0 e, All-drop_all-miss p xs k h.1)
  ]

  -- A predicate of those that pass a test is one of what `keep` returns.
  pub All-keep {κ} :
      (P : A → Type κ) (p : A → Bool) (xs : List A)
      → All (λ x. p x ≡ true → P x) xs
      → All P (keep p xs)
  unfolding keep
  All-keep P p [] h = tt
  All-keep P p (x ∷ xs) h = elim (Bool-cases (p x)) [
    | inl e ↦ subst (λ ys. All P ys) (sym (keep_hit p x xs e)) (h.0 e, All-keep P p xs h.1)
    | inr e ↦ subst (λ ys. All P ys) (sym (keep_miss p x xs e)) (All-keep P p xs h.1)
  ]

  pub count-snoc : (p : A → Bool) (xs : List A) (x : A) → count p (xs ++ x ∷ []) ≤ 1 + count p xs
  unfolding count
  count-snoc p [] x = ground arith
  count-snoc p (y ∷ xs) x = ground (arith, count-snoc p xs x)

  pub count_mono :
      (p q : A → Bool) (xs : List A) → ((x : A) → p x ≡ true → q x ≡ true) → count p xs ≤ count q xs
  unfolding count
  count_mono p q [] h = ground arith
  count_mono p q (x ∷ xs) h = ground (arith, h x, count_mono p q xs h)

  -- Whether something passes a test is a matter of the count.
  pub count_of_any : (p : A → Bool) (xs : List A) → any p xs ≡ false → count p xs ≡ 0
  unfolding count
  count_of_any p [] h = ground arith
  count_of_any p (x ∷ xs) h = ground (arith, count_of_any p xs)
