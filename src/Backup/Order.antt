-- ===== src/Backup/Order.antt =====
-- sort.Strings sorts, and what the sorted order says of the last names.
use agentic_paasd.Prelude.{
  suc, ◌<◌, ◌≡◌, refl, Bool, true, false, inl, inr, Bool-cases, List, [], ◌∷◌, Text, same,
  same_sound, All, length, ltb, any, count, count-le-length, arith,
}
use agentic_paasd.Backup.Retention.{precedes, insert_sorted, sort}

pub precedes_irrefl : (a : Text) → precedes a a ≡ false
unfolding precedes
precedes_irrefl [] = refl
precedes_irrefl (x ∷ a) = ground (arith, precedes_irrefl a)

precedes_trans : (a b c : Text) → precedes a b ≡ true → precedes b c ≡ true → precedes a c ≡ true
unfolding precedes
precedes_trans [] [] c p q = q
precedes_trans [] (y ∷ b) [] p q = q
precedes_trans [] (y ∷ b) (z ∷ c) p q = refl
precedes_trans (x ∷ a) [] c p q = ground arith
precedes_trans (x ∷ a) (y ∷ b) [] p q = ground arith
precedes_trans (x ∷ a) (y ∷ b) (z ∷ c) p q = ground (arith, precedes_trans a b c)

-- Of two texts neither of which precedes the other, each is like the other towards a third.
precedes_weak : (a b c : Text) → precedes b a ≡ false → precedes c b ≡ false → precedes c a ≡ false
unfolding precedes
precedes_weak [] [] c p q = q
precedes_weak [] (y ∷ b) [] p q = refl
precedes_weak [] (y ∷ b) (z ∷ c) p q = refl
precedes_weak (x ∷ a) [] c p q = ground arith
precedes_weak (x ∷ a) (y ∷ b) [] p q = ground arith
precedes_weak (x ∷ a) (y ∷ b) (z ∷ c) p q = ground (arith, precedes_weak a b c)

abbrev pub Least : Text → List Text → Type 0
Least x ys = All (λ y. precedes y x ≡ false) ys

abbrev pub IsSorted : List Text → Type 0
IsSorted [] = Unit
IsSorted (x ∷ xs) = Least x xs × IsSorted xs

Least-insert :
    (x z : Text) (ys : List Text) → precedes x z ≡ false → Least z ys → Least z (insert_sorted x ys)
unfolding insert_sorted
Least-insert x z [] p h = (p, tt)
Least-insert x z (y ∷ ys) p (q, h) = elim (Bool-cases (precedes y x)) [
  | inl e ↦ rw e (q, Least-insert x z ys p h)
  | inr e ↦ rw e (p, (q, h))
]

Least-weak : (x y : Text) (ys : List Text) → precedes y x ≡ false → Least y ys → Least x ys
Least-weak x y [] p h = tt
Least-weak x y (z ∷ ys) p (q, h) = (precedes_weak x y z p q, Least-weak x y ys p h)

asymmetric : (a b : Text) → precedes a b ≡ true → precedes b a ≡ false
unfolding precedes
asymmetric [] [] p = refl
asymmetric [] (y ∷ b) p = refl
asymmetric (x ∷ a) [] p = ground arith
asymmetric (x ∷ a) (y ∷ b) p = ground (arith, asymmetric a b)

insert-IsSorted : (x : Text) (ys : List Text) → IsSorted ys → IsSorted (insert_sorted x ys)
unfolding insert_sorted
insert-IsSorted x [] h = (tt, tt)
insert-IsSorted x (y ∷ ys) (l, h) = elim (Bool-cases (precedes y x)) [
  | inl e ↦ rw e (Least-insert x y ys (asymmetric y x e) l, insert-IsSorted x ys h)
  | inr e ↦ rw e ((e, Least-weak x y ys e l), (l, h))
]

pub sort-IsSorted : (xs : List Text) → IsSorted (sort xs)
unfolding sort
sort-IsSorted [] = tt
sort-IsSorted (x ∷ xs) = insert-IsSorted x (sort xs) (sort-IsSorted xs)

count-insert :
    (p : Text → Bool) (x : Text) (ys : List Text) → count p (insert_sorted x ys) ≡ count p (x ∷ ys)
unfolding insert_sorted count
count-insert p x [] = refl
count-insert p x (y ∷ ys) = ground (arith, count-insert p x ys)

pub count-sort : (p : Text → Bool) (xs : List Text) → count p (sort xs) ≡ count p xs
unfolding sort count
count-sort p [] = refl
count-sort p (x ∷ xs) = ground (arith, count-insert p x (sort xs), count-sort p xs)

length-insert : (x : Text) (ys : List Text) → length (insert_sorted x ys) ≡ suc (length ys)
unfolding insert_sorted
length-insert x [] = refl
length-insert x (y ∷ ys) = ground (arith, length-insert x ys)

pub length-sort : (xs : List Text) → length (sort xs) ≡ length xs
unfolding sort
length-sort [] = refl
length-sort (x ∷ xs) = omega (arith, length-insert x (sort xs), length-sort xs)

-- Whether a name stands in a list is a count.
pub any-count : (p : Text → Bool) (xs : List Text) → any p xs ≡ ltb 0 (count p xs)
unfolding count
any-count p [] = refl
any-count p (x ∷ xs) = ground (arith, any-count p xs)

pub Least-any :
    (x s : Text) (ys : List Text) → Least x ys → any (same s) ys ≡ true → precedes s x ≡ false
Least-any x s [] h m = cc
Least-any x s (y ∷ ys) (p, h) m = elim (Bool-cases (same s y)) [
  | inl e ↦ rw (same_sound s y e) p
  | inr e ↦ Least-any x s ys h (rw e at m)
]

pub count-lt-length :
    (s : Text) (xs : List Text) → any (same s) xs ≡ true → count (precedes s) xs < length xs
unfolding count
count-lt-length s [] m = cc
count-lt-length s (x ∷ xs) m = elim (Bool-cases (same s x)) [
  | inl e ↦
      rw (← same_sound s x e, precedes_irrefl s) (omega (arith, count-le-length (precedes s) xs))
  | inr e ↦ ground (arith, count-lt-length s xs)
]

pub precedes_total : (a b : Text) → same a b ≡ false → precedes b a ≡ false → precedes a b ≡ true
unfolding precedes same
precedes_total [] [] h p = cc
precedes_total [] (y ∷ b) h p = refl
precedes_total (x ∷ a) [] h p = cc
precedes_total (x ∷ a) (y ∷ b) h p = ground (arith, precedes_total a b)
