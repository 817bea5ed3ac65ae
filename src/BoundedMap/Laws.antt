-- ===== src/BoundedMap/Laws.antt =====
-- Lookups after writes, and what the eviction does to the size of a map.
use agentic_paasd.Prelude.{
  ℕ, suc, ◌≤◌, ◌<◌, ◌≡◌, refl, sym, ◌⊎◌, inl, inr, Bool, true, false, ◌||◌, none, some, List, [],
  ◌∷◌, Text, same, same_sound, same_refl, is_empty, length, length-drop_all-le, drop_all, count,
  count-drop_all-le, All, All-drop_all, any, any-cons, subst, arith, ltb, leb, if◌then◌else◌,
  Bool-cases,
}
use agentic_paasd.BoundedMap.{has_key, get, delete, put, oldest, evict}

module _ {V : Type 0} where
  pub get-delete :
      (k j : Text) (m : List (Text × V)) → get j (delete k m) ≡ (if same j k then none else get j m)
  unfolding get delete drop_all
  get-delete k j [] = ground arith
  get-delete k j ((i, v) ∷ m) = ground (
    arith,
    get-delete k j m,
    same_sound i k,
    same_sound i j,
    same_sound j k,
    same_refl k,
    same_refl j,
  )

  pub get-put :
      (k j : Text) (v : V) (m : List (Text × V))
      → get j (put k v m) ≡ (if same j k then some v else get j m)
  unfolding put get
  get-put k j v m = ground (arith, get-delete k j m, same_sound j k, same_sound k j, same_refl k)

  -- A key that is there makes a deletion shorten the map.
  pub length-delete-lt :
      (k : Text) (m : List (Text × V)) → any (has_key k) m ≡ true → length (delete k m) < length m
  unfolding delete drop_all
  length-delete-lt k [] h = cc
  length-delete-lt k ((j, v) ∷ m) h = elim (Bool-cases (same j k)) [
    | inl e ↦ rw (e, drop_all) (omega (arith, length-drop_all-le (has_key k) m))
    | inr e ↦ rw (e, drop_all) (omega (arith, length-delete-lt k m (ground arith)))
  ]

  abbrev pub NamedKeys : List (Text × V) → Type 0
  NamedKeys m = All (λ e. is_empty e.0 ≡ false) m

  has_key-cons :
      (k : Text) (e : Text × V) (m : List (Text × V))
      → (k ≡ e.0) ⊎ (any (has_key k) m ≡ true)
      → any (has_key k) (e ∷ m) ≡ true
  has_key-cons k (j, v) m (inl p) = rw (p, same_refl j) refl
  has_key-cons k (j, v) m (inr q) = any-cons (has_key k) (j, v) m q

  oldest_newer :
      (time : V → ℕ) (key : Text) (t : ℕ) (k : Text) (v : V) (m : List (Text × V))
      → (is_empty key || ltb (time v) t) ≡ true
      → oldest time key t ((k, v) ∷ m) ≡ oldest time k (time v) m
  unfolding oldest
  oldest_newer time key t k v m e = rw e

  oldest_older :
      (time : V → ℕ) (key : Text) (t : ℕ) (k : Text) (v : V) (m : List (Text × V))
      → (is_empty key || ltb (time v) t) ≡ false
      → oldest time key t ((k, v) ∷ m) ≡ oldest time key t m
  unfolding oldest
  oldest_older time key t k v m e = rw e

  -- The loop ends at the key that it holds, or at one of the map.
  oldest-any :
      (time : V → ℕ) (key : Text) (t : ℕ) (m : List (Text × V))
      → (oldest time key t m ≡ key) ⊎ (any (has_key (oldest time key t m)) m ≡ true)
  unfolding oldest
  oldest-any time key t [] = inl refl
  oldest-any time key t ((k, v) ∷ m) = elim (Bool-cases (is_empty key || ltb (time v) t)) [
    | inl e ↦
        subst (λ x. (x ≡ key) ⊎ (any (has_key x) ((k, v) ∷ m) ≡ true))
          (sym (oldest_newer time key t k v m e))
          (inr (has_key-cons (oldest time k (time v) m) (k, v) m (oldest-any time k (time v) m)))
    | inr e ↦
        subst (λ x. (x ≡ key) ⊎ (any (has_key x) ((k, v) ∷ m) ≡ true))
          (sym (oldest_older time key t k v m e))
          (elim (oldest-any time key t m) [
            | inl q ↦ inl q
            | inr q ↦ inr (has_key-cons (oldest time key t m) (k, v) m (inr q))
          ])
  ]

  oldest-is_named :
      (time : V → ℕ) (key : Text) (t : ℕ) (m : List (Text × V))
      → NamedKeys m
      → is_empty key ≡ false
      → is_empty (oldest time key t m) ≡ false
  unfolding oldest
  oldest-is_named time key t [] h q = q
  oldest-is_named time key t ((k, v) ∷ m) h q = elim (Bool-cases (ltb (time v) t)) [
    | inl e ↦ rw (q, e) (oldest-is_named time k (time v) m h.1 h.0)
    | inr e ↦ rw (q, e) (oldest-is_named time key t m h.1 q)
  ]

  -- After an eviction there is room for one more entry.
  pub length-evict-lt :
      (capacity : ℕ) (time : V → ℕ) (m : List (Text × V))
      → 0 < capacity
      → NamedKeys m
      → length m ≤ capacity
      → length (evict capacity time m) < capacity
  unfolding evict oldest
  length-evict-lt capacity time [] p h q = ground arith
  length-evict-lt capacity time ((k, v) ∷ m) p h q =
      elim (Bool-cases (leb capacity (length ((k, v) ∷ m)))) [
        | inl e ↦
            let found = has_key-cons _ (k, v) m (oldest-any time k (time v) m) in
            rw (e, oldest-is_named time k (time v) m h.1 h.0)
              (omega (arith, q, length-delete-lt (oldest time k (time v) m) ((k, v) ∷ m) found))
        | inr e ↦ rw e (ground arith)
      ]

  pub NamedKeys-delete : (k : Text) (m : List (Text × V)) → NamedKeys m → NamedKeys (delete k m)
  unfolding delete
  NamedKeys-delete k m h = All-drop_all _ (has_key k) m h

  pub NamedKeys-evict :
      (capacity : ℕ) (time : V → ℕ) (m : List (Text × V))
      → NamedKeys m
      → NamedKeys (evict capacity time m)
  unfolding evict
  NamedKeys-evict capacity time m h = elim (Bool-cases (leb capacity (length m))) [
    | inl e ↦ elim (Bool-cases (is_empty (oldest time [] 0 m))) [
      | inl q ↦ rw (e, q) h
      | inr q ↦ rw (e, q) (NamedKeys-delete (oldest time [] 0 m) m h)
    ]
    | inr e ↦ rw e h
  ]

  pub NamedKeys-put :
      (k : Text) (v : V) (m : List (Text × V))
      → is_empty k ≡ false
      → NamedKeys m
      → NamedKeys (put k v m)
  unfolding put
  NamedKeys-put k v m q h = (q, NamedKeys-delete k m h)

  pub length-delete-le : (k : Text) (m : List (Text × V)) → length (delete k m) ≤ length m
  unfolding delete
  length-delete-le k m = length-drop_all-le (has_key k) m

  -- A map with named keys that is written to after an eviction stays within the capacity.
  pub length-put-evict :
      (capacity : ℕ) (time : V → ℕ) (k : Text) (v : V) (m : List (Text × V))
      → 0 < capacity
      → NamedKeys m
      → length m ≤ capacity
      → length (put k v (evict capacity time m)) ≤ capacity
  unfolding put
  length-put-evict capacity time k v m p h q =
      omega
        (arith, length-delete-le k (evict capacity time m), length-evict-lt capacity time m p h q)

  pub All-delete {κ} :
      (P : Text × V → Type κ) (k : Text) (m : List (Text × V)) → All P m → All P (delete k m)
  unfolding delete
  All-delete P k m h = All-drop_all P (has_key k) m h

  pub All-evict {κ} :
      (P : Text × V → Type κ) (capacity : ℕ) (time : V → ℕ) (m : List (Text × V))
      → All P m
      → All P (evict capacity time m)
  unfolding evict
  All-evict P capacity time m h = elim (Bool-cases (leb capacity (length m))) [
    | inl e ↦ elim (Bool-cases (is_empty (oldest time [] 0 m))) [
      | inl q ↦ rw (e, q) h
      | inr q ↦ rw (e, q) (All-delete P (oldest time [] 0 m) m h)
    ]
    | inr e ↦ rw e h
  ]

  -- What a lookup returns is an entry of the map under that key.
  pub get-All {κ} :
      (P : Text × V → Type κ) (k : Text) (m : List (Text × V)) {v : V}
      → All P m
      → get k m ≡ some v
      → P (k, v)
  unfolding get
  get-All P k [] h e = absurd (ground arith)
  get-All P k ((j, w) ∷ m) {v} h e = elim (Bool-cases (same j k)) [
    | inl q ↦ subst P (ground (arith, same_sound j k q)) h.0
    | inr q ↦ get-All P k m h.1 (ground arith)
  ]

  count-delete-le :
      (p : Text × V → Bool) (k : Text) (m : List (Text × V)) → count p (delete k m) ≤ count p m
  unfolding delete
  count-delete-le p k m = count-drop_all-le p (has_key k) m

  pub count-evict-le :
      (p : Text × V → Bool) (capacity : ℕ) (time : V → ℕ) (m : List (Text × V))
      → count p (evict capacity time m) ≤ count p m
  unfolding evict
  count-evict-le p capacity time m = ground (arith, count-delete-le p (oldest time [] 0 m) m)

  pub count-put-le :
      (p : Text × V → Bool) (k : Text) (v : V) (m : List (Text × V))
      → count p (put k v m) ≤ (if p (k, v) then suc (count p m) else count p m)
  unfolding put count
  count-put-le p k v m = ground (arith, count-delete-le p k m)
