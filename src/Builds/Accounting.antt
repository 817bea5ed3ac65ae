-- ===== src/Builds/Accounting.antt =====
-- What a step of a build's goroutine does to the places: the queue, the slots, the tenants.
use agentic_paasd.Prelude.{
  ℕ, suc, ◌+◌, ◌-◌, ◌≤◌, ◌≡◌, refl, sym, ap, subst, Bool, true, false, ◌&&◌, List, [], ◌∷◌, Text,
  arith, inl, inr, Bool-cases, any, count, count-drop_all-le, drop_all, same, same_meet, same_sound,
  if_both, if◌then◌else◌,
}
use agentic_paasd.Builds.Site.{Site, max_builds, append_log, update_builds}
use agentic_paasd.Builds.Job.{Phase}

abbrev pub is_live : Phase → ℕ
is_live Phase.done = 0
is_live _ = 1

-- The phases in which Build holds a slot, and those in which it holds its tenant's place.
abbrev pub slots_of : Phase → ℕ
slots_of (Phase.starting stage) = 1
slots_of (Phase.working stage) = 1
slots_of _ = 0

abbrev pub holds_tenant : Phase → Bool
holds_tenant Phase.waiting = true
holds_tenant (Phase.starting stage) = true
holds_tenant (Phase.working stage) = true
holds_tenant _ = false

-- The places of `tenant` that a build of `owner` in that phase holds.
abbrev pub claim : Text → Text → Phase → ℕ
claim tenant owner p = if holds_tenant p && same owner tenant then 1 else 0

abbrev pub places_of : Text → List Text → ℕ
places_of tenant busy = count (λ t. same t tenant) busy

-- The places of a site.
abbrev pub Places : Type 0
Places = ℕ × ℕ × List Text

abbrev pub places : Site → Places
places s = (s.queue, s.sem, s.busy)

pub places-append_log :
    (up : Bool) (id line : Text) (s : Site) → places (append_log up id line s) ≡ places s
unfolding append_log update_builds
places-append_log up id line s =
    if_both (λ x. places x ≡ places s) _ refl (if_both (λ x. places x ≡ places s) up refl refl)

pub places-update_builds :
    (up : Bool) (p : _ → Bool) (f : _ → _) (s : Site) → places (update_builds up p f s) ≡ places s
unfolding update_builds
places-update_builds up p f s = if_both (λ x. places x ≡ places s) up refl refl

count-release_same :
    (tenant : Text) (busy : List Text) → places_of tenant (drop_all (λ t. same t tenant) busy) ≡ 0
unfolding count drop_all
count-release_same tenant [] = refl
count-release_same tenant (t ∷ busy) = ground (arith, count-release_same tenant busy)

count-release_other :
    (owner tenant : Text) (busy : List Text)
    → same owner tenant ≡ false
    → places_of tenant (drop_all (λ t. same t owner) busy) ≡ places_of tenant busy
unfolding count drop_all
count-release_other owner tenant [] h = refl
count-release_other owner tenant (t ∷ busy) h = ground (
  arith,
  same_meet t owner tenant,
  same_meet t tenant owner,
  count-release_other owner tenant busy h,
)

free_place :
    (tenant : Text) (busy : List Text)
    → any (λ t. same t tenant) busy ≡ false
    → places_of tenant busy ≡ 0
unfolding count
free_place tenant [] h = refl
free_place tenant (t ∷ busy) h = ground (arith, free_place tenant busy)

-- What a build in that phase counts on.
abbrev pub Held : Text → Phase → Places → Type 0
Held owner p a =
    (is_live p ≤ a.0)
    × (slots_of p ≤ a.1)
    × (a.1 ≤ max_builds)
    × ((t : Text) → claim t owner p ≤ places_of t a.2)
    × ((t : Text) → places_of t a.2 ≤ 1)

-- What its step changes is what the phases differ by, within the limits.
abbrev pub Balanced : Text → Phase → Places → Phase → Places → Type 0
Balanced owner p a p' b =
    (b.0 + is_live p ≡ a.0 + is_live p')
    × (b.1 + slots_of p ≡ a.1 + slots_of p')
    × ((t : Text) → places_of t b.2 + claim t owner p ≡ places_of t a.2 + claim t owner p')
    × (b.0 ≤ a.0)
    × (b.1 ≤ max_builds)
    × ((t : Text) → places_of t b.2 ≤ 1)

unfoldable pub released : Text → Places → Places
released owner (q, n, busy) = (q, n, drop_all (λ t. same t owner) busy)

unfoldable pub given_back : Text → Places → Places
given_back owner (q, n, busy) = (q, n - 1, drop_all (λ t. same t owner) busy)

unfoldable pub ended : Places → Places
ended (q, n, busy) = (q - 1, n, busy)

release_count :
    (owner t : Text) (busy : List Text)
    → (if same owner t then 1 else 0) ≤ places_of t busy
    → places_of t busy ≤ 1
    → places_of t (drop_all (λ x. same x owner) busy) + (if same owner t then 1 else 0)
      ≡ places_of t busy
release_count owner t busy low high = elim (Bool-cases (same owner t)) [
  | inl e ↦
      let here : owner ≡ t = same_sound owner t e in
      let none_left : places_of t (drop_all (λ x. same x owner) busy) ≡ 0 =
        subst (λ o. places_of t (drop_all (λ x. same x o) busy) ≡ 0) (sym here)
          (count-release_same t busy) in
      ground arith
  | inr e ↦ let kept = count-release_other owner t busy e in ground arith
]

hold_count :
    (owner t : Text) (busy : List Text)
    → any (λ x. same x owner) busy ≡ false
    → places_of t busy ≤ 1
    → places_of t (owner ∷ busy) ≤ 1
unfolding count
hold_count owner t busy free high = elim (Bool-cases (same owner t)) [
  | inl e ↦
      let here : owner ≡ t = same_sound owner t e in
      let empty : places_of t busy ≡ 0 =
        subst (λ o. places_of o busy ≡ 0) here (free_place owner busy free) in
      ground arith
  | inr e ↦ ground arith
]

pub Balanced-stay :
    (owner : Text) (p p' : Phase) (a : Places)
    → is_live p ≡ is_live p'
    → slots_of p ≡ slots_of p'
    → holds_tenant p ≡ holds_tenant p'
    → Held owner p a
    → Balanced owner p a p' a
Balanced-stay owner p p' (q, n, busy) l s h (hl, hs, hm, hc, ho) = (
  ap (λ x. q + x) l,
  ap (λ x. n + x) s,
  λ t. ap (λ b. places_of t busy + (if b && same owner t then 1 else 0)) h,
  omega arith,
  hm,
  ho,
)

pub Balanced-end :
    (owner : Text) (p : Phase) (a : Places)
    → is_live p ≡ 1
    → slots_of p ≡ 0
    → holds_tenant p ≡ false
    → Held owner p a
    → Balanced owner p a Phase.done (ended a)
unfolding ended
Balanced-end owner p (q, n, busy) l s h (hl, hs, hm, hc, ho) = (
  omega (arith, l, hl),
  omega (arith, s),
  λ t. ap (λ b. places_of t busy + (if b && same owner t then 1 else 0)) h,
  omega arith,
  hm,
  ho,
)

pub Balanced-give_back :
    (owner : Text) (p p' : Phase) (a : Places)
    → is_live p ≡ is_live p'
    → slots_of p ≡ 1
    → slots_of p' ≡ 0
    → holds_tenant p ≡ true
    → holds_tenant p' ≡ false
    → Held owner p a
    → Balanced owner p a p' (given_back owner a)
unfolding given_back
Balanced-give_back owner p p' (q, n, busy) l s s' h h' (hl, hs, hm, hc, ho) = (
  ap (λ x. q + x) l,
  omega (arith, s, s', hs),
  λ t.
      let low = subst (λ b. (if b && same owner t then 1 else 0) ≤ places_of t busy) h (hc t) in
      let kept = release_count owner t busy low (ho t) in rw (h, h') (omega (arith, kept)),
  omega arith,
  omega (arith, hm),
  λ t. omega (arith, ho t, count-drop_all-le (λ x. same x t) (λ x. same x owner) busy),
)

pub Balanced-release :
    (owner : Text) (p p' : Phase) (a : Places)
    → is_live p ≡ is_live p'
    → slots_of p ≡ slots_of p'
    → holds_tenant p ≡ true
    → holds_tenant p' ≡ false
    → Held owner p a
    → Balanced owner p a p' (released owner a)
unfolding released
Balanced-release owner p p' (q, n, busy) l s h h' (hl, hs, hm, hc, ho) = (
  ap (λ x. q + x) l,
  ap (λ x. n + x) s,
  λ t.
      let low = subst (λ b. (if b && same owner t then 1 else 0) ≤ places_of t busy) h (hc t) in
      let kept = release_count owner t busy low (ho t) in rw (h, h') (omega (arith, kept)),
  omega arith,
  hm,
  λ t. omega (arith, ho t, count-drop_all-le (λ x. same x t) (λ x. same x owner) busy),
)

pub Balanced-hold :
    (owner : Text) (p p' : Phase) (q n : ℕ) (busy : List Text)
    → is_live p ≡ is_live p'
    → slots_of p ≡ slots_of p'
    → holds_tenant p ≡ false
    → holds_tenant p' ≡ true
    → any (λ x. same x owner) busy ≡ false
    → Held owner p (q, n, busy)
    → Balanced owner p (q, n, busy) p' (q, n, owner ∷ busy)
unfolding count
Balanced-hold owner p p' q n busy l s h h' free (hl, hs, hm, hc, ho) = (
  ap (λ x. q + x) l,
  ap (λ x. n + x) s,
  λ t. rw (h, h') (ground arith),
  omega arith,
  hm,
  λ t. hold_count owner t busy free (ho t),
)

pub Balanced-slot :
    (owner : Text) (p p' : Phase) (q n : ℕ) (busy : List Text)
    → is_live p ≡ is_live p'
    → slots_of p ≡ 0
    → slots_of p' ≡ 1
    → holds_tenant p ≡ holds_tenant p'
    → suc n ≤ max_builds
    → Held owner p (q, n, busy)
    → Balanced owner p (q, n, busy) p' (q, suc n, busy)
Balanced-slot owner p p' q n busy l s s' h room (hl, hs, hm, hc, ho) = (
  ap (λ x. q + x) l,
  omega (arith, s, s'),
  λ t. ap (λ b. places_of t busy + (if b && same owner t then 1 else 0)) h,
  omega arith,
  room,
  ho,
)
