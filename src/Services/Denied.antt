-- ===== src/Services/Denied.antt =====
-- Variables that would change how a container's programs are loaded are kept out.
use agentic_paasd.Prelude.{
  ◌≡◌, refl, Bool, true, false, List, [], ◌∷◌, Text, any, arith, Bool-cases, inl, inr,
}
use agentic_paasd.Runtime.{Env, World, Result, ok, err, is_ok, continue, ◌>>=◌, Exec}
use agentic_paasd.Services.Validate.{
  is_denied, to_upper, key_matches, validate_env_var, validate_env_vars,
}
use agentic_paasd.Services.Rows.{get_owned, check_tenant_active}
use agentic_paasd.Services.EnvVars.{CreateRequest, check, set_env, create}
use agentic_paasd.Services.Atomic.{set_env_atomic, create_atomic}

abbrev pub names_denied : Text × Text → Bool
names_denied v = is_denied (to_upper v.0)

denied_var : (k v : Text) → is_denied (to_upper k) ≡ true → is_ok (validate_env_var k v) ≡ false
unfolding validate_env_var
denied_var k v h = elim (Bool-cases (key_matches k)) [ inl e ↦ rw (e, h) refl | inr e ↦ rw e refl ]

denied_vars :
    (vars : List (Text × Text))
    → any names_denied vars ≡ true
    → is_ok (validate_env_vars vars) ≡ false
unfolding validate_env_vars
denied_vars [] h = absurd (ground arith)
denied_vars ((k, v) ∷ vars) h = ground (arith, denied_var k v, denied_vars vars)

-- An action that fails whatever it is given makes a chain fail.
fails_bind :
    {A B : Type 0} (m : Exec A) (f : A → Exec B)
    → ((a : A) (w : World) → is_ok (f a w).0 ≡ false)
    → (w : World) → is_ok ((m >>= f) w).0 ≡ false
fails_bind m f h w = go (m w).0
  where
    go : (r : Result _) → is_ok (continue r f (m w).1).0 ≡ false
    go (ok a) = h a (m w).1
    go (err e) = refl

fails_check :
    {B : Type 0} (r : Result (Unit {0})) (f : Unit {0} → Exec B)
    → is_ok r ≡ false
    → (w : World) → is_ok ((check r >>= f) w).0 ≡ false
unfolding check
fails_check (ok a) f h w = absurd (ground arith)
fails_check (err e) f h w = refl

module _ (env : Env) where
  set_env_fails :
      (tenant id : Text) (vars : List (Text × Text)) (w : World)
      → any names_denied vars ≡ true
      → is_ok (set_env env tenant id vars w).0 ≡ false
  unfolding set_env
  set_env_fails tenant id vars w h =
      fails_bind (get_owned env tenant id) _
        (λ s v. fails_check (validate_env_vars vars) _ (denied_vars vars h) v) w

  create_fails :
      (tenant : Text) (req : CreateRequest) (w : World)
      → any names_denied req.env ≡ true
      → is_ok (create env tenant req w).0 ≡ false
  unfolding create
  create_fails tenant req w h =
      fails_bind (check_tenant_active env tenant) _
        (λ s.
          fails_bind _ _
            (λ u v. fails_check (validate_env_vars req.env) _ (denied_vars req.env h) v))
        w

-- A request with a variable whose name is, in any case of its letters, LD_PRELOAD,
-- LD_LIBRARY_PATH or PATH fails, be it SetEnv or Create, and leaves the database as it was.
pub denied_variable_changes_nothing :
    (env : Env) (tenant id : Text) (req : CreateRequest) (w : World)
    → any names_denied req.env ≡ true
    → (is_ok (set_env env tenant id req.env w).0 ≡ false)
      × ((set_env env tenant id req.env w).1.db ≡ w.db)
      × (is_ok (create env tenant req w).0 ≡ false)
      × ((create env tenant req w).1.db ≡ w.db)
denied_variable_changes_nothing env tenant id req w h =
    let s = set_env_fails env tenant id req.env w h in
    let c = create_fails env tenant req w h in
    (s, set_env_atomic env tenant id req.env w s, c, create_atomic env tenant req w c)
