-- ===== src/Objects/Accounts/Laws.antt =====
-- What reconciling the secret again does, and which secrets a service account pulls images with.
use grafana_operator.Common.{
  String, ◌==◌, ℕ, suc, ◌+◌, if◌then◌else◌, eq_iff, ◌≡◌, ◌≢◌, refl, true, false, ◌||◌, Option, some,
  List, [], ◌∷◌, ◌++◌, Bool-cases, inl, inr, lookup, insert, lookup-insert, Option-cases, sym,
  or_other, arith,
}
use grafana_operator.Objects.Resource.{Kubernetes, Grafana}
use grafana_operator.Objects.Accounts.{
  is_among, append_if_absent, merge_image_pull_secrets, Secret, Environment, specified,
  get_admin_user, get_admin_password, get_data, admin_user_env_var, admin_password_env_var,
  credentials, set_credentials,
}

-- How many times a list has a secret.
unfoldable pub count : String → List String → ℕ
count secret [] = 0
count secret (s ∷ l) = let rest = count secret l in if s == secret then suc rest else rest

count-none : (secret : String) (l : List String) → is_among secret l ≡ false → count secret l ≡ 0
unfolding count
count-none secret [] h = refl
count-none secret (s ∷ l) h = ground (arith, count-none secret l)

is_among-append :
    (secret s : String) (l : List String)
    → is_among secret (l ++ s ∷ []) ≡ (is_among secret l || s == secret)
is_among-append secret s [] = ground arith
is_among-append secret s (x ∷ l) = ground (arith, is_among-append secret s l)

count-append :
    (secret s : String) (l : List String)
    → count secret (l ++ s ∷ []) ≡ count secret l + (if s == secret then 1 else 0)
unfolding count
count-append secret s [] = ground arith
count-append secret s (x ∷ l) = ground (arith, count-append secret s l)

is_among-append_if_absent :
    (secret s : String) (l : List String)
    → is_among secret (append_if_absent l s) ≡ (is_among secret l || s == secret)
is_among-append_if_absent secret s l = elim (Bool-cases (is_among s l)) [
  | inl e ↦ rw e (ground (arith, eq_iff s secret, e))
  | inr e ↦ rw e (is_among-append secret s l)
]

count-append_if_absent :
    (secret s : String) (l : List String)
    → count secret (append_if_absent l s)
      ≡ (if is_among secret l then count secret l else if s == secret then 1 else 0)
count-append_if_absent secret s l = elim (Bool-cases (is_among s l)) [
  | inl e ↦ rw e (ground (arith, eq_iff s secret, e, count-none secret l))
  | inr e ↦ rw e (ground (arith, eq_iff s secret, e, count-none secret l, count-append secret s l))
]

-- The merged list has a secret that was there as many times as before, has one that was not there but is
-- requested, however often, once, and has no other.
pub count-merge_image_pull_secrets :
    (secret : String) (requested existing : List String)
    → count secret (merge_image_pull_secrets requested existing) ≡ (
        if is_among secret existing
        then count secret existing
        else if is_among secret requested
        then 1
        else 0)
unfolding merge_image_pull_secrets
count-merge_image_pull_secrets secret [] existing = ground (arith, count-none secret existing)
count-merge_image_pull_secrets secret (s ∷ requested) existing = ground (
  arith,
  count-merge_image_pull_secrets secret requested (append_if_absent existing s),
  is_among-append_if_absent secret s existing,
  count-append_if_absent secret s existing,
)

module _ (k : Kubernetes) where
  user_settles :
      (random : String) (cr : Grafana k) (current : Option Secret) (s : Secret)
      → s.content ≡ credentials k random cr current
      → get_admin_user k cr (some s) ≡ get_admin_user k cr current
  unfolding get_admin_user lookup
  user_settles random cr current s e =
      elim (Option-cases (specified cr.security (λ t. t.admin_user))) [
        | inl p ↦ rw (p, e) (ground (arith, p))
        | inr (text, p) ↦ rw p refl
      ]

  password_settles :
      (random other : String) (cr : Grafana k) (current : Option Secret) (s : Secret)
      → s.content ≡ credentials k random cr current
      → get_admin_password k other cr (some s) ≡ get_admin_password k random cr current
  unfolding get_admin_password lookup
  password_settles random other cr current s e =
      elim (Option-cases (specified cr.security (λ t. t.admin_password))) [
        | inl p ↦ rw (p, e) (ground (arith, p))
        | inr (text, p) ↦ rw p refl
      ]

  user-ne-password : admin_user_env_var ≢ admin_password_env_var
  user-ne-password p =
      let e : false ≡ true = (eq_iff admin_user_env_var admin_password_env_var).1 p in absurd cc

  lookup-set_credentials :
      (user password key : String) (later : Environment)
      → lookup key (set_credentials k user password later)
        ≡ or_other
            (lookup key ((admin_user_env_var, user) ∷ (admin_password_env_var, password) ∷ []))
            (lookup key later)
  unfolding lookup
  lookup-set_credentials user password key later = ground (
    arith,
    lookup-insert admin_password_env_var key password (insert admin_user_env_var user later),
    lookup-insert admin_user_env_var key user later,
    eq_iff admin_user_env_var key,
    eq_iff admin_password_env_var key,
    user-ne-password,
  )

  -- If a secret has the data that reconciling the resource gave, with whatever secret there was
  -- before and whatever password was made up, then reconciling the resource with it gives the
  -- same data again, whatever password is made up then. The environment gets the two credentials of the
  -- data, and its other variables stay.
  pub get_data-settles :
      (random other : String) (cr : Grafana k) (current : Option Secret)
      (environment later : Environment) (s : Secret)
      → s.content ≡ (get_data k random cr current environment).0
      → ((get_data k other cr (some s) later).0 ≡ s.content)
        × ((key : String)
            → lookup key (get_data k other cr (some s) later).1
              ≡ or_other (lookup key s.content) (lookup key later))
  unfolding get_data
  get_data-settles random other cr current environment later s e =
      let user = user_settles random cr current s e in
      let password = password_settles random other cr current s e in
      (
        rw (user, password) (sym e),
        λ key. rw (user, password, e) (lookup-set_credentials _ _ key later),
      )
