-- ===== src/Composition/Startup/Safe.antt =====
-- What an environment of src/index.ts has to name for the composition that it selects.
use social_comments_service.Base.{
  Bool-cases, Option, Option-cases, [], ap, false, inl, inr, none, or_else, refl, some, true, ◌∙◌,
  ◌∷◌, ◌≡◌, ◌≢◌,
}
use social_comments_service.Composition.Startup.{
  CompositionChoice, ProcessEnv, choose_composition, database_url_required, demo,
  development_fingerprint_secret, fingerprint_secret_required, is_production, is_unset, postgres,
  refuse_start,
}
use social_comments_service.Shared.Text.{Text, text_eq, units}
use social_comments_service.Shared.Text.Order.{text_eq_sound}

abbrev InProduction : ProcessEnv → Type 0
InProduction env = env.node_env ≡ some (units "production")

-- A variable that holds a text of some length.
abbrev Holds : Option Text → Text → Type 0
Holds v t = (v ≡ some t) × (t ≢ [])

-- What a choice promises of the environment.
abbrev pub IsSafe : ProcessEnv → CompositionChoice → Type 0
IsSafe env (postgres url secret) =
    Holds env.database_url url
    × (InProduction env → Holds env.idempotency_fingerprint_secret secret)
IsSafe env (demo secret) = ¬ InProduction env × (is_unset env.database_url ≡ true)
IsSafe env (refuse_start database_url_required) =
    InProduction env × (is_unset env.database_url ≡ true)
IsSafe env (refuse_start fingerprint_secret_required) =
    InProduction env × (is_unset env.idempotency_fingerprint_secret ≡ true)

set_text : (v : Option Text) (d : Text) → is_unset v ≡ false → Holds v (or_else v d)
unfolding is_unset
set_text none d h = absurd (cc)
set_text (some []) d h = absurd (cc)
set_text (some (c ∷ s)) d h = (refl, λ e. cc)

is_production-true : (env : ProcessEnv) → is_production env ≡ true → InProduction env
unfolding is_production
is_production-true env h = elim (Option-cases env.node_env) [
  | inl e ↦ absurd (cc (rw e at h))
  | inr (s, e) ↦ e ∙ ap (λ t. some t) (text_eq_sound s (units "production") (rw e at h))
]

is_production-false : (env : ProcessEnv) → is_production env ≡ false → ¬ InProduction env
unfolding is_production text_eq
is_production-false env h e = let yes : is_production env ≡ true = rw e refl in absurd (cc (h, yes))

-- A process in production runs on PostgreSQL with a key of its own, both named by its environment,
-- or not at all; a demo runs only outside production and without a database.
pub choose_composition-IsSafe : (env : ProcessEnv) → IsSafe env (choose_composition env)
unfolding choose_composition
choose_composition-IsSafe env = elim (Bool-cases (is_production env)) [
  | inl p ↦ elim (Bool-cases (is_unset env.database_url)) [
    | inl u ↦ rw (p, u) (is_production-true env p, u)
    | inr u ↦ elim (Bool-cases (is_unset env.idempotency_fingerprint_secret)) [
      | inl k ↦ rw (p, u, k) (is_production-true env p, k)
      | inr k ↦
          rw (p, u, k)
            (
              set_text env.database_url [] u,
              λ _. set_text env.idempotency_fingerprint_secret development_fingerprint_secret k,
            )
    ]
  ]
  | inr p ↦ elim (Bool-cases (is_unset env.database_url)) [
    | inl u ↦ rw (p, u) (is_production-false env p, u)
    | inr u ↦ rw (p, u) (set_text env.database_url [] u, λ e. absurd (is_production-false env p e))
  ]
]
