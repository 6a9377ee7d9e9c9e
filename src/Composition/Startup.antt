-- ===== src/Composition/Startup.antt =====
-- `chooseComposition` of src/index.ts: which composition an environment selects, or that the
-- service may not start. The variables it reads are a record, absent ones `none`.
pub mod Safe
use social_comments_service.Base.{
  Bool, Option, [], false, if◌then◌else◌, none, not, or_else, some, true, ◌&&◌, ◌∷◌,
}
use social_comments_service.Shared.Text.{Text, text_eq, units}

pub record ProcessEnv : Type 0 where
  pub node_env : Option Text
  pub database_url : Option Text
  pub idempotency_fingerprint_secret : Option Text

-- The reason of a refusal is the variable that it names.
pub data RequiredVariable : Type 0 where
  database_url_required fingerprint_secret_required : RequiredVariable

pub data CompositionChoice : Type 0 where
  postgres : Text → Text → CompositionChoice
  demo : Text → CompositionChoice
  refuse_start : RequiredVariable → CompositionChoice

abbrev pub development_fingerprint_secret : Text
development_fingerprint_secret = units "development-only-unsafe-fingerprint-key"

-- `x === undefined || x === ''`
unfoldable pub is_unset : Option Text → Bool
is_unset none = true
is_unset (some []) = true
is_unset (some (c ∷ s)) = false

unfoldable pub is_production : ProcessEnv → Bool
is_production env = elim env.node_env [ none ↦ false | some s ↦ text_eq s (units "production") ]

unfoldable pub choose_composition : ProcessEnv → CompositionChoice
choose_composition env =
    let secret = or_else env.idempotency_fingerprint_secret development_fingerprint_secret in
    if is_production env && is_unset env.database_url
    then refuse_start database_url_required
    else if is_production env && is_unset env.idempotency_fingerprint_secret
    then refuse_start fingerprint_secret_required
    else if not (is_unset env.database_url)
    then postgres (or_else env.database_url []) secret
    else demo secret
