-- ===== src/Tests/Startup.antt =====
-- A production environment with a database and no key, and one with both.
use social_comments_service.Base.{[], refl, some, ◌≡◌}
use social_comments_service.Composition.Startup.{
  ProcessEnv, choose_composition, fingerprint_secret_required, is_production, is_unset, postgres,
  refuse_start,
}
use social_comments_service.Composition.Startup.Safe.{IsSafe, choose_composition-IsSafe}
use social_comments_service.Shared.Text.{text_eq, units}

abbrev unkeyed : ProcessEnv
unkeyed = record {
  node_env = some (units "production");
  database_url = some (units "postgres://db");
  idempotency_fingerprint_secret = some [];
}

abbrev keyed : ProcessEnv
keyed = record unkeyed { idempotency_fingerprint_secret = some (units "key") }

unkeyed_refused : choose_composition unkeyed ≡ refuse_start fingerprint_secret_required
unfolding choose_composition is_production is_unset text_eq
unkeyed_refused = refl

keyed_started : choose_composition keyed ≡ postgres (units "postgres://db") (units "key")
unfolding choose_composition is_production is_unset text_eq
keyed_started = refl

choose_composition-IsSafe_example : IsSafe keyed (choose_composition keyed)
choose_composition-IsSafe_example = choose_composition-IsSafe keyed
