-- ===== src/Tests/Api.antt =====
-- The routes at the sample.
use social_comments_service.Api.{answer_of, failed_with, get_comments, internal_answer, post_reply}
use social_comments_service.Api.Refusals.{
  NamesNoTenant, foreign_answer, other_error, retry_after_enough, unauthenticated_answer,
  unauthenticated_refused,
}
use social_comments_service.Base.{none, refl, some, true, ℕ, ◌*◌, ◌+◌, ◌<◌, ◌≡◌, ◌≤◌}
use social_comments_service.Composition.{in_memory_ports}
use social_comments_service.Shared.Errors.{ServiceErrorCode, provider_rate_limit_thrown}
use social_comments_service.Shared.Identifiers.{is_uuid}
use social_comments_service.Shared.Text.{Text, units}
use social_comments_service.Tests.Sample.{config, providers, world}

abbrev tenant : Text
tenant = units "2b1f8f5c-0d2e-4d64-9d5f-91a0c0f1b002"

no_header : NamesNoTenant none
no_header a e = absurd (cc e)

unauthenticated_refused_example :
    (get_comments (in_memory_ports providers) config none (units "p1") none none none world
      ≡ (failed_with unauthenticated_answer, world))
    × (post_reply (in_memory_ports providers) config none (units "u0") (units "Thanks") none world
        ≡ (failed_with unauthenticated_answer, world))
unauthenticated_refused_example =
    unauthenticated_refused (in_memory_ports providers) config none (units "p1") none none none
      (units "u0") (units "Thanks") none world no_header

tenant_accepted : is_uuid tenant ≡ true
unfolding is_uuid
tenant_accepted = refl

foreign_answer_example :
    ((400 ≤ 429) × (429 < 500)
      → ((answer_of (other_error (some 429) none)).status ≡ 429)
        × ((answer_of (other_error (some 429) none)).answer_code
            ≡ ServiceErrorCode.invalid_request))
    × (¬ ((400 ≤ 429) × (429 < 500)) → answer_of (other_error (some 429) none) ≡ internal_answer)
    × (answer_of (other_error none none) ≡ internal_answer)
foreign_answer_example = foreign_answer 429 none

retry_after_enough_example :
    (s : ℕ) × ((answer_of (provider_rate_limit_thrown (some 1500))).retry_after ≡ some s)
    × (1500 ≤ s * 1000)
    × (s * 1000 < 1500 + 1000)
retry_after_enough_example = retry_after_enough 1500
