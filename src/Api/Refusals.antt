-- ===== src/Api/Refusals.antt =====
-- Which requests are refused, and with what.
use social_comments_service.Api.{
  ErrorAnswer, Response, answer_of, ceil_seconds, failed_with, get_comments, internal_answer,
  plain_answer, post_reply, retry_after_of, transport_failure, with_account_context,
}
use social_comments_service.Base.{
  Bool-cases, Option, arith, false, inl, inr, none, refl, some, ℕ, ◌*◌, ◌+◌, ◌<◌, ◌≡◌, ◌≤◌,
}
use social_comments_service.Comments.Contracts.{Config, Ports}
use social_comments_service.Comments.Service.Hydration.{JoinOutcome}
use social_comments_service.Shared.Errors.{
  ServiceErrorCode, ServiceErrorReason, Thrown, foreign, provider_rate_limit_thrown,
}
use social_comments_service.Shared.Identifiers.{is_uuid}
use social_comments_service.Shared.Identifiers.Shape.{IsUuid, is_uuid-IsUuid}
use social_comments_service.Shared.Text.{Text}
use social_comments_service.Shared.Types.{TenantContext}

-- A header that names no tenant: it is absent, or no UUID.
abbrev pub NamesNoTenant : Option Text → Type 0
NamesNoTenant header = (account_id : Text) → header ≡ some account_id → ¬ IsUuid account_id

abbrev pub unauthenticated_answer : ErrorAnswer
unauthenticated_answer =
    plain_answer 401 ServiceErrorCode.unauthenticated ServiceErrorReason.missing_account_context

with_account_context-NamesNoTenant :
    {W : Type 0} (header : Option Text) (handler : TenantContext → W → Response × W) (w : W)
    → NamesNoTenant header
    → with_account_context header handler w ≡ (failed_with unauthenticated_answer, w)
unfolding with_account_context
with_account_context-NamesNoTenant none handler w h = refl
with_account_context-NamesNoTenant (some a) handler w h = elim (Bool-cases (is_uuid a)) [
  | inl x ↦ absurd (h a refl (is_uuid-IsUuid a x))
  | inr x ↦ rw (x)
]

-- A request whose account header is absent, or is not five groups of 8, 4, 4, 4 and 12 hexadecimal
-- digits with hyphens between, is answered with 401 on both routes, and the state is as it was.
pub unauthenticated_refused :
    {W : Type 0} (ports : Ports W) (config : Config) (header : Option Text) (post_id : Text)
    (limit : Option ℕ) (cursor : Option Text) (in_flight : Option JoinOutcome)
    (comment_id body : Text) (key : Option Text) (w : W)
    → NamesNoTenant header
    → (get_comments ports config header post_id limit cursor in_flight w
        ≡ (failed_with unauthenticated_answer, w))
      × (post_reply ports config header comment_id body key w
          ≡ (failed_with unauthenticated_answer, w))
unfolding get_comments post_reply
unauthenticated_refused ports config header post_id limit cursor in_flight comment_id body key w h =
    (
      with_account_context-NamesNoTenant header _ w h,
      with_account_context-NamesNoTenant header _ w h,
    )

-- The error of another library, or of the framework, that is no failure of a schema.
abbrev pub other_error : Option ℕ → Option Text → Thrown
other_error status code = foreign (record { validation = false; status_code = status; code = code })

-- The error of another library that carries a status of a client's error is answered as the
-- client's mistake with that status; one with any other status, or with none, is answered as an
-- internal error, validation failures of the framework apart.
pub foreign_answer :
    (status : ℕ) (code : Option Text)
    → ((400 ≤ status) × (status < 500)
        → ((answer_of (other_error (some status) code)).status ≡ status)
          × ((answer_of (other_error (some status) code)).answer_code
              ≡ ServiceErrorCode.invalid_request))
      × (¬ ((400 ≤ status) × (status < 500))
          → answer_of (other_error (some status) code) ≡ internal_answer)
      × (answer_of (other_error none code) ≡ internal_answer)
unfolding answer_of transport_failure
foreign_answer status code = (λ h. ground arith, λ n. ground arith, refl)

-- The wait that a limited client is told, in seconds, is at least the wait of the provider in
-- milliseconds, and less than a second longer.
pub retry_after_enough :
    (ms : ℕ)
    → (s : ℕ) × ((answer_of (provider_rate_limit_thrown (some ms))).retry_after ≡ some s)
      × (ms ≤ s * 1000)
      × (s * 1000 < ms + 1000)
unfolding answer_of retry_after_of
retry_after_enough ms = (ceil_seconds ms, refl, omega arith, omega arith)
