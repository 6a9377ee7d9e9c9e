-- ===== src/Tests/Providers.antt =====
-- An adapter at a client that fails twice before it answers.
use social_comments_service.Base.{
  [], false, if◌then◌else◌, inl, ltb, none, refl, ℕ, ◌+◌, ◌-◌, ◌∷◌, ◌≡◌, ◌≤◌,
}
use social_comments_service.Comments.Returns.{Returns}
use social_comments_service.Platforms.Adaptive.{
  AdaptiveProviderAdapter, ExternalCommentRecord, ProviderClient, adapter_list_comments,
  adapter_reply_to_comment,
}
use social_comments_service.Platforms.Adaptive.Faithful.{
  IsFaithful, IsUnfit, adapter_list_comments-IsFaithful, counting, published_once,
  unauthorised_unsent,
}
use social_comments_service.Platforms.Retry.{
  Operation, backoff_delay, call_from, call_provider, provider_policies, provider_retry_policy,
  retry_delay_for, with_timeout,
}
use social_comments_service.Platforms.Retry.Attempts.{call_provider_bound, counted, write_once}
use social_comments_service.Shared.Errors.{Thrown, provider_rate_limit_thrown}
use social_comments_service.Shared.Exec.{err, ok}
use social_comments_service.Shared.Text.{units}
use social_comments_service.Shared.Types.{
  ProviderCapability, ProviderListCommentsQuery, ProviderReplyCommand, SocialConnection, facebook,
}
use social_comments_service.Tests.Sample.{connection, post, program}

abbrev reported : ExternalCommentRecord
reported = record {
  external_id = units "e1";
  author_id = units "w";
  author_name = units "Wim";
  author_profile_url = none;
  body = units "Hi";
  parent_external_id = none;
  published_at = units "2026-01-02T00:00:00.000Z";
  updated_at = units "2026-01-02T00:00:00.000Z";
}

-- The state counts the calls.
abbrev flaky : {A : Type 0} → A → Operation ℕ A
flaky a = record {
  run = λ n. if ltb n 2 then (err (provider_rate_limit_thrown none), n + 1) else (ok a, n + 1);
  takes = λ n. 5;
}

abbrev client : ProviderClient ℕ
client = record {
  list_comments =
      λ q. flaky (record { items = reported ∷ []; next_cursor = none; has_more = false });
  reply_to_comment = λ c. flaky reported;
}

abbrev adapter : AdaptiveProviderAdapter ℕ
adapter = record {
  platform = facebook;
  client = client;
  capabilities = ProviderCapability.list_comments ∷ ProviderCapability.reply_to_comment ∷ [];
  policies = provider_policies provider_retry_policy;
}

abbrev query : ProviderListCommentsQuery
query = record { post = post; connection = connection; provider_cursor = none; limit = 100 }

abbrev command : ProviderReplyCommand
command = record {
  post = post;
  connection = connection;
  parent_external_comment_id = units "e0";
  body = units "Thanks";
}

-- A read is repeated until it is answered.
reads_thrice :
    (call_provider (counted (flaky reported)) provider_retry_policy (0, 0)) ≡ (ok reported, (3, 3))
unfolding program call_provider call_from with_timeout retry_delay_for backoff_delay
reads_thrice = refl

call_provider_bound_example :
    ((call_provider (counted (flaky reported)) provider_retry_policy (0, 0)).1.1 ≤ 0 + (3 - 1 + 1))
    × (call_from (3 - 1 + 4) 1 (flaky reported) provider_retry_policy 0
        ≡ call_provider (flaky reported) provider_retry_policy 0)
call_provider_bound_example = call_provider_bound (flaky reported) provider_retry_policy (0, 0) 4 0

write_once_example :
    call_provider (flaky reported) (provider_policies provider_retry_policy).write 0
    ≡ with_timeout (flaky reported) 20000 0
write_once_example = write_once (flaky reported) provider_retry_policy 0

published_once_example :
    (adapter_reply_to_comment (counting adapter provider_retry_policy) command (0, 0)).1.1 ≤ 0 + 1
published_once_example = published_once adapter provider_retry_policy command (0, 0)

adapter_list_comments-IsFaithful_example :
    Returns (IsFaithful facebook post) (adapter_list_comments adapter query)
adapter_list_comments-IsFaithful_example = adapter_list_comments-IsFaithful adapter query

abbrev no_credential : SocialConnection
no_credential = record connection { credential_reference = units " " }

no_credential-IsUnfit : IsUnfit adapter no_credential
unfolding program
no_credential-IsUnfit = inl refl

unauthorised_unsent_example :
    ((e : Thrown) × (adapter_list_comments adapter (record query { connection = no_credential }) 7
        ≡ (err e, 7)))
    × ((e : Thrown) × (adapter_reply_to_comment adapter
            (record command { connection = no_credential })
            7
          ≡ (err e, 7)))
unauthorised_unsent_example =
    unauthorised_unsent adapter (record query { connection = no_credential })
      (record command { connection = no_credential }) 7 no_credential-IsUnfit no_credential-IsUnfit
