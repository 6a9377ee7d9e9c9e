-- ===== src/Composition/Demo.antt =====
-- `createDemoApplication` of src/index.ts: the in-memory composition over the fixture client, with
-- the post and the comments that it starts with.
use social_comments_service.Base.{List, Option, String, [], if◌then◌else◌, none, some, ℕ, ◌∷◌}
use social_comments_service.Comments.Contracts.{Provider}
use social_comments_service.Composition.{World}
use social_comments_service.Platforms.Adaptive.{
  AdaptiveProviderAdapter, ExternalCommentRecord, ProviderClient, provider_of,
}
use social_comments_service.Platforms.Fixture.{
  Base64, FixtureProviderClient, fixture_list_comments, fixture_reply_to_comment,
}
use social_comments_service.Platforms.Retry.{Operation, provider_policies, provider_retry_policy}
use social_comments_service.Repositories.InMemory.{Sources, empty_memory}
use social_comments_service.Shared.Exec.{Exec}
use social_comments_service.Shared.Text.{Text, units}
use social_comments_service.Shared.Types.{
  Platform, ProviderCapability, PublishedPost, instagram, platform_eq,
}

abbrev pub demo_account_id : Text
demo_account_id = units "2b1f8f5c-0d2e-4d64-9d5f-91a0c0f1b001"

abbrev pub demo_post : PublishedPost
demo_post = record {
  id = units "2b1f8f5c-0d2e-4d64-9d5f-91a0c0f1b002";
  account_id = demo_account_id;
  platform = instagram;
  external_post_id = units "ig-post-1";
  published_at = units "2026-08-01T09:00:00.000Z";
  connection = record {
    social_account_id = units "2b1f8f5c-0d2e-4d64-9d5f-91a0c0f1b011";
    platform = instagram;
    credential_reference = units "secret://social/instagram/tenant-a";
  };
}

-- A comment that has not been changed since it was published.
abbrev demo_comment : String → String → String → String → String → ExternalCommentRecord
demo_comment external_id author_id author_name body published_at = record {
  external_id = units external_id;
  author_id = units author_id;
  author_name = units author_name;
  author_profile_url = none;
  body = units body;
  parent_external_id = none;
  published_at = units published_at;
  updated_at = units published_at;
}

abbrev pub demo_external_comments : List ExternalCommentRecord
demo_external_comments =
    demo_comment "ig-comment-1" "ig-author-1" "Ada Lovelace" "This is great!"
      "2026-08-01T10:00:00.000Z"
    ∷ demo_comment "ig-comment-2" "ig-author-2" "Grace Hopper" "Where can I read more?"
        "2026-08-01T11:00:00.000Z"
    ∷ demo_comment "ig-comment-3" "ig-author-3" "Katherine Johnson" "Shipping this today."
        "2026-08-01T12:00:00.000Z"
    ∷ []

-- The instants are those that the client's `now` returns.
abbrev pub demo_client : (ℕ → Text) → FixtureProviderClient
demo_client now = record {
  comments_by_post = (demo_post.external_post_id, demo_external_comments) ∷ [];
  max_page_size = 2;
  now = now;
  reply_count = 0;
  connections = [];
}

-- The fixture answers at once.
abbrev at_once : {A : Type 0} → Exec FixtureProviderClient A → Operation FixtureProviderClient A
at_once m = record { run = m; takes = λ s. 0 }

module _ (base64 : Base64) where
  abbrev pub fixture_client : ProviderClient FixtureProviderClient
  fixture_client = record {
    list_comments = λ query. at_once (fixture_list_comments base64 query);
    reply_to_comment = λ command. at_once (fixture_reply_to_comment command);
  }

  abbrev pub demo_adapter : AdaptiveProviderAdapter FixtureProviderClient
  demo_adapter = record {
    platform = demo_post.platform;
    client = fixture_client;
    capabilities = ProviderCapability.list_comments ∷ ProviderCapability.reply_to_comment ∷ [];
    policies = provider_policies provider_retry_policy;
  }

  abbrev pub demo_providers : Platform → Option (Provider FixtureProviderClient)
  demo_providers platform =
      if platform_eq platform demo_post.platform then some (provider_of demo_adapter) else none

abbrev pub demo_world : Sources → (ℕ → Text) → World FixtureProviderClient
demo_world sources now = record {
  memory = empty_memory sources ((demo_post.id, demo_post) ∷ []);
  client = demo_client now;
  published = [];
}
