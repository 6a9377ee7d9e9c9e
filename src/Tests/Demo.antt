-- ===== src/Tests/Demo.antt =====
-- The first requests to the demo.
use social_comments_service.Base.{[], length, none, refl, true, ◌∷◌, ◌≡◌}
use social_comments_service.Comments.Service.Requests.{Request, lists, replies, respond}
use social_comments_service.Composition.{World, in_memory_ports}
use social_comments_service.Composition.Demo.{
  demo_account_id, demo_post, demo_providers, demo_world,
}
use social_comments_service.Composition.Requests.{publications_for}
use social_comments_service.Platforms.Adaptive.{
  adapter_list_comments, adapter_reply_to_comment, authorised, supports, to_observed,
}
use social_comments_service.Platforms.Fixture.{
  Base64, FixtureProviderClient, digits, fixture_list_comments, fixture_page,
  fixture_reply_to_comment, parse_offset, read_digits, record_connection,
}
use social_comments_service.Platforms.Retry.{
  call_from, call_provider, provider_policies, with_timeout,
}
use social_comments_service.Repositories.InMemory.Posts.{snapshot_of}
use social_comments_service.Repositories.TenantScoped.{values}
use social_comments_service.Shared.Text.{units}
use social_comments_service.Shared.Types.{TenantContext}
use social_comments_service.Tests.Sample.{config, program, sources}

abbrev unchanged : Base64
unchanged = record { to_base64url = λ s. s; from_base64url = λ s. s }

abbrev demo_start : World FixtureProviderClient
demo_start = demo_world sources (λ n. units "2026-08-02T00:00:00.000Z")

abbrev demo_tenant : TenantContext
demo_tenant = record { account_id = demo_account_id }

abbrev two_first : Request
two_first = lists demo_tenant demo_post.id (record { limit = 2; cursor = none }) none

abbrev demo_read : World FixtureProviderClient
demo_read = respond (in_memory_ports (demo_providers unchanged)) config two_first demo_start

-- The first read of two comments has read the provider's two pages, as the tenant.
demo_hydrates :
    ((snapshot_of demo_read.memory demo_account_id demo_post.id).exhausted ≡ true)
    × (length (values demo_read.memory.by_id demo_account_id) ≡ 3)
    × (demo_read.client.connections ≡ demo_post.connection ∷ demo_post.connection ∷ [])
unfolding program mathlib.Core.Option.bind adapter_list_comments supports authorised call_provider
    call_from provider_policies with_timeout fixture_list_comments record_connection fixture_page
    to_observed parse_offset digits read_digits
demo_hydrates = (refl, refl, refl)

-- A reply to a comment that was read reaches the provider once, however often it is sent.
demo_replies :
    publications_for config
      (demo_providers unchanged)
      demo_account_id
      (units "k1")
      (two_first
        ∷ replies demo_tenant (units "u0") (units "Thanks") (units "k1")
        ∷ replies demo_tenant (units "u0") (units "Thanks") (units "k1")
        ∷ [])
      demo_start
    ≡ 1
unfolding program mathlib.Core.Option.bind adapter_list_comments adapter_reply_to_comment supports
    authorised call_provider call_from provider_policies with_timeout fixture_list_comments
    fixture_reply_to_comment record_connection fixture_page to_observed parse_offset digits
    read_digits
demo_replies = refl
