-- ===== src/Tests/Tenants.antt =====
-- Two tenants at the sample.
use social_comments_service.Base.{[], false, refl, ◌∷◌, ◌≡◌}
use social_comments_service.Composition.Isolation.{tenants_isolated}
use social_comments_service.Composition.Requests.{handle_requests}
use social_comments_service.Repositories.InMemory.Tenants.{SeenAlike}
use social_comments_service.Shared.Text.{text_eq, units}
use social_comments_service.Tests.Sample.{config, program, providers, read_first, reply_once, world}

other_tenant : text_eq (units "a1") (units "a2") ≡ false
unfolding program
other_tenant = refl

tenants_isolated_example :
    SeenAlike
      (units "a2")
      world.memory
      (handle_requests config providers (read_first ∷ reply_once ∷ []) world).memory
tenants_isolated_example =
    tenants_isolated config providers (units "a2") (read_first ∷ reply_once ∷ []) world
      (other_tenant, (other_tenant, tt))
