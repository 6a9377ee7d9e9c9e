-- ===== src/Composition/Requests.antt =====
-- Any sequence of requests against the in-memory composition.
use social_comments_service.Base.{List, Option, length, ℕ, ◌≤◌}
use social_comments_service.Comments.Contracts.{Config, Provider}
use social_comments_service.Comments.Service.Requests.{Request, published_for, respond, respond_all}
use social_comments_service.Comments.Service.Requests.Once.{published_for_le_one}
use social_comments_service.Composition.{World, in_memory_ports}
use social_comments_service.Composition.Lawful.{in_memory-PortLaws}
use social_comments_service.Shared.Text.{Text}
use social_comments_service.Shared.Types.{Platform}

module _ {S : Type 0} (config : Config) (providers : Platform → Option (Provider S)) where
  abbrev pub handle_request : Request → World S → World S
  handle_request = respond (in_memory_ports providers) config

  abbrev pub handle_requests : List Request → World S → World S
  handle_requests = respond_all (in_memory_ports providers) config

  -- The publications that the requests with one key of one tenant asked for, in a sequence.
  abbrev pub publications_for : Text → Text → List Request → World S → ℕ
  publications_for = published_for (in_memory_ports providers) config (λ w. length w.published)

  -- However often the requests with one key of a tenant are sent, and whatever other requests come
  -- between, they ask the providers for one publication at most.
  pub at_most_once : (a k : Text) (rs : List Request) (w : World S) → publications_for a k rs w ≤ 1
  at_most_once = published_for_le_one _ (in_memory-PortLaws providers) config
