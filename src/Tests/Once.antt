-- ===== src/Tests/Once.antt =====
-- The reply path at the sample.
use social_comments_service.Base.{[], refl, ◌∷◌, ◌≡◌, ◌≤◌}
use social_comments_service.Composition.Requests.{at_most_once, publications_for}
use social_comments_service.Shared.Text.{units}
use social_comments_service.Tests.Sample.{config, program, providers, read_first, reply_once, world}

reply_runs :
    publications_for config providers
      (units "a1")
      (units "k1")
      (read_first ∷ reply_once ∷ reply_once ∷ [])
      world
    ≡ 1
unfolding program mathlib.Core.Option.bind
reply_runs = refl

at_most_once_example :
    publications_for config providers
      (units "a1")
      (units "k1")
      (read_first ∷ reply_once ∷ reply_once ∷ [])
      world
    ≤ 1
at_most_once_example =
    at_most_once config providers (units "a1") (units "k1")
      (read_first ∷ reply_once ∷ reply_once ∷ []) world
