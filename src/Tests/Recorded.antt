-- ===== src/Tests/Recorded.antt =====
-- A reply that is sent a second time, at the sample.
use social_comments_service.Base.{List, [], false, refl, some, ◌∷◌, ◌≡◌}
use social_comments_service.Comments.Service.Reply.{reply_to_comment}
use social_comments_service.Comments.Service.Requests.{Request}
use social_comments_service.Composition.{World, in_memory_ports}
use social_comments_service.Composition.Recorded.{reply_to_comment-IsAnswered}
use social_comments_service.Composition.Requests.{handle_requests}
use social_comments_service.Composition.Sound.{IsSound}
use social_comments_service.Repositories.InMemory.Comments.Stores.{empty_memory-IsWellFormed}
use social_comments_service.Repositories.InMemory.Operations.Answered.{
  IsAnswered, empty_memory-HasOwnIds,
}
use social_comments_service.Shared.Exec.{Result, ok}
use social_comments_service.Shared.Text.{units}
use social_comments_service.Shared.Types.{Comment, facebook}
use social_comments_service.Tests.Sample.{
  account, author, config, post, program, providers, read_first, reply_once, sources,
  uuids_distinct, world,
}

abbrev sent_before : List Request
sent_before = read_first ∷ reply_once ∷ []

abbrev replaying : Result Comment × World (Unit {0})
replaying =
    reply_to_comment (in_memory_ports providers) config account (units "u0") (units "Thanks")
      (units "k1") (handle_requests config providers sent_before world)

abbrev thanks : Comment
thanks = record {
  id = units "u2";
  post_id = units "p1";
  platform = facebook;
  author = author;
  body = units "Thanks";
  parent_comment_id = some (units "u0");
  parent_unresolved = false;
  published_at = units "2026-01-02T00:00:00.000Z";
  updated_at = units "2026-01-02T00:00:00.000Z";
}

replaying_returns : replaying.0 ≡ ok thanks
unfolding program mathlib.Core.Option.bind
replaying_returns = refl

world-IsSound : IsSound world.memory
world-IsSound = (
  empty_memory-IsWellFormed sources ((units "p1", post) ∷ []) uuids_distinct,
  empty_memory-HasOwnIds sources ((units "p1", post) ∷ []),
)

reply_to_comment-IsAnswered_example :
    IsAnswered (units "a1") (units "k1") (units "u2") replaying.1.memory
reply_to_comment-IsAnswered_example =
    reply_to_comment-IsAnswered config providers sent_before world account (units "u0")
      (units "Thanks") (units "k1") thanks world-IsSound replaying_returns
