-- ===== src/Tests/Replies.antt =====
-- Refused and published replies at the sample.
use social_comments_service.Base.{false, none, refl, ◌≡◌}
use social_comments_service.Comments.Service.Reply.{Target, publish, reply_to_comment}
use social_comments_service.Comments.Service.Reply.Refusals.{never_fails}
use social_comments_service.Composition.{World, in_memory_ports}
use social_comments_service.Composition.Outcomes.{publish_settles, target_of}
use social_comments_service.Composition.Requests.{handle_request}
use social_comments_service.Composition.Steps.{IsSettled}
use social_comments_service.Repositories.InMemory.Operations.{claim}
use social_comments_service.Repositories.InMemory.Operations.Settles.{IsPendingAt}
use social_comments_service.Shared.Cursor.{invalid_cursor_thrown}
use social_comments_service.Shared.Exec.{throw}
use social_comments_service.Shared.Text.{units}
use social_comments_service.Shared.Types.{Comment, ReplyOperation, facebook, pending}
use social_comments_service.Tests.Sample.{
  account, author, config, post, program, provider, providers, read_first, world,
}

abbrev read_world : World (Unit {0})
read_world = handle_request config providers read_first world

abbrev operation : ReplyOperation
operation = record {
  id = units "o1";
  account_id = units "a1";
  comment_id = units "u0";
  idempotency_key = units "k1";
  request_fingerprint = units "f";
  status = pending;
  resulting_comment_id = none;
  failure_code = none;
  lease_expires_at = units "2026-01-03T00:00:00.000Z";
  external_reply_id = none;
  created_at = units "2026-01-02T00:00:00.000Z";
  completed_at = none;
}

-- The world after the comment was read and an operation was claimed for it.
abbrev claimed : World (Unit {0})
claimed = record read_world { memory = (claim account operation read_world.memory).1 }

is_open : IsPendingAt claimed.memory (units "a1") (units "o1") operation
unfolding program mathlib.Core.Option.bind
is_open = record { row = refl; pending_status = refl; valid = refl }

abbrev answered : Comment
answered = record {
  id = units "u0";
  post_id = units "p1";
  platform = facebook;
  author = author;
  body = units "Hi";
  parent_comment_id = none;
  parent_unresolved = false;
  published_at = units "2026-01-02T00:00:00.000Z";
  updated_at = units "2026-01-02T00:00:00.000Z";
}

abbrev target : Target (World (Unit {0}))
target = target_of providers account (units "o1") answered post (units "e1") provider

publish_settles_example :
    IsSettled
      (publish
        (in_memory_ports providers)
        account
        target
        (units "Thanks")
        (units "o1")
        claimed).1.memory
      (units "a1")
      (units "o1")
      (publish (in_memory_ports providers) account target (units "Thanks") (units "o1") claimed).0
publish_settles_example =
    publish_settles providers account (units "o1") answered post (units "e1") provider
      (units "Thanks") claimed operation is_open

never_fails_example :
    reply_to_comment
      (in_memory_ports providers)
      config
      account
      (units "u0")
      (units "Thanks")
      (units "k1")
      read_world
    ≡ reply_to_comment
        (record (in_memory_ports providers) { fail = λ c i e. throw invalid_cursor_thrown })
        config
        account
        (units "u0")
        (units "Thanks")
        (units "k1")
        read_world
never_fails_example =
    never_fails (in_memory_ports providers) config account (units "u0") (units "Thanks")
      (units "k1") (λ c i e. throw invalid_cursor_thrown) read_world
