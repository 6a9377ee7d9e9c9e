-- ===== src/Tests/Comments.antt =====
-- The stored comments at the sample.
use mathlib.Core.List.{Perm}
use social_comments_service.Base.{List, String, [], arith, false, none, refl, ◌∷◌, ◌≡◌}
use social_comments_service.Composition.Formed.{handle_requests-IsWellFormed}
use social_comments_service.Composition.Requests.{handle_requests}
use social_comments_service.Repositories.InMemory.{Memory, empty_memory}
use social_comments_service.Repositories.InMemory.Comments.{
  keep_if, of_post, to_comment, upsert_many,
}
use social_comments_service.Repositories.InMemory.Comments.Growth.{upsert_many-Grows}
use social_comments_service.Repositories.InMemory.Comments.Keyset.{IsOrdered}
use social_comments_service.Repositories.InMemory.Comments.Reading.{read_all, read_all_complete}
use social_comments_service.Repositories.InMemory.Comments.Stores.{
  IsWellFormed, empty_memory-IsWellFormed,
}
use social_comments_service.Repositories.TenantScoped.{values}
use social_comments_service.Shared.Exec.{map_result, ok}
use social_comments_service.Shared.Text.{units}
use social_comments_service.Shared.Types.{Comment, ListCommentsQuery, ObservedComment, facebook}
use social_comments_service.Tests.Sample.{
  account, author, config, observed, post, program, providers, read_first, reply_once, sources,
  uuids_distinct, world,
}

abbrev before : Memory
before = empty_memory sources []

before-IsWellFormed : IsWellFormed before
before-IsWellFormed = empty_memory-IsWellFormed sources [] uuids_distinct

abbrev batch : List ObservedComment
batch =
    observed "e1" "Hi" none
    ∷ record (observed "e0" "First" none) { published_at = units "2026-01-01T00:00:00.000Z" }
    ∷ observed "e1" "Hi again" none
    ∷ []

abbrev after : Memory
after = (upsert_many account batch before).1

after-IsWellFormed : IsWellFormed after
after-IsWellFormed = (upsert_many-Grows account batch).well_formed before before-IsWellFormed

abbrev comment : String → String → String → Comment
comment id body at = record {
  id = units id;
  post_id = units "p1";
  platform = facebook;
  author = author;
  body = units body;
  parent_comment_id = none;
  parent_unresolved = false;
  published_at = units at;
  updated_at = units "2026-01-02T00:00:00.000Z";
}

abbrev later_one : Comment
later_one = comment "u0" "Hi again" "2026-01-02T00:00:00.000Z"

abbrev earlier_one : Comment
earlier_one = comment "u1" "First" "2026-01-01T00:00:00.000Z"

abbrev one_a_page : ListCommentsQuery
one_a_page = record { post_id = units "p1"; platform = facebook; after = none; limit = 1 }

stored :
    map_result
      (to_comment after (units "a1"))
      (keep_if (of_post one_a_page) (values after.by_id (units "a1")))
    ≡ ok (later_one ∷ earlier_one ∷ [])
unfolding program mathlib.Core.Option.bind
stored = refl

read_all_runs : (read_all 3 account one_a_page after).0 ≡ ok (earlier_one ∷ later_one ∷ [])
unfolding program read_all mathlib.Core.Option.bind
read_all_runs = refl

read_all_complete_example :
    (ordered : List Comment) × (read_all 3 account one_a_page after ≡ (ok ordered, after))
    × Perm ordered (later_one ∷ earlier_one ∷ [])
    × IsOrdered ordered
read_all_complete_example =
    read_all_complete 3 account one_a_page after (later_one ∷ earlier_one ∷ []) after-IsWellFormed
      stored (omega arith) refl (omega arith)

sample-IsWellFormed : IsWellFormed world.memory
sample-IsWellFormed = empty_memory-IsWellFormed sources ((units "p1", post) ∷ []) uuids_distinct

handle_requests-IsWellFormed_example :
    IsWellFormed (handle_requests config providers (read_first ∷ reply_once ∷ []) world).memory
handle_requests-IsWellFormed_example =
    handle_requests-IsWellFormed config providers (read_first ∷ reply_once ∷ []) world
      sample-IsWellFormed
