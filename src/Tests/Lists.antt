-- ===== src/Tests/Lists.antt =====
-- The list path at the sample.
use social_comments_service.Base.{[], false, none, refl, some, sym, true, ◌+◌, ◌∷◌, ◌≡◌, ◌≤◌}
use social_comments_service.Comments.Laws.{PortLaws}
use social_comments_service.Comments.Service.Hydration.{
  HydrationRequest, empty_snapshot_state, hydration_loop, run_hydration,
}
use social_comments_service.Comments.Service.Hydration.Bounds.{run_hydration-bound}
use social_comments_service.Comments.Service.Hydration.Pages.{paged_ports}
use social_comments_service.Comments.Service.Listing.{
  ListCommentsRequest, list_comments, pagination_of,
}
use social_comments_service.Composition.{World, in_memory_ports}
use social_comments_service.Composition.Answers.{HasOwnId, IsListed, list_comments-IsListed}
use social_comments_service.Composition.Lawful.{in_memory-PortLaws, world_observation}
use social_comments_service.Shared.Date.{to_iso_string}
use social_comments_service.Shared.Exec.{Result, ok}
use social_comments_service.Shared.Text.{units}
use social_comments_service.Shared.Types.{ListCommentsResult, facebook}
use social_comments_service.Tests.Sample.{account, author, config, post, program, providers, world}

abbrev first_page : ListCommentsRequest
first_page = record { limit = 10; cursor = none }

abbrev answered : Result ListCommentsResult × World (Unit {0})
answered =
    list_comments (in_memory_ports providers) config account (units "p1") first_page none world

abbrev listed : ListCommentsResult
listed = record {
  items =
      record {
        id = units "u0";
        post_id = units "p1";
        platform = facebook;
        author = author;
        body = units "Hi";
        parent_comment_id = none;
        parent_unresolved = false;
        published_at = units "2026-01-02T00:00:00.000Z";
        updated_at = units "2026-01-02T00:00:00.000Z";
      }
      ∷ [];
  pagination = record { next_cursor = none; has_more = false };
  synced_at = some (to_iso_string 63951340020120);
}

answered_ok : answered.0 ≡ ok listed
unfolding program pagination_of mathlib.Core.Option.bind
answered_ok = refl

own_ids : HasOwnId providers config account (units "p1") world
unfolding program
own_ids p e = let same : post ≡ p = cc e in rw (sym same) refl

list_comments-IsListed_example :
    IsListed providers config account (units "p1") world first_page listed answered.1
list_comments-IsListed_example =
    list_comments-IsListed providers config account (units "p1") first_page world listed own_ids
      answered_ok

abbrev request : HydrationRequest
request = record {
  starting_run = true;
  limit = 10;
  query = record { post_id = units "p1"; platform = facebook; after = none; limit = 10 };
}

run_hydration-bound_example :
    ((run_hydration
        (paged_ports (in_memory_ports providers))
        account
        post
        empty_snapshot_state
        empty_snapshot_state
        request
        (world, 0)).1.1
      ≤ 0 + 40)
    × (hydration_loop
          (in_memory_ports providers)
          account
          post
          request
          (20 + 5)
          0
          empty_snapshot_state
          empty_snapshot_state
          0
        ≡ hydration_loop
            (in_memory_ports providers)
            account
            post
            request
            20
            0
            empty_snapshot_state
            empty_snapshot_state
            0)
run_hydration-bound_example =
    run_hydration-bound (in_memory_ports providers) account post request empty_snapshot_state
      empty_snapshot_state (world, 0) 5 0

in_memory-PortLaws_example : PortLaws world_observation (in_memory_ports providers)
in_memory-PortLaws_example = in_memory-PortLaws providers
