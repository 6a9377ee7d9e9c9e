-- ===== src/Tests/Hydrated.antt =====
-- A first hydration of the sample's post.
use social_comments_service.Base.{none, refl, some, true, ◌≡◌}
use social_comments_service.Comments.Service.Hydration.{
  HydrationOutcome, HydrationRequest, empty_snapshot_state, run_hydration,
}
use social_comments_service.Comments.Service.Hydration.Ends.{IsFinished}
use social_comments_service.Composition.{World, in_memory_ports}
use social_comments_service.Composition.Hydrated.{Stores, hydration_ends}
use social_comments_service.Shared.Date.{to_iso_string}
use social_comments_service.Shared.Exec.{Result, ok}
use social_comments_service.Shared.Text.{units}
use social_comments_service.Shared.Types.{facebook}
use social_comments_service.Tests.Sample.{account, post, program, providers, world}

abbrev first_run : HydrationRequest
first_run = record {
  starting_run = true;
  limit = 10;
  query = record { post_id = units "p1"; platform = facebook; after = none; limit = 10 };
}

abbrev hydrating : Result HydrationOutcome × World (Unit {0})
hydrating =
    run_hydration (in_memory_ports providers) account post empty_snapshot_state empty_snapshot_state
      first_run world

abbrev read_whole : HydrationOutcome
read_whole = record {
  state = record {
    provider_cursor = none;
    exhausted = true;
    completed_at = some (to_iso_string 63951340020120);
  };
  hydrations = 1;
}

stored_before : Stores providers account post empty_snapshot_state world
unfolding program
stored_before = refl

hydrating_returns : hydrating.0 ≡ ok read_whole
unfolding program mathlib.Core.Option.bind
hydrating_returns = refl

hydration_ends_example :
    IsFinished
      (Stores providers account post)
      (in_memory_ports providers)
      account
      post
      first_run
      empty_snapshot_state
      read_whole
      hydrating.1
hydration_ends_example =
    hydration_ends providers account post first_run empty_snapshot_state empty_snapshot_state world
      read_whole stored_before hydrating_returns
