-- ===== src/Comments/Service/Listing.antt =====
-- `listComments` of src/comments/comment-service.ts. The records and counters that it writes to the
-- logger and the metrics are left out.
pub mod Quiet
pub mod Runs
pub mod Served
use social_comments_service.Base.{
  Bool, Option, false, if◌then◌else◌, is_none, last?, length, ltb, none, not, some, ℕ, ◌*◌, ◌-◌,
  ◌||◌,
}
use social_comments_service.Comments.Contracts.{Config, Ports}
use social_comments_service.Comments.Service.Hydration.{
  HydrationRequest, JoinOutcome, empty_snapshot_state, join_hydration, needs_hydration,
  run_hydration,
}
use social_comments_service.Comments.Service.Reply.{or_throw}
use social_comments_service.Repositories.InMemory.Comments.{keyset_of}
use social_comments_service.Shared.Cursor.{CommentCursor, decode_cursor, encode_cursor}
use social_comments_service.Shared.Date.{parse_date}
use social_comments_service.Shared.Errors.{post_not_found_thrown}
use social_comments_service.Shared.Exec.{Exec, lift, pure, ◌>>=◌, ◌>>◌}
use social_comments_service.Shared.Text.{Text}
use social_comments_service.Shared.Types.{
  Comment, CommentKeyset, CommentPage, ListCommentsQuery, ListCommentsResult, Pagination,
  PostSnapshotState, PublishedPost, PublishedPostRecord, TenantContext,
}
use social_comments_service.Shared.Validation.{validate_list_comments_query, validate_pagination}

abbrev pub default_snapshot_lifetime_seconds : ℕ
default_snapshot_lifetime_seconds = 300

-- `snapshotLifetimeMs`: a configured number counts if it is positive.
unfoldable pub snapshot_lifetime_ms : Option ℕ → ℕ
snapshot_lifetime_ms none = default_snapshot_lifetime_seconds * 1000
snapshot_lifetime_ms (some configured) =
    (if ltb 0 configured then configured else default_snapshot_lifetime_seconds) * 1000

pub record ListCommentsRequest : Type 0 where
  pub limit : ℕ
  pub cursor : Option Text

-- `Date.now() - Date.parse(completedAt) > lifetime`, false for NaN and for a time to come.
unfoldable pub is_older : Text → ℕ → ℕ → Bool
is_older completed_at now lifetime = elim (parse_date completed_at) [
  | none ↦ false
  | some t ↦ ltb lifetime (now - t)
]

abbrev pub position_after : Option Comment → Option CommentKeyset → Option CommentKeyset
position_after none after = after
position_after (some c) after = some (keyset_of c)

module _ {W : Type 0} (ports : Ports W) (config : Config) where
  abbrev pub stale_since : Option Text → Exec W Bool
  stale_since none = pure false
  stale_since (some completed_at) = do
    now ← ports.now
    pure (is_older completed_at now (snapshot_lifetime_ms config.snapshot_lifetime_seconds))

  -- `stale`
  unfoldable pub stale : PostSnapshotState → Exec W Bool
  stale state = if not state.exhausted then pure false else stale_since state.completed_at

  -- A request that would read the provider: it joins a hydration that runs for the post, or runs
  -- one itself.
  unfoldable pub advance :
      TenantContext
      → PublishedPost
      → PostSnapshotState
      → PostSnapshotState
      → HydrationRequest
      → Option JoinOutcome
      → Exec W PostSnapshotState
  advance context post state stored request (some running) = pure (join_hydration running state)
  advance context post state stored request none = do
    outcome ← run_hydration ports context post state stored request
    pure outcome.state

  -- The cursor that a page is answered with, and when the run's snapshot was completed.
  unfoldable pub pagination_of : CommentCursor → Bool → PostSnapshotState → CommentPage → Pagination
  pagination_of cursor partial_run state page =
      let has_more = page.has_more || not state.exhausted in
      record {
        next_cursor =
            if has_more
            then some (
                encode_cursor config.codec (record {
                  after = position_after (last? page.items) cursor.after;
                  partial_run = partial_run;
                }))
            else none;
        has_more = has_more;
      }

  unfoldable pub is_partial_run : CommentCursor → Bool → PostSnapshotState → Bool
  is_partial_run cursor starting_run state =
      if starting_run then not state.exhausted else cursor.partial_run

  unfoldable pub answer :
      CommentCursor → Bool → PostSnapshotState → CommentPage → Exec W ListCommentsResult
  unfolding pagination_of is_partial_run
  answer cursor starting_run state page = do
    let partial_run = is_partial_run cursor starting_run state
    let pagination = pagination_of cursor partial_run state page
    lift (validate_pagination pagination)
    pure (record {
      items = page.items;
      pagination = pagination;
      synced_at = if partial_run then none else state.completed_at;
    })

  -- The body of the `try` block.
  unfoldable pub serve :
      TenantContext
      → PublishedPostRecord
      → CommentCursor
      → ListCommentsQuery
      → Option JoinOutcome
      → Exec W ListCommentsResult
  unfolding answer advance
  serve context found cursor query in_flight = do
    old ← stale found.snapshot
    let state = if old then empty_snapshot_state else found.snapshot
    let starting_run = is_none cursor.after
    page ← ports.list_by_post context query
    if needs_hydration state starting_run (length page.items) query.limit
        then (do
          state' ←
              advance context found.post state found.snapshot
                (record { starting_run = starting_run; limit = query.limit; query = query })
                in_flight
          page' ← ports.list_by_post context query
          answer cursor starting_run state' page')
        else answer cursor starting_run state page

  -- `in_flight` is the hydration that already runs for the post on this instance, if one does, by
  -- what it comes to for this request. The `catch` block counts, logs and throws on.
  unfoldable pub list_comments :
      TenantContext → Text → ListCommentsRequest → Option JoinOutcome → Exec W ListCommentsResult
  unfolding serve
  list_comments context post_id request in_flight = do
    record' ← ports.find_published_by_id context post_id
    found ← or_throw ports post_not_found_thrown record'
    cursor ← lift (decode_cursor config.codec request.cursor)
    let query : ListCommentsQuery = record {
      post_id = post_id;
      platform = found.post.platform;
      after = cursor.after;
      limit = request.limit;
    }
    lift (validate_list_comments_query query)
    serve context found cursor query in_flight
