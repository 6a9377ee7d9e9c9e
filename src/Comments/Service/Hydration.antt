-- ===== src/Comments/Service/Hydration.antt =====
-- The reading of provider pages into the snapshot, in src/comments/comment-service.ts: `hydrate`,
-- `fetchPage`, `needsHydration`, `runHydration` and `joinHydration`.
pub mod Pages
pub mod Bounds
pub mod Ends
use social_comments_service.Base.{
  Bool, List, Option, [], false, if◌then◌else◌, length, ltb, none, not, some, suc, true, zero, ℕ,
  ◌&&◌, ◌+◌, ◌||◌, ◌∷◌,
}
use social_comments_service.Comments.Contracts.{Ports, Provider, require_capability}
use social_comments_service.Shared.Date.{to_iso_string}
use social_comments_service.Shared.Errors.{Thrown, provider_cursor_rejected_error, service}
use social_comments_service.Shared.Exec.{Exec, catch, lift, pure, throw, ◌>>=◌, ◌>>◌}
use social_comments_service.Shared.Text.{Text}
use social_comments_service.Shared.Types.{
  ListCommentsQuery, ObservedComment, PostSnapshotState, ProviderCapability, ProviderCommentPage,
  PublishedPost, PublishedPostRecord, TenantContext,
}

abbrev pub max_hydrations_per_request : ℕ
max_hydrations_per_request = 20

abbrev pub provider_page_limit : ℕ
provider_page_limit = 100

-- `emptySnapshotState`
abbrev pub empty_snapshot_state : PostSnapshotState
empty_snapshot_state = record { provider_cursor = none; exhausted = false; completed_at = none }

-- `needsHydration`
unfoldable pub needs_hydration : PostSnapshotState → Bool → ℕ → ℕ → Bool
needs_hydration state starting_run returned limit =
    not state.exhausted && (starting_run || ltb returned limit)

-- `error instanceof ProviderCursorRejectedError`
abbrev pub is_cursor_rejected : Thrown → Bool
is_cursor_rejected (service e) = elim e.class [ provider_cursor_rejected_error ↦ true | _ ↦ false ]
is_cursor_rejected _ = false

-- What the first reader's hydration gives a second one that waits for it.
pub data JoinOutcome : Type 0 where
  hydrated : PostSnapshotState → JoinOutcome
  originator_failed wait_elapsed : JoinOutcome

-- `joinHydration`: the race of the first reader's promise and the timer.
unfoldable pub join_hydration : JoinOutcome → PostSnapshotState → PostSnapshotState
join_hydration (hydrated state) fallback = state
join_hydration originator_failed fallback = fallback
join_hydration wait_elapsed fallback = fallback

-- The part of a request that the loop reads.
pub record HydrationRequest : Type 0 where
  pub starting_run : Bool
  pub limit : ℕ
  pub query : ListCommentsQuery

pub record HydrationOutcome : Type 0 where
  pub state : PostSnapshotState
  pub hydrations : ℕ

module _ {W : Type 0} (ports : Ports W) where
  unfoldable pub fetch_page : Provider W → PublishedPost → Option Text → Exec W ProviderCommentPage
  fetch_page provider post provider_cursor = provider.list_page (record {
    post = post;
    connection = post.connection;
    provider_cursor = provider_cursor;
    limit = provider_page_limit;
  })

  -- The provider refused the stored continuation: read from the start.
  unfoldable pub refetch : Provider W → PublishedPost → Thrown → Exec W ProviderCommentPage
  unfolding fetch_page
  refetch provider post error =
      if not (is_cursor_rejected error) then throw error else fetch_page provider post none

  abbrev pub upsert_page : TenantContext → List ObservedComment → Exec W (Unit {0})
  upsert_page context [] = pure tt
  upsert_page context (o ∷ os) = do ports.upsert_many context (o ∷ os); pure tt

  unfoldable pub hydrate :
      TenantContext → PublishedPost → PostSnapshotState → Exec W PostSnapshotState
  unfolding fetch_page refetch
  hydrate context post state = do
    provider ← lift (ports.provider_of post.platform)
    lift (require_capability provider ProviderCapability.list_comments)
    page ← catch (fetch_page provider post state.provider_cursor) (refetch provider post)
    upsert_page context page.items
    if page.has_more
        then pure (record {
          provider_cursor = page.next_provider_cursor;
          exhausted = false;
          completed_at = none;
        })
        else do
          now ← ports.now
          pure (record {
            provider_cursor = none;
            exhausted = true;
            completed_at = some (to_iso_string now);
          })

  abbrev pub snapshot_or : PostSnapshotState → Option PublishedPostRecord → PostSnapshotState
  snapshot_or next none = next
  snapshot_or next (some r) = r.snapshot

  -- A turn of the loop of `runHydration`: one hydration, and what follows it if its state is saved.
  abbrev pub hydration_turn :
      TenantContext
      → PublishedPost
      → HydrationRequest
      → ℕ
      → PostSnapshotState
      → PostSnapshotState
      → (PostSnapshotState → ℕ → Exec W HydrationOutcome)
      → Exec W HydrationOutcome
  hydration_turn context post request hydrations state expected again = do
    next ← hydrate context post state
    won ← ports.save_snapshot_state context post.id next expected
    if won
        then (do page ← ports.list_by_post context request.query; again next (length page.items))
        else (do
          current ← ports.find_published_by_id context post.id
          pure (record { state = snapshot_or next current; hydrations = hydrations + 1 }))

  -- The loop of `runHydration`, in at most so many turns.
  unfoldable pub hydration_loop :
      TenantContext
      → PublishedPost
      → HydrationRequest
      → ℕ
      → ℕ
      → PostSnapshotState
      → PostSnapshotState
      → ℕ
      → Exec W HydrationOutcome
  hydration_loop context post request zero hydrations state expected returned =
      pure (record { state = state; hydrations = hydrations })
  hydration_loop context post request (suc left) hydrations state expected returned =
      let turn =
        hydration_turn context post request hydrations state expected
          (λ next. hydration_loop context post request left (hydrations + 1) next next) in
      if needs_hydration state request.starting_run returned request.limit
        && ltb hydrations max_hydrations_per_request
      then turn
      else pure (record { state = state; hydrations = hydrations })

  unfoldable pub run_hydration :
      TenantContext
      → PublishedPost
      → PostSnapshotState
      → PostSnapshotState
      → HydrationRequest
      → Exec W HydrationOutcome
  unfolding hydration_loop
  run_hydration context post from stored request = do
    page ← ports.list_by_post context request.query
    hydration_loop context post request max_hydrations_per_request 0 from stored (length page.items)
