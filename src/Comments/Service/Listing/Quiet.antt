-- ===== src/Comments/Service/Listing/Quiet.antt =====
-- Reading comments publishes nothing and releases no key.
use social_comments_service.Base.{
  Bool, List, Option, [], if◌then◌else◌, is_none, length, none, some, suc, zero, ℕ, ◌+◌, ◌∷◌,
}
use social_comments_service.Comments.Contracts.{Config, Ports, Provider}
use social_comments_service.Comments.Laws.{PortLaws, ProviderLaws}
use social_comments_service.Comments.Observation.{
  IsQuiet, IsQuiet-bind, IsQuiet-bind-lift, IsQuiet-catch, IsQuiet-if, IsQuiet-lift, IsQuiet-pure,
  IsQuiet-throw, Observation,
}
use social_comments_service.Comments.Service.Hydration.{
  HydrationRequest, JoinOutcome, empty_snapshot_state, fetch_page, hydrate, hydration_loop,
  max_hydrations_per_request, refetch, run_hydration, upsert_page,
}
use social_comments_service.Comments.Service.Listing.{
  ListCommentsRequest, advance, answer, list_comments, serve, stale, stale_since,
}
use social_comments_service.Comments.Service.Reply.Once.{or_throw-IsQuiet}
use social_comments_service.Shared.Cursor.{CommentCursor}
use social_comments_service.Shared.Errors.{Thrown}
use social_comments_service.Shared.Text.{Text}
use social_comments_service.Shared.Types.{
  CommentPage, ListCommentsQuery, ObservedComment, PostSnapshotState, PublishedPost,
  PublishedPostRecord, TenantContext,
}

module _ {W : Type 0} {v : Observation W} (ports : Ports W) (laws : PortLaws v ports) where
  refetch-IsQuiet :
      (p : Provider W) (post : PublishedPost) (e : Thrown)
      → ProviderLaws v p
      → IsQuiet v (refetch ports p post e)
  unfolding refetch fetch_page
  refetch-IsQuiet p post e l = IsQuiet-if _ _ _ (IsQuiet-throw e) (l.list_page _)

  upsert_page-IsQuiet :
      (c : TenantContext) (os : List ObservedComment) → IsQuiet v (upsert_page ports c os)
  upsert_page-IsQuiet c [] = IsQuiet-pure _
  upsert_page-IsQuiet c (o ∷ os) =
      IsQuiet-bind _ _ (laws.upsert_many c (o ∷ os)) (λ r. IsQuiet-pure _)

  hydrate-IsQuiet :
      (c : TenantContext) (post : PublishedPost) (s : PostSnapshotState)
      → IsQuiet v (hydrate ports c post s)
  unfolding hydrate fetch_page
  hydrate-IsQuiet c post s = IsQuiet-bind-lift _ _ λ p e.
      let l = laws.provider_of post.platform p e in
      IsQuiet-bind _ _ (IsQuiet-lift _) λ u.
        IsQuiet-bind _ _
          (IsQuiet-catch _ _ (l.list_page _) (λ error. refetch-IsQuiet p post error l))
          λ page. IsQuiet-bind _ _ (upsert_page-IsQuiet c page.items) λ u'.
            IsQuiet-if _ _ _ (IsQuiet-pure _) (IsQuiet-bind _ _ laws.now (λ n. IsQuiet-pure _))

  hydration_loop-IsQuiet :
      (c : TenantContext) (post : PublishedPost) (request : HydrationRequest) (left hydrations : ℕ)
      (state expected : PostSnapshotState) (returned : ℕ)
      → IsQuiet v (hydration_loop ports c post request left hydrations state expected returned)
  unfolding hydration_loop
  hydration_loop-IsQuiet c post request zero hydrations state expected returned = IsQuiet-pure _
  hydration_loop-IsQuiet c post request (suc left) hydrations state expected returned =
      IsQuiet-if _ _ _
        (IsQuiet-bind _ _ (hydrate-IsQuiet c post state) λ next.
          IsQuiet-bind _ _ (laws.save_snapshot_state c post.id next expected) λ won.
            IsQuiet-if _ _ _
              (IsQuiet-bind _ _ (laws.list_by_post c request.query) λ page.
                hydration_loop-IsQuiet c post request left (hydrations + 1) next next
                  (length page.items))
              (IsQuiet-bind _ _ (laws.find_published_by_id c post.id) λ current. IsQuiet-pure _))
        (IsQuiet-pure _)

  module _ (config : Config) (c : TenantContext) where
    advance-IsQuiet :
        (post : PublishedPost) (state stored : PostSnapshotState) (request : HydrationRequest)
        (in_flight : Option JoinOutcome)
        → IsQuiet v (advance ports config c post state stored request in_flight)
    unfolding advance run_hydration
    advance-IsQuiet post state stored request (some running) = IsQuiet-pure _
    advance-IsQuiet post state stored request none =
        IsQuiet-bind _ _
          (IsQuiet-bind _ _ (laws.list_by_post c request.query) λ page.
            hydration_loop-IsQuiet c post request max_hydrations_per_request 0 state stored
              (length page.items))
          λ outcome. IsQuiet-pure _

    answer-IsQuiet :
        (cursor : CommentCursor) (b : Bool) (s : PostSnapshotState) (page : CommentPage)
        → IsQuiet v (answer ports config cursor b s page)
    unfolding answer
    answer-IsQuiet cursor b s page = IsQuiet-bind _ _ (IsQuiet-lift _) λ u. IsQuiet-pure _

    stale_since-IsQuiet : (t : Option Text) → IsQuiet v (stale_since ports config t)
    stale_since-IsQuiet none = IsQuiet-pure _
    stale_since-IsQuiet (some t) = IsQuiet-bind _ _ laws.now λ n. IsQuiet-pure _

    serve-IsQuiet :
        (found : PublishedPostRecord) (cursor : CommentCursor) (q : ListCommentsQuery)
        (in_flight : Option JoinOutcome)
        → IsQuiet v (serve ports config c found cursor q in_flight)
    unfolding serve stale
    serve-IsQuiet found cursor q in_flight =
        IsQuiet-bind _ _ (IsQuiet-if _ _ _ (IsQuiet-pure _) (stale_since-IsQuiet _)) λ old.
          IsQuiet-bind _ _ (laws.list_by_post c q) λ page.
            IsQuiet-if _ _ _
              (IsQuiet-bind _ _ (advance-IsQuiet _ _ _ _ in_flight) λ state.
                IsQuiet-bind _ _ (laws.list_by_post c q)
                  λ page'. answer-IsQuiet cursor (is_none cursor.after) state page')
              (answer-IsQuiet cursor (is_none cursor.after)
                (if old then empty_snapshot_state else found.snapshot) page)

    -- Over ports with the laws, a request for comments publishes no reply and releases no
    -- idempotency key, whatever it is answered with and whether it reads the provider itself or
    -- joins a request that does.
    pub list_comments-IsQuiet :
        (post_id : Text) (request : ListCommentsRequest) (in_flight : Option JoinOutcome)
        → IsQuiet v (list_comments ports config c post_id request in_flight)
    unfolding list_comments
    list_comments-IsQuiet post_id request in_flight =
        IsQuiet-bind _ _ (laws.find_published_by_id c post_id) λ r.
          IsQuiet-bind _ _ (or_throw-IsQuiet ports laws _ r) λ found.
            IsQuiet-bind _ _ (IsQuiet-lift _) λ cursor.
              IsQuiet-bind _ _ (IsQuiet-lift _) λ u. serve-IsQuiet found cursor _ in_flight
