-- ===== src/Comments/Invariants/Listing.antt =====
-- The list path keeps what its ports keep.
use social_comments_service.Base.{
  Bool, List, Option, [], if◌then◌else◌, is_none, length, none, some, suc, zero, ℕ, ◌+◌, ◌∷◌,
}
use social_comments_service.Comments.Contracts.{Config, Ports, Provider}
use social_comments_service.Comments.Invariants.{
  Keeps, Keeps-bind, Keeps-bind-lift, Keeps-catch, Keeps-if, Keeps-lift, Keeps-pure, Keeps-throw,
  PortsKeep, ProviderKeeps,
}
use social_comments_service.Comments.Invariants.Reply.{or_throw-Keeps}
use social_comments_service.Comments.Service.Hydration.{
  HydrationRequest, JoinOutcome, empty_snapshot_state, fetch_page, hydrate, hydration_loop,
  max_hydrations_per_request, refetch, run_hydration, upsert_page,
}
use social_comments_service.Comments.Service.Listing.{
  ListCommentsRequest, advance, answer, list_comments, serve, stale, stale_since,
}
use social_comments_service.Shared.Cursor.{CommentCursor}
use social_comments_service.Shared.Errors.{Thrown}
use social_comments_service.Shared.Text.{Text}
use social_comments_service.Shared.Types.{
  CommentPage, ListCommentsQuery, ObservedComment, PostSnapshotState, PublishedPost,
  PublishedPostRecord, TenantContext,
}

module _ {W : Type 0} {P : W → Type 0} (ports : Ports W) (c : TenantContext)
    (laws : PortsKeep P ports c) where
  refetch-Keeps :
      (p : Provider W) (post : PublishedPost) (e : Thrown)
      → ProviderKeeps P p
      → Keeps P (refetch ports p post e)
  unfolding refetch fetch_page
  refetch-Keeps p post e l = Keeps-if _ _ _ (Keeps-throw e) (l.list_page _)

  upsert_page-Keeps : (os : List ObservedComment) → Keeps P (upsert_page ports c os)
  upsert_page-Keeps [] = Keeps-pure _
  upsert_page-Keeps (o ∷ os) = Keeps-bind _ _ (laws.upsert_many (o ∷ os)) (λ r. Keeps-pure _)

  hydrate-Keeps : (post : PublishedPost) (s : PostSnapshotState) → Keeps P (hydrate ports c post s)
  unfolding hydrate fetch_page
  hydrate-Keeps post s = Keeps-bind-lift _ _ λ p e.
      let l = laws.provider_of post.platform p e in
      Keeps-bind _ _ (Keeps-lift _) λ u.
        Keeps-bind _ _ (Keeps-catch _ _ (l.list_page _) (λ error. refetch-Keeps p post error l))
          λ page.
            Keeps-bind _ _ (upsert_page-Keeps page.items)
              λ u'. Keeps-if _ _ _ (Keeps-pure _) (Keeps-bind _ _ laws.now (λ n. Keeps-pure _))

  hydration_loop-Keeps :
      (post : PublishedPost) (request : HydrationRequest) (left hydrations : ℕ)
      (state expected : PostSnapshotState) (returned : ℕ)
      → Keeps P (hydration_loop ports c post request left hydrations state expected returned)
  unfolding hydration_loop
  hydration_loop-Keeps post request zero hydrations state expected returned = Keeps-pure _
  hydration_loop-Keeps post request (suc left) hydrations state expected returned =
      Keeps-if _ _ _
        (Keeps-bind _ _ (hydrate-Keeps post state) λ next.
          Keeps-bind _ _ (laws.save_snapshot_state post.id next expected) λ won.
            Keeps-if _ _ _
              (Keeps-bind _ _ (laws.list_by_post request.query) λ page.
                hydration_loop-Keeps post request left (hydrations + 1) next next
                  (length page.items))
              (Keeps-bind _ _ (laws.find_published_by_id post.id) λ current. Keeps-pure _))
        (Keeps-pure _)

  module _ (config : Config) where
    advance-Keeps :
        (post : PublishedPost) (state stored : PostSnapshotState) (request : HydrationRequest)
        (in_flight : Option JoinOutcome)
        → Keeps P (advance ports config c post state stored request in_flight)
    unfolding advance run_hydration
    advance-Keeps post state stored request (some running) = Keeps-pure _
    advance-Keeps post state stored request none =
        Keeps-bind _ _
          (Keeps-bind _ _ (laws.list_by_post request.query) λ page.
            hydration_loop-Keeps post request max_hydrations_per_request 0 state stored
              (length page.items))
          λ outcome. Keeps-pure _

    answer-Keeps :
        (cursor : CommentCursor) (b : Bool) (s : PostSnapshotState) (page : CommentPage)
        → Keeps P (answer ports config cursor b s page)
    unfolding answer
    answer-Keeps cursor b s page = Keeps-bind _ _ (Keeps-lift _) λ u. Keeps-pure _

    stale_since-Keeps : (t : Option Text) → Keeps P (stale_since ports config t)
    stale_since-Keeps none = Keeps-pure _
    stale_since-Keeps (some t) = Keeps-bind _ _ laws.now λ n. Keeps-pure _

    serve-Keeps :
        (found : PublishedPostRecord) (cursor : CommentCursor) (q : ListCommentsQuery)
        (in_flight : Option JoinOutcome)
        → Keeps P (serve ports config c found cursor q in_flight)
    unfolding serve stale
    serve-Keeps found cursor q in_flight =
        Keeps-bind _ _ (Keeps-if _ _ _ (Keeps-pure _) (stale_since-Keeps _)) λ old.
          Keeps-bind _ _ (laws.list_by_post q) λ page.
            Keeps-if _ _ _
              (Keeps-bind _ _ (advance-Keeps _ _ _ _ in_flight) λ state.
                Keeps-bind _ _ (laws.list_by_post q)
                  λ page'. answer-Keeps cursor (is_none cursor.after) state page')
              (answer-Keeps cursor (is_none cursor.after)
                (if old then empty_snapshot_state else found.snapshot) page)

    -- Whatever the ports keep in a tenant's context, a request of the tenant for comments keeps, on
    -- every path, errors included.
    pub list_comments-Keeps :
        (post_id : Text) (request : ListCommentsRequest) (in_flight : Option JoinOutcome)
        → Keeps P (list_comments ports config c post_id request in_flight)
    unfolding list_comments
    list_comments-Keeps post_id request in_flight =
        Keeps-bind _ _ (laws.find_published_by_id post_id) λ r.
          Keeps-bind _ _ (or_throw-Keeps ports c laws _ r) λ found.
            Keeps-bind _ _ (Keeps-lift _)
              λ cursor. Keeps-bind _ _ (Keeps-lift _) λ u. serve-Keeps found cursor _ in_flight
