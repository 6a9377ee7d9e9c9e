-- ===== src/Comments/Service/Hydration/Ends.antt =====
-- How `runHydration` of src/comments/comment-service.ts ends where no other request advances the
-- snapshot of the post.
use social_comments_service.Base.{
  Bool, Bool-cases, List, [], ap, arith, false, inl, inr, length, ltb, ltb-le, refl, suc, true,
  zero, ℕ, ◌&&◌, ◌+◌, ◌∷◌, ◌≡◌, ◌≤◌, ◌⊎◌,
}
use social_comments_service.Comments.Contracts.{Ports, Provider}
use social_comments_service.Comments.Ensures.{
  Ensures, Ensures-bind, Ensures-if, Ensures-if_true, Ensures-of_Keeps, Ensures-pure, Ensures-start,
}
use social_comments_service.Comments.Invariants.{
  Keeps, Keeps-bind, Keeps-bind-lift, Keeps-catch, Keeps-if, Keeps-lift, Keeps-pure, Keeps-throw,
}
use social_comments_service.Comments.Service.Hydration.{
  HydrationOutcome, HydrationRequest, fetch_page, hydrate, hydration_loop, needs_hydration, refetch,
  run_hydration, upsert_page,
}
use social_comments_service.Shared.Exec.{ok}
use social_comments_service.Shared.Types.{
  CommentPage, ListCommentsQuery, ObservedComment, PostSnapshotState, ProviderListCommentsQuery,
  PublishedPost, TenantContext,
}

-- The ports where the state that is stored for a post is known, and this request alone saves it.
pub record SavesAlone {W : Type 0} (Stored : PostSnapshotState → W → Type 0) (ports : Ports W)
    (c : TenantContext) (post : PublishedPost) : Type 0 where
  pub save_snapshot_state :
      (next expected : PostSnapshotState)
      → Ensures
          (Stored expected)
          (λ won w. (won ≡ true) × Stored next w)
          (ports.save_snapshot_state c post.id next expected)
  pub list_by_post :
      (s : PostSnapshotState) (q : ListCommentsQuery) → Keeps (Stored s) (ports.list_by_post c q)
  pub upsert_many :
      (s : PostSnapshotState) (os : List ObservedComment)
      → Keeps (Stored s) (ports.upsert_many c os)
  pub list_page :
      (s : PostSnapshotState) (p : Provider W) (q : ProviderListCommentsQuery)
      → ports.provider_of post.platform ≡ ok p
      → Keeps (Stored s) (p.list_page q)
  pub now : (s : PostSnapshotState) → Keeps (Stored s) ports.now

module _ {W : Type 0} (Stored : PostSnapshotState → W → Type 0) (ports : Ports W)
    (c : TenantContext) (post : PublishedPost) (request : HydrationRequest) where
  -- A page of the request that has so many comments, read as the last call.
  abbrev pub Listed : ℕ → W → Type 0
  Listed returned w =
      (v : W) × (page : CommentPage) × (ports.list_by_post c request.query v ≡ (ok page, w))
      × (length page.items ≡ returned)

  -- Why a request reads no further page of the provider.
  abbrev pub HasEnough : PostSnapshotState → W → Type 0
  HasEnough s w =
      (s.exhausted ≡ true)
      ⊎ ((request.starting_run ≡ false)
          × ((returned : ℕ) × Listed returned w × (request.limit ≤ returned)))

  -- What a hydration from a state leaves: the state that it answers is stored, unless it read
  -- nothing and answers the state that it began from; and there was enough, or twenty pages were
  -- read.
  abbrev pub IsFinished : PostSnapshotState → HydrationOutcome → W → Type 0
  IsFinished from o w =
      (((o.hydrations ≡ 0) × (o.state ≡ from)) ⊎ Stored o.state w)
      × ((o.hydrations ≡ 20) ⊎ HasEnough o.state w)

  -- Before a turn of the loop.
  abbrev Turning : PostSnapshotState → ℕ → PostSnapshotState → PostSnapshotState → ℕ → W → Type 0
  Turning from hydrations state expected returned w =
      Stored expected w × (((hydrations ≡ 0) × (state ≡ from)) ⊎ Stored state w) × Listed returned w

  enough :
      (state : PostSnapshotState) (returned : ℕ) (w : W)
      → needs_hydration state request.starting_run returned request.limit ≡ false
      → Listed returned w
      → HasEnough state w
  unfolding needs_hydration
  enough state returned w h l = elim (Bool-cases state.exhausted) [
    | inl x ↦ inl x
    | inr x ↦ elim (Bool-cases request.starting_run) [
      | inl y ↦ absurd (cc (rw (needs_hydration, x, y) at h))
      | inr y ↦
          inr (y, (returned, l, ltb-le returned request.limit (rw (needs_hydration, x, y) at h)))
    ]
  ]

-- While turns are left, the count alone does not end the loop.
not_needed :
    (needed : Bool) (hydrations left : ℕ)
    → hydrations + suc left ≡ 20
    → (needed && ltb hydrations 20) ≡ false
    → needed ≡ false
not_needed needed hydrations left h e = ground (arith, h, e)

module _ {W : Type 0} {Stored : PostSnapshotState → W → Type 0} (ports : Ports W)
    (c : TenantContext) (post : PublishedPost) (alone : SavesAlone Stored ports c post) where
  upsert_page-Keeps_stored :
      (s : PostSnapshotState) (os : List ObservedComment)
      → Keeps (Stored s) (upsert_page ports c os)
  upsert_page-Keeps_stored s [] = Keeps-pure _
  upsert_page-Keeps_stored s (o ∷ os) =
      Keeps-bind _ _ (alone.upsert_many s (o ∷ os)) (λ r. Keeps-pure _)

  hydrate-Keeps_stored : (s from : PostSnapshotState) → Keeps (Stored s) (hydrate ports c post from)
  unfolding hydrate fetch_page refetch
  hydrate-Keeps_stored s from = Keeps-bind-lift _ _ λ p e. Keeps-bind _ _ (Keeps-lift _) λ u.
      Keeps-bind _ _
        (Keeps-catch _ _ (alone.list_page s p _ e)
          (λ error. Keeps-if _ _ _ (Keeps-throw error) (alone.list_page s p _ e)))
        λ page.
          Keeps-bind _ _ (upsert_page-Keeps_stored s page.items)
            λ u'. Keeps-if _ _ _ (Keeps-pure _) (Keeps-bind _ _ (alone.now s) (λ n. Keeps-pure _))

  module _ (request : HydrationRequest) where
    list_by_post-Listed :
        (s : PostSnapshotState)
        → Ensures
            (Stored s)
            (λ page w. Stored s w × Listed Stored ports c post request (length page.items) w)
            (ports.list_by_post c request.query)
    list_by_post-Listed s = record {
      leaves = λ w page p e. (
        (alone.list_by_post s request.query).kept w p,
        (w, page, ap (λ r. (r, (ports.list_by_post c request.query w).1)) e, refl),
      );
    }

    hydration_loop-finishes :
        (from : PostSnapshotState) (left hydrations : ℕ) (state expected : PostSnapshotState)
        (returned : ℕ)
        → hydrations + left ≡ 20
        → Ensures
            (Turning Stored ports c post request from hydrations state expected returned)
            (IsFinished Stored ports c post request from)
            (hydration_loop ports c post request left hydrations state expected returned)
    unfolding hydration_loop
    hydration_loop-finishes from zero hydrations state expected returned h =
        Ensures-pure _ λ w (x, y, z). (y, inl (omega arith))
    hydration_loop-finishes from (suc left) hydrations state expected returned h =
        Ensures-if _ _ _
          (λ more.
            Ensures-bind {Q = λ next w. Stored expected w} _ _
              (Ensures-start _ (λ w (x, y, z). x)
                (Ensures-of_Keeps _ (hydrate-Keeps_stored expected state)))
              λ next. Ensures-bind _ _ (alone.save_snapshot_state next expected) λ won.
                Ensures-if_true _ _ _ (
                  Ensures-bind _ _ (list_by_post-Listed next) λ page.
                    Ensures-start _ (λ w (x, y). (x, inr x, y))
                      (hydration_loop-finishes from left (hydrations + 1) next next
                        (length page.items) (omega arith))))
          (λ no_more. Ensures-pure _ λ w (x, y, z). (
            y,
            inr (
                enough Stored ports c post request state returned w
                  (not_needed _ hydrations left h no_more) z),
          ))

    -- A hydration that no other request interferes with answers the state that it has stored,
    -- unless it read nothing, and it ends only if the snapshot is complete, the page of the request
    -- is full, or twenty pages of the provider were read.
    pub run_hydration-finishes :
        (from stored : PostSnapshotState)
        → Ensures
            (Stored stored)
            (IsFinished Stored ports c post request from)
            (run_hydration ports c post from stored request)
    unfolding run_hydration
    run_hydration-finishes from stored = Ensures-bind _ _ (list_by_post-Listed stored) λ page.
        Ensures-start _ (λ w (x, y). (x, inl (refl, refl), y))
          (hydration_loop-finishes from 20 0 from stored (length page.items) refl)
