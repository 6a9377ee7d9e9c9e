-- ===== src/Comments/Service/Hydration/Bounds.antt =====
-- How much of a provider one request of src/comments/comment-service.ts reads.
use social_comments_service.Base.{
  Bool, List, [], ap, arith, false, fun_ext, if◌then◌else◌, length, ltb, not, refl, subst, suc,
  true, zero, ℕ, ◌&&◌, ◌*◌, ◌+◌, ◌-◌, ◌<◌, ◌∷◌, ◌≡◌, ◌≤◌,
}
use social_comments_service.Comments.Contracts.{Ports, Provider}
use social_comments_service.Comments.Service.Hydration.{
  HydrationRequest, fetch_page, hydrate, hydration_loop, hydration_turn, is_cursor_rejected,
  needs_hydration, refetch, run_hydration, upsert_page,
}
use social_comments_service.Comments.Service.Hydration.Pages.{
  Asks, Asks-after, Asks-asking, Asks-beside, Asks-bind, Asks-bind-lift, Asks-catch, Asks-if,
  Asks-more, Asks-pure, Asks-throw, paged_ports, paged_result,
}
use social_comments_service.Shared.Exec.{Result, err, lift, ok, ok_injective, pure}
use social_comments_service.Shared.Types.{
  ObservedComment, PostSnapshotState, ProviderListCommentsQuery, PublishedPost, TenantContext,
}

turns_left :
    (needed : Bool) (hydrations : ℕ) → (needed && ltb hydrations 20) ≡ true → hydrations < 20
turns_left needed hydrations h = ground (arith, h)

last_turn :
    (needed : Bool) (hydrations : ℕ) → 20 ≤ hydrations → (needed && ltb hydrations 20) ≡ false
last_turn needed hydrations h = ground (arith, h)

module _ {W : Type 0} (ports : Ports W) (c : TenantContext) (post : PublishedPost) where
  paged_page :
      (r : Result (Provider W)) (p : Provider (W × ℕ))
      → paged_result r ≡ ok p
      → (q : ProviderListCommentsQuery) → Asks 1 (p.list_page q)
  paged_page (ok p) x e q = subst (λ y. Asks 1 (y.list_page q)) (ok_injective _ _ e) (Asks-asking _)
  paged_page (err f) x e q = absurd (cc e)

  Asks-lift : {A : Type 0} (r : Result A) → Asks {W = W} 0 (lift r)
  unfolding lift
  Asks-lift r = record { at_most = λ w. omega arith }

  upsert_page-Asks : (os : List ObservedComment) → Asks 0 (upsert_page (paged_ports ports) c os)
  upsert_page-Asks [] = Asks-pure _
  upsert_page-Asks (o ∷ os) = Asks-bind 0 0 _ _ (Asks-beside _) λ r. Asks-pure _

  -- A hydration asks for a page, and for another one if its cursor is rejected.
  hydrate-Asks : (s : PostSnapshotState) → Asks 2 (hydrate (paged_ports ports) c post s)
  unfolding hydrate fetch_page refetch
  hydrate-Asks s = Asks-bind-lift 2 _ _ λ p e.
      let page = paged_page (ports.provider_of post.platform) p e in
      Asks-bind 0 2 _ _ (Asks-lift _) λ u.
        Asks-bind 2 0 _ _
          (Asks-catch 1 1 _ _ (page _) λ error.
            Asks-if 1 (not (is_cursor_rejected error)) _ _
              (λ x. Asks-more 0 1 _ (omega arith) (Asks-throw error)) (λ x. page _))
          λ answer. Asks-bind 0 0 _ _ (upsert_page-Asks answer.items) λ u'.
            Asks-if 0 answer.has_more _ _ (λ x. Asks-pure _)
              (λ x. Asks-bind 0 0 _ _ (Asks-beside _) λ n. Asks-pure _)

  -- With any number of turns.
  hydration_loop-Asks :
      (request : HydrationRequest) (left hydrations : ℕ) (state expected : PostSnapshotState)
      (returned : ℕ)
      → Asks (2 * (20 - hydrations)) (
          hydration_loop (paged_ports ports) c post request left hydrations state expected returned)
  unfolding hydration_loop
  hydration_loop-Asks request zero hydrations state expected returned =
      Asks-more 0 _ _ (omega arith) (Asks-pure _)
  hydration_loop-Asks request (suc left) hydrations state expected returned =
      Asks-if _
        (needs_hydration state request.starting_run returned request.limit && ltb hydrations 20) _ _
        (λ on.
          let k = 2 * (20 - (hydrations + 1)) in
          let room = turns_left _ hydrations on in
          Asks-more (2 + k) _ _ (omega (arith, room)) (
            Asks-bind 2 k _ _ (hydrate-Asks state) λ next. Asks-after k _ _ (Asks-beside _) λ won.
              Asks-if k won _ _
                (λ x. Asks-after k _ _ (Asks-beside _) λ page.
                  hydration_loop-Asks request left (hydrations + 1) next next (length page.items))
                (λ x.
                  Asks-after k _ _ (Asks-beside _)
                    λ current. Asks-more 0 k _ (omega arith) (Asks-pure _))))
        (λ off. Asks-more 0 _ _ (omega arith) (Asks-pure _))

  -- Turns that are left after twenty hydrations are not used.
  hydration_loop-same :
      (request : HydrationRequest) (left more hydrations : ℕ) (state expected : PostSnapshotState)
      (returned : ℕ)
      → 20 ≤ hydrations + left
      → hydration_loop ports c post request (left + more) hydrations state expected returned
        ≡ hydration_loop ports c post request left hydrations state expected returned
  unfolding hydration_loop
  hydration_loop-same request zero zero hydrations state expected returned h = refl
  hydration_loop-same request zero (suc more) hydrations state expected returned h =
      let turns : 0 + suc more ≡ suc more = omega arith in
      let last : (needs_hydration state request.starting_run returned request.limit
            && ltb hydrations 20)
          ≡ false =
        last_turn _ hydrations (omega (arith, h)) in
      rw (turns, last) refl
  hydration_loop-same request (suc left) more hydrations state expected returned h =
      let turns : suc left + more ≡ suc (left + more) = omega arith in
      rw turns (
        ap
          (λ again.
            if needs_hydration state request.starting_run returned request.limit
              && ltb hydrations 20
            then hydration_turn ports c post request hydrations state expected again
            else pure (record { state = state; hydrations = hydrations }))
          (fun_ext λ next. fun_ext λ found.
            hydration_loop-same request left more (hydrations + 1) next next found
              (omega (arith, h))))

  -- One request asks a provider for forty pages at most, two for each of twenty hydrations, on every
  -- path, errors included, whatever the provider and the repositories answer; and the loop ends: with
  -- any more turns than twenty it would do the same.
  pub run_hydration-bound :
      (request : HydrationRequest) (from stored : PostSnapshotState) (w : W × ℕ) (more returned : ℕ)
      → ((run_hydration (paged_ports ports) c post from stored request w).1.1 ≤ w.1 + 40)
        × (hydration_loop ports c post request (20 + more) 0 from stored returned
            ≡ hydration_loop ports c post request 20 0 from stored returned)
  unfolding run_hydration
  run_hydration-bound request from stored w more returned = (
    (Asks-bind 0 40 _ _ (Asks-beside _)
          λ page. hydration_loop-Asks request 20 0 from stored (length page.items)).at_most
        w,
    hydration_loop-same request 20 more 0 from stored returned (omega arith),
  )
