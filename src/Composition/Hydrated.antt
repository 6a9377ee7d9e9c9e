-- ===== src/Composition/Hydrated.antt =====
-- A hydration over the in-memory composition, from the snapshot that is stored.
use social_comments_service.Base.{Option, ◌≡◌}
use social_comments_service.Comments.Contracts.{Provider}
use social_comments_service.Comments.Service.Hydration.{
  HydrationOutcome, HydrationRequest, run_hydration,
}
use social_comments_service.Comments.Service.Hydration.Ends.{
  IsFinished, SavesAlone, run_hydration-finishes,
}
use social_comments_service.Composition.{World, in_memory_ports, on_memory}
use social_comments_service.Composition.Keeping.{
  on_memory-Ensures, on_memory-Keeps, registered-ProviderKeeps,
}
use social_comments_service.Repositories.InMemory.Snapshots.{
  HasSnapshot, list_by_post-HasSnapshot, read_clock-HasSnapshot, save_snapshot_state-saves,
  upsert_many-HasSnapshot,
}
use social_comments_service.Shared.Exec.{ok}
use social_comments_service.Shared.Types.{Platform, PostSnapshotState, PublishedPost, TenantContext}

module _ {S : Type 0} (providers : Platform → Option (Provider S)) (c : TenantContext)
    (post : PublishedPost) where
  -- The world that stores a state for the post.
  abbrev pub Stores : PostSnapshotState → World S → Type 0
  Stores s w = HasSnapshot c post.id s w.memory

  pub in_memory-SavesAlone : SavesAlone Stores (in_memory_ports providers) c post
  unfolding on_memory
  in_memory-SavesAlone = record {
    save_snapshot_state =
        λ next expected. on_memory-Ensures _ (save_snapshot_state-saves c post.id next expected);
    list_by_post = λ s q. on_memory-Keeps _ (list_by_post-HasSnapshot c post.id s q);
    upsert_many = λ s os. on_memory-Keeps _ (upsert_many-HasSnapshot c post.id s os);
    list_page = λ s p q h.
        (registered-ProviderKeeps providers (HasSnapshot c post.id s) post.platform p h).list_page
          q;
    now = λ s. on_memory-Keeps _ (read_clock-HasSnapshot c post.id s);
  }

  -- Over the in-memory composition, a hydration that starts from the stored snapshot and returns
  -- has stored the state that it answers, unless it read nothing; and the snapshot is complete, or
  -- the page of the request is full and no run was started, or twenty pages were read.
  pub hydration_ends :
      (request : HydrationRequest) (from stored : PostSnapshotState) (w : World S)
      (o : HydrationOutcome)
      → Stores stored w
      → (run_hydration (in_memory_ports providers) c post from stored request w).0 ≡ ok o
      → IsFinished Stores
          (in_memory_ports providers)
          c
          post
          request
          from
          o
          (run_hydration (in_memory_ports providers) c post from stored request w).1
  hydration_ends request from stored w o h e =
      (run_hydration-finishes (in_memory_ports providers) c post in_memory-SavesAlone request from
          stored).leaves
        w o h e
