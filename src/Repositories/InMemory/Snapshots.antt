-- ===== src/Repositories/InMemory/Snapshots.antt =====
-- The snapshot of a post in src/repositories/in-memory.ts: what leaves it, and that it is saved over
-- the state that is stored.
use social_comments_service.Base.{Bool, List, Option, [], false, none, refl, some, true, ◌∷◌, ◌≡◌}
use social_comments_service.Comments.Ensures.{Ensures}
use social_comments_service.Comments.Invariants.{Keeps, Keeps-bind, Keeps-pure}
use social_comments_service.Repositories.InMemory.{Memory, random_uuid, read_clock}
use social_comments_service.Repositories.InMemory.Comments.{
  id_or_uuid, list_by_post, store, store_all, upsert_many,
}
use social_comments_service.Repositories.InMemory.Posts.{
  bool_eq, nullable_eq, same_position, save_snapshot_state, snapshot_of,
}
use social_comments_service.Repositories.TenantScoped.Laws.{get-set_self}
use social_comments_service.Shared.Exec.{Result, gets}
use social_comments_service.Shared.Text.{Text}
use social_comments_service.Shared.Text.Order.{text_eq_refl}
use social_comments_service.Shared.Types.{
  ListCommentsQuery, ObservedComment, PostSnapshotState, TenantContext,
}

nullable_eq_refl : (t : Option Text) → nullable_eq t t ≡ true
unfolding nullable_eq
nullable_eq_refl none = refl
nullable_eq_refl (some s) = text_eq_refl s

bool_eq_refl : (b : Bool) → bool_eq b b ≡ true
bool_eq_refl true = refl
bool_eq_refl false = refl

same_position_refl : (s : PostSnapshotState) → same_position s s ≡ true
unfolding same_position
same_position_refl s = rw (nullable_eq_refl s.provider_cursor, bool_eq_refl s.exhausted) refl

module _ (c : TenantContext) (id : Text) where
  abbrev pub HasSnapshot : PostSnapshotState → Memory → Type 0
  HasSnapshot s m = snapshot_of m c.account_id id ≡ s

  -- A state is saved over the one that is stored.
  pub save_snapshot_state-saves :
      (next expected : PostSnapshotState)
      → Ensures
          (HasSnapshot expected)
          (λ saved m. (saved ≡ true) × HasSnapshot next m)
          (save_snapshot_state c id next expected)
  unfolding save_snapshot_state
  save_snapshot_state-saves next expected = record {
    leaves = λ m saved h e.
        let alike : same_position (snapshot_of m c.account_id id) expected ≡ true =
          rw h (same_position_refl expected) in
        let yes : saved ≡ true = cc (rw (save_snapshot_state, alike) at e) in
        (yes, rw (save_snapshot_state, alike, get-set_self m.snapshots c.account_id id next) refl);
  }

  module _ (s : PostSnapshotState) where
    pub read-HasSnapshot :
        {A : Type 0} (f : Memory → Result A) → Keeps (HasSnapshot s) (λ m. (f m, m))
    read-HasSnapshot f = record { kept = λ m h. h }

    pub read_clock-HasSnapshot : Keeps (HasSnapshot s) read_clock
    unfolding read_clock
    read_clock-HasSnapshot = record { kept = λ m h. h }

    id_or_uuid-HasSnapshot : (known : Option Text) → Keeps (HasSnapshot s) (id_or_uuid known)
    unfolding random_uuid
    id_or_uuid-HasSnapshot none = record { kept = λ m h. h }
    id_or_uuid-HasSnapshot (some i) = Keeps-pure i

    store-HasSnapshot : (a : Text) (o : ObservedComment) → Keeps (HasSnapshot s) (store a o)
    unfolding store gets
    store-HasSnapshot a o =
        Keeps-bind _ _ (read-HasSnapshot _)
          λ known. Keeps-bind _ _ (id_or_uuid-HasSnapshot known) λ i. record { kept = λ m h. h }

    store_all-HasSnapshot :
        (a : Text) (os : List ObservedComment) → Keeps (HasSnapshot s) (store_all a os)
    unfolding store_all
    store_all-HasSnapshot a [] = Keeps-pure _
    store_all-HasSnapshot a (o ∷ os) =
        Keeps-bind _ _ (store-HasSnapshot a o)
          λ x. Keeps-bind _ _ (store_all-HasSnapshot a os) λ rest. Keeps-pure _

    pub upsert_many-HasSnapshot :
        (os : List ObservedComment) → Keeps (HasSnapshot s) (upsert_many c os)
    unfolding upsert_many
    upsert_many-HasSnapshot os =
        Keeps-bind _ _ (store_all-HasSnapshot c.account_id os) λ x. read-HasSnapshot _

    pub list_by_post-HasSnapshot :
        (q : ListCommentsQuery) → Keeps (HasSnapshot s) (list_by_post c q)
    unfolding list_by_post
    list_by_post-HasSnapshot q = Keeps-bind _ _ (read-HasSnapshot _) λ o. Keeps-pure _
