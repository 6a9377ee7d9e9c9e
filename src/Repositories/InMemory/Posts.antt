-- ===== src/Repositories/InMemory/Posts.antt =====
-- `InMemoryPostRepository` of src/repositories/in-memory.ts.
use mathlib.Core.Option
use social_comments_service.Base.{
  Bool, Option, false, if◌then◌else◌, none, not, or_else, some, true, ◌&&◌,
}
use social_comments_service.Repositories.InMemory.{Memory}
use social_comments_service.Repositories.TenantScoped.{get, lookup, set}
use social_comments_service.Shared.Exec.{Exec, ok}
use social_comments_service.Shared.Text.{Text, text_eq}
use social_comments_service.Shared.Types.{PostSnapshotState, PublishedPostRecord, TenantContext}

abbrev pub empty_snapshot : PostSnapshotState
empty_snapshot = record { provider_cursor = none; exhausted = false; completed_at = none }

abbrev pub snapshot_of : Memory → Text → Text → PostSnapshotState
snapshot_of m account_id post_id = or_else (get m.snapshots account_id post_id) empty_snapshot

unfoldable pub published_record : Memory → Text → Text → Option PublishedPostRecord
published_record m account_id post_id = Option.bind (lookup post_id m.posts) λ post.
    if text_eq post.account_id account_id
    then some (record { post = post; snapshot = snapshot_of m account_id post_id })
    else none

unfoldable pub find_published_by_id :
    TenantContext → Text → Exec Memory (Option PublishedPostRecord)
find_published_by_id context post_id m = (ok (published_record m context.account_id post_id), m)

-- `===` on a nullable text.
unfoldable pub nullable_eq : Option Text → Option Text → Bool
nullable_eq none none = true
nullable_eq (some s) (some t) = text_eq s t
nullable_eq _ _ = false

abbrev pub bool_eq : Bool → Bool → Bool
bool_eq true b = b
bool_eq false b = not b

unfoldable pub same_position : PostSnapshotState → PostSnapshotState → Bool
same_position a b =
    nullable_eq a.provider_cursor b.provider_cursor && bool_eq a.exhausted b.exhausted

unfoldable pub save_snapshot_state :
    TenantContext → Text → PostSnapshotState → PostSnapshotState → Exec Memory Bool
save_snapshot_state context post_id state expected m =
    if not (same_position (snapshot_of m context.account_id post_id) expected)
    then (ok false, m)
    else (ok true, record m { snapshots = set m.snapshots context.account_id post_id state })
