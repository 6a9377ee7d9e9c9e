-- ===== src/Repositories/InMemory.antt =====
-- src/repositories/in-memory.ts: the state of the three repositories, with the two sources that
-- they draw from, the clock and the generator of identifiers. The methods are in the modules below.
pub mod Comments
pub mod Posts
pub mod Operations
pub mod Separation
pub mod Snapshots
pub mod Tenants
pub mod Formed
use social_comments_service.Base.{ℕ, ◌+◌}
use social_comments_service.Repositories.TenantScoped.{Entries, TenantScoped, empty}
use social_comments_service.Shared.Exec.{Exec, ok}
use social_comments_service.Shared.Text.{Text}
use social_comments_service.Shared.Types.{
  ObservedComment, PostSnapshotState, PublishedPost, ReplyOperation,
}

pub record StoredComment : Type 0 where
  pub id : Text
  pub observed : ObservedComment

-- The instants that `Date.now()` and `new Date()` return one after the other, and the texts that
-- `crypto.randomUUID()` returns.
pub record Sources : Type 0 where
  pub clock : ℕ → ℕ
  pub uuids : ℕ → Text
  pub reads : ℕ
  pub draws : ℕ

pub record Memory : Type 0 where
  pub by_id : TenantScoped StoredComment
  pub by_external_id : TenantScoped Text
  pub posts : Entries PublishedPost
  pub snapshots : TenantScoped PostSnapshotState
  pub operations : TenantScoped ReplyOperation
  pub claimed_keys : TenantScoped Text
  pub sources : Sources

abbrev pub empty_memory : Sources → Entries PublishedPost → Memory
empty_memory sources posts = record {
  by_id = empty;
  by_external_id = empty;
  posts = posts;
  snapshots = empty;
  operations = empty;
  claimed_keys = empty;
  sources = sources;
}

unfoldable pub read_clock : Exec Memory ℕ
read_clock m = (
  ok (m.sources.clock m.sources.reads),
  record m { sources = record m.sources { reads = m.sources.reads + 1 } },
)

unfoldable pub random_uuid : Exec Memory Text
random_uuid m = (
  ok (m.sources.uuids m.sources.draws),
  record m { sources = record m.sources { draws = m.sources.draws + 1 } },
)
