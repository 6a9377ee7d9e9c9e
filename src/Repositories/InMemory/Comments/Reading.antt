-- ===== src/Repositories/InMemory/Comments/Reading.antt =====
-- A client that follows the cursors of `listByPost` reads the whole post.
use mathlib.Core.List.{Perm}
use social_comments_service.Base.{
  List, Option, Option-cases, [], ap, inl, inr, length, none, refl, some, suc, zero, ℕ, ◌++◌, ◌<◌,
  ◌∙◌, ◌≡◌, ◌≤◌,
}
use social_comments_service.Repositories.InMemory.{Memory}
use social_comments_service.Repositories.InMemory.Comments.{
  keep_if, keyset_of, list_by_post, of_post, ordered_comments, page_of, sort_by_keyset, to_comment,
}
use social_comments_service.Repositories.InMemory.Comments.Complete.{ordered_comments-IsOrdered}
use social_comments_service.Repositories.InMemory.Comments.Keyset.{IsOrdered}
use social_comments_service.Repositories.InMemory.Comments.Pages.{next_of, walk, walk-all}
use social_comments_service.Repositories.InMemory.Comments.Sorting.{
  sort_by_keyset-Perm, sort_by_keyset-length,
}
use social_comments_service.Repositories.InMemory.Comments.Stores.{IsWellFormed}
use social_comments_service.Repositories.TenantScoped.{values}
use social_comments_service.Shared.Exec.{Exec, map_result, ok, pure, ◌>>=◌}
use social_comments_service.Shared.Types.{Comment, ListCommentsQuery, TenantContext}

-- What follows a page: the page behind its last comment, if there is one.
abbrev read_next :
    (ListCommentsQuery → Exec Memory (List Comment))
    → ListCommentsQuery
    → Option Comment
    → Exec Memory (List Comment)
read_next read q none = pure []
read_next read q (some last) = read (record q { after = some (keyset_of last) })

-- Page after page, each behind the last comment of the one before, for at most `fuel` pages.
unfoldable pub read_all : ℕ → TenantContext → ListCommentsQuery → Exec Memory (List Comment)
read_all zero c q = pure []
read_all (suc fuel) c q = do
  page ← list_by_post c q
  rest ← read_next (read_all fuel c) q (next_of page)
  pure (page.items ++ rest)

list_by_post-run :
    (c : TenantContext) (q : ListCommentsQuery) (m : Memory) (ordered : List Comment)
    → ordered_comments m c.account_id q ≡ ok ordered
    → list_by_post c q m ≡ (ok (page_of q ordered), m)
unfolding list_by_post ◌>>=◌
list_by_post-run c q m ordered h = rw (h)

read_all-walk :
    (fuel : ℕ) (c : TenantContext) (q : ListCommentsQuery) (m : Memory) (ordered : List Comment)
    → ordered_comments m c.account_id q ≡ ok ordered
    → read_all fuel c q m ≡ (ok (walk fuel q ordered), m)
unfolding walk read_all ◌>>=◌ ordered_comments
read_all-walk zero c q m ordered h = refl
read_all-walk (suc fuel) c q m ordered h =
    rw (list_by_post-run c q m ordered h) (elim (Option-cases (next_of (page_of q ordered))) [
      | inl stop ↦ rw (stop)
      | inr (last, go) ↦
          rw (go, read_all-walk fuel c (record q { after = some (keyset_of last) }) m ordered h)
    ])

-- A client that follows the cursors of a post, for more pages than there are comments and with at
-- least one comment a page, reads a permutation of the post's comments in strict keyset order and
-- leaves the memory as it is, if the rows are well formed and each is a valid comment.
pub read_all_complete :
    (fuel : ℕ) (c : TenantContext) (q : ListCommentsQuery) (m : Memory) (cs : List Comment)
    → IsWellFormed m
    → map_result (to_comment m c.account_id) (keep_if (of_post q) (values m.by_id c.account_id))
      ≡ ok cs
    → 1 ≤ q.limit
    → q.after ≡ none
    → length cs < fuel
    → (ordered : List Comment) × (read_all fuel c q m ≡ (ok ordered, m))
      × Perm ordered cs
      × IsOrdered ordered
unfolding ordered_comments
read_all_complete fuel c q m cs w h l a f =
    let ordered : List Comment = sort_by_keyset cs in
    let found : ordered_comments m c.account_id q ≡ ok ordered = rw (ordered_comments, h) in
    let strict = ordered_comments-IsOrdered m c.account_id q ordered w found in
    (
      ordered,
      read_all-walk fuel c q m ordered found
          ∙ ap (λ v. (ok v, m))
              (walk-all fuel q ordered strict l a (rw (sort_by_keyset-length cs) f)),
      sort_by_keyset-Perm cs,
      strict,
    )
