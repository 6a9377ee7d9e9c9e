-- ===== src/Repositories/InMemory/Comments/Limits.antt =====
-- Reading a page with `listByPost` of src/repositories/in-memory.ts.
use social_comments_service.Base.{
  List, Option, arith, drop, length, length-take, none, some, ℕ, ◌≡◌, ◌≤◌,
}
use social_comments_service.Comments.Invariants.{Keeps, Keeps-bind, Keeps-pure}
use social_comments_service.Comments.Returns.{Returns, Returns-bind, Returns-pure}
use social_comments_service.Repositories.InMemory.{Memory}
use social_comments_service.Repositories.InMemory.Comments.{
  list_by_post, page_from, page_of, start_index,
}
use social_comments_service.Shared.Types.{Comment, ListCommentsQuery, TenantContext}

page_from-limit :
    (q : ListCommentsQuery) (ordered : List Comment) (start : Option ℕ)
    → length (page_from q.limit ordered start).items ≤ q.limit
page_from-limit q ordered none = omega arith
page_from-limit q ordered (some s) = omega (arith, length-take q.limit (drop s ordered))

pub list_by_post-limit :
    (c : TenantContext) (q : ListCommentsQuery)
    → Returns (λ page. length page.items ≤ q.limit) (list_by_post c q)
unfolding list_by_post page_of
list_by_post-limit c q =
    Returns-bind _ _
      λ ordered. Returns-pure _ (page_from-limit q ordered (start_index q.after ordered))

-- Reading a page changes nothing, so it is there to be read again.
pub list_by_post-same :
    (m : Memory) (c : TenantContext) (q : ListCommentsQuery)
    → Keeps (λ m'. m' ≡ m) (list_by_post c q)
unfolding list_by_post
list_by_post-same m c q = Keeps-bind _ _ (record { kept = λ m' h. h }) λ ordered. Keeps-pure _
