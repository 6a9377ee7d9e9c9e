-- ===== src/Repositories/InMemory/Comments.antt =====
-- `InMemoryCommentRepository` of src/repositories/in-memory.ts.
pub mod Keyset
pub mod Pages
pub mod Sorting
pub mod Stores
pub mod Growth
pub mod Shown
pub mod Complete
pub mod Reading
pub mod Limits
use mathlib.Core.Option
use social_comments_service.Base.{
  Bool, List, Option, Ordering, [], drop, false, if◌then◌else◌, is_none, is_some, length, ltb, none,
  not, some, suc, take, true, ℕ, ◌&&◌, ◌+◌, ◌∷◌,
}
use social_comments_service.Repositories.InMemory.{Memory, StoredComment, random_uuid}
use social_comments_service.Repositories.TenantScoped.{get, set, values}
use social_comments_service.Shared.Errors.{ServiceErrorCode, ServiceErrorReason, plain_error}
use social_comments_service.Shared.Exec.{Exec, Result, err, gets, map_result, ok, pure, ◌>>=◌, ◌>>◌}
use social_comments_service.Shared.Text.{Text, text_eq, text_lt}
use social_comments_service.Shared.Types.{
  Comment, CommentKeyset, CommentPage, ListCommentsQuery, ObservedComment, TenantContext,
  platform_eq,
}
use social_comments_service.Shared.Validation.{assert_stored_comment}

abbrev pub keyset_of : Comment → CommentKeyset
keyset_of c = record { published_at = c.published_at; id = c.id }

-- `compareKeyset`, whose number is read by its sign alone.
unfoldable pub compare_keyset : CommentKeyset → CommentKeyset → Ordering
compare_keyset l r =
    if not (text_eq l.published_at r.published_at)
    then (if text_lt l.published_at r.published_at then Ordering.lt else Ordering.gt)
    else if text_eq l.id r.id
    then Ordering.eq
    else if text_lt l.id r.id
    then Ordering.lt
    else Ordering.gt

abbrev pub is_after : CommentKeyset → Comment → Bool
is_after k c = elim (compare_keyset (keyset_of c) k) [ Ordering.gt ↦ true | _ ↦ false ]

-- `sort` is stable: an element goes behind those that are not greater.
unfoldable pub insert_sorted : Comment → List Comment → List Comment
insert_sorted c [] = c ∷ []
insert_sorted c (d ∷ ds) =
    let behind = insert_sorted c ds in if is_after (keyset_of c) d then c ∷ d ∷ ds else d ∷ behind

unfoldable pub sort_by_keyset : List Comment → List Comment
sort_by_keyset [] = []
sort_by_keyset (c ∷ cs) = insert_sorted c (sort_by_keyset cs)

-- `toComment`
unfoldable pub to_comment : Memory → Text → StoredComment → Result Comment
to_comment m account_id stored =
    let parent =
      Option.bind stored.observed.external_parent_comment_id (get m.by_external_id account_id) in
    assert_stored_comment (record {
      id = stored.id;
      post_id = stored.observed.post_id;
      platform = stored.observed.platform;
      author = stored.observed.author;
      body = stored.observed.body;
      parent_comment_id = parent;
      parent_unresolved = is_some stored.observed.external_parent_comment_id && is_none parent;
      published_at = stored.observed.published_at;
      updated_at = stored.observed.updated_at;
    })

abbrev pub of_post : ListCommentsQuery → StoredComment → Bool
of_post q s = text_eq s.observed.post_id q.post_id && platform_eq s.observed.platform q.platform

unfoldable pub keep_if {ℓ} : {A : Type ℓ} → (A → Bool) → List A → List A
keep_if p [] = []
keep_if p (a ∷ rest) = let kept = keep_if p rest in if p a then a ∷ kept else kept

-- `findIndex`, `none` for -1.
unfoldable pub find_index {ℓ} : {A : Type ℓ} → (A → Bool) → List A → Option ℕ
find_index p [] = none
find_index p (a ∷ rest) = if p a then some 0 else Option.map suc (find_index p rest)

abbrev pub start_index : Option CommentKeyset → List Comment → Option ℕ
start_index none ordered = some 0
start_index (some k) ordered = find_index (is_after k) ordered

abbrev pub page_from : ℕ → List Comment → Option ℕ → CommentPage
page_from limit ordered none = record { items = []; has_more = false }
page_from limit ordered (some start) = record {
  items = take limit (drop start ordered);
  has_more = ltb (start + length (take limit (drop start ordered))) (length ordered);
}

-- The page of an ordered list of comments that a query asks for.
unfoldable pub page_of : ListCommentsQuery → List Comment → CommentPage
page_of q ordered = page_from q.limit ordered (start_index q.after ordered)

-- Every comment of the query's post, in order; or what `toComment` throws.
unfoldable pub ordered_comments : Memory → Text → ListCommentsQuery → Result (List Comment)
ordered_comments m account_id q =
    elim (map_result (to_comment m account_id) (keep_if (of_post q) (values m.by_id account_id))) [
      | err e ↦ err e
      | ok cs ↦ ok (sort_by_keyset cs)
    ]

unfoldable pub list_by_post : TenantContext → ListCommentsQuery → Exec Memory CommentPage
list_by_post context q = do
  ordered ← (λ m. (ordered_comments m context.account_id q, m))
  pure (page_of q ordered)

abbrev pub to_comment_or_null : Memory → Text → Option StoredComment → Result (Option Comment)
to_comment_or_null m account_id none = ok none
to_comment_or_null m account_id (some s) = elim (to_comment m account_id s) [
  | err e ↦ err e
  | ok c ↦ ok (some c)
]

unfoldable pub find_by_id : TenantContext → Text → Exec Memory (Option Comment)
find_by_id context comment_id m =
    (to_comment_or_null m context.account_id (get m.by_id context.account_id comment_id), m)

-- The row that an external identifier names, if it stands under the sibling's post.
unfoldable pub reply_row : Memory → Text → Text → Text → Option StoredComment
reply_row m account_id sibling_comment_id external_id =
    Option.bind (get m.by_id account_id sibling_comment_id) λ sibling.
      Option.bind (get m.by_external_id account_id external_id) λ id.
        Option.bind (get m.by_id account_id id) λ stored.
          if text_eq stored.observed.post_id sibling.observed.post_id then some stored else none

unfoldable pub find_reply_by_external_id :
    TenantContext → Text → Text → Exec Memory (Option Comment)
find_reply_by_external_id context sibling_comment_id external_id m = (
  to_comment_or_null m context.account_id
      (reply_row m context.account_id sibling_comment_id external_id),
  m,
)

unfoldable pub resolve_external_id : TenantContext → Text → Exec Memory (Option Text)
resolve_external_id context comment_id m =
    (ok (Option.map (λ s. s.observed.external_id) (get m.by_id context.account_id comment_id)), m)

abbrev pub id_or_uuid : Option Text → Exec Memory Text
id_or_uuid none = random_uuid
id_or_uuid (some id) = pure id

-- `store`
unfoldable pub store : Text → ObservedComment → Exec Memory StoredComment
store account_id observed = do
  known ← gets (λ m. get m.by_external_id account_id observed.external_id)
  id ← id_or_uuid known
  let stored : StoredComment = record { id = id; observed = observed }
  (λ m. (
    ok stored,
    record m {
      by_external_id = set m.by_external_id account_id observed.external_id id;
      by_id = set m.by_id account_id id stored;
    },
  ))

unfoldable pub store_all : Text → List ObservedComment → Exec Memory (List StoredComment)
store_all account_id [] = pure []
store_all account_id (o ∷ os) = do
  stored ← store account_id o
  rest ← store_all account_id os
  pure (stored ∷ rest)

unfoldable pub upsert_many : TenantContext → List ObservedComment → Exec Memory (List Comment)
upsert_many context observed = do
  stored ← store_all context.account_id observed
  (λ m. (map_result (to_comment m context.account_id) stored, m))

-- What a stored row under the reply's own external identifier is answered with.
unfoldable pub existing_reply :
    Memory → Text → ObservedComment → Option StoredComment → Result Comment
existing_reply m account_id reply (some existing) =
    if text_eq existing.observed.body reply.body
    then to_comment m account_id existing
    else err (plain_error ServiceErrorCode.internal_error ServiceErrorReason.reply_not_stored 500)
existing_reply m account_id reply none =
    err (plain_error ServiceErrorCode.internal_error ServiceErrorReason.reply_not_stored 500)

-- What follows the look-up of the reply's own external identifier.
unfoldable pub store_unless : TenantContext → ObservedComment → Option Text → Exec Memory Comment
store_unless context reply none = do
  stored ← store context.account_id reply
  (λ m. (to_comment m context.account_id stored, m))
store_unless context reply (some existing_id) =
    λ m. (existing_reply m context.account_id reply (get m.by_id context.account_id existing_id), m)

unfoldable pub store_published_reply : TenantContext → ObservedComment → Exec Memory Comment
unfolding store_unless
store_published_reply context reply = do
  known ← gets (λ m. get m.by_external_id context.account_id reply.external_id)
  store_unless context reply known
