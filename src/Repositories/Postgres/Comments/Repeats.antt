-- ===== src/Repositories/Postgres/Comments/Repeats.antt =====
-- The cursor of a comment whose instant has a fraction of a millisecond.
use social_comments_service.Base.{
  All, All-map, Bool, List, [], ap, arith, false, none, refl, some, subst, true, ℕ, ◌%◌, ◌*◌, ◌++◌,
  ◌/◌, ◌<◌, ◌∙◌, ◌∷◌, ◌≡◌,
}
use social_comments_service.Repositories.InMemory.Comments.{keep_if}
use social_comments_service.Repositories.Postgres.{
  CommentRow, Database, Engine, as_uuid, collect, iso_of,
}
use social_comments_service.Repositories.Postgres.Comments.{
  page_of_rows, read_position, select_page,
}
use social_comments_service.Repositories.Postgres.Comments.Continues.{
  keep_if_whole, keyset_of_row, page_of_rows-take, select_page_rows-reads, with_tenant_read,
}
use social_comments_service.Repositories.Postgres.Comments.Ordering.{
  AreDistinctBy, AreOrdered, comes_after,
}
use social_comments_service.Repositories.Postgres.Comments.Pages.{
  rows_behind-AreOrdered, rows_behind-keep_if,
}
use social_comments_service.Repositories.Postgres.Statements.{is_behind, is_unissued, rows_behind}
use social_comments_service.Shared.Exec.{Result, ok}
use social_comments_service.Shared.Identifiers.{is_issued_timestamp, is_uuid}
use social_comments_service.Shared.Text.{Text}
use social_comments_service.Shared.Types.{CommentPage, ListCommentsQuery, TenantContext}

keep_if_skipped :
    {A : Type 0} (p : A → Bool) (xs ys : List A)
    → All (λ a. p a ≡ false) xs
    → keep_if p (xs ++ ys) ≡ keep_if p ys
unfolding keep_if
keep_if_skipped p [] ys h = refl
keep_if_skipped p (x ∷ xs) ys (t, h) = rw t (keep_if_skipped p xs ys h)

-- The start of a row's millisecond, which is all that its cursor has of its instant.
abbrev pub millisecond_of : CommentRow → ℕ
millisecond_of r = r.published_at / 1000 * 1000

earlier-false :
    (r f : CommentRow)
    → f.published_at < millisecond_of r
    → is_behind (millisecond_of r) r.id f ≡ false
unfolding is_behind
earlier-false r f h = ground arith

fraction-true :
    (r : CommentRow) → 0 < r.published_at % 1000 → is_behind (millisecond_of r) r.id r ≡ true
unfolding is_behind
fraction-true r h = ground arith

later-true :
    (r b : CommentRow)
    → comes_after r b ≡ true
    → 0 < r.published_at % 1000
    → is_behind (millisecond_of r) r.id b ≡ true
unfolding is_behind
later-true r b h k = ground arith

-- The rows behind the last of some rows are in order.
AreOrdered-back :
    (front : List CommentRow) (r : CommentRow) (back : List CommentRow)
    → AreOrdered (front ++ r ∷ back)
    → All (λ b. comes_after r b ≡ true) back
AreOrdered-back [] r back (h, _) = h
AreOrdered-back (f ∷ front) r back (_, o) = AreOrdered-back front r back o

-- A row whose cursor is read as the start of its millisecond.
pub record IsCursorRounded (e : Engine) (r : CommentRow) : Type 0 where
  pub issued : is_issued_timestamp (iso_of r.published_at) ≡ true
  pub identified : is_uuid r.id ≡ true
  pub instant : e.timestamptz_in (iso_of r.published_at) ≡ some (millisecond_of r)
  pub identifier : e.uuid_in r.id ≡ some r.id

module _ (e : Engine) (c : TenantContext) (q : ListCommentsQuery) (db : Database) (t post_id : Text)
    (tenant : as_uuid e c.account_id ≡ ok t) (post : as_uuid e q.post_id ≡ ok post_id) where
  -- A comment whose instant has a fraction of a millisecond is given again: the page behind its
  -- cursor begins with it, if the comments before it are of earlier milliseconds, identifiers are
  -- unique, and the database reads the cursor's instant as the start of the millisecond.
  pub select_page-repeats :
      (front : List CommentRow) (r : CommentRow) (back : List CommentRow)
      → AreDistinctBy (λ x. x.id) db.tables.comments
      → IsCursorRounded e r
      → 0 < r.published_at % 1000
      → All (λ f. f.published_at < millisecond_of r) front
      → q.after ≡ some (keyset_of_row r)
      → rows_behind db.tables t post_id q.platform none ≡ front ++ r ∷ back
      → select_page e c q db ≡ (page_of_rows q.limit (r ∷ back), db)
  unfolding select_page collect keep_if
  select_page-repeats front r back distinct rounded fraction earlier cursor whole =
      let passed : is_unissued q.after ≡ false =
        rw (cursor, rounded.identified, rounded.issued) refl in
      let position : read_position e q.after ≡ ok (some (millisecond_of r, r.id)) =
        rw (cursor, collect, rounded.instant, rounded.identifier) refl in
      let later =
        AreOrdered-back front r back (
          subst AreOrdered whole
            (rows_behind-AreOrdered db.tables t post_id q.platform distinct)) in
      let kept : keep_if (is_behind (millisecond_of r) r.id) back ≡ back =
        keep_if_whole (is_behind (millisecond_of r) r.id) back
          (All-map back (λ b h. later-true r b h fraction) later) in
      let behind : rows_behind db.tables t post_id q.platform (some (millisecond_of r, r.id))
          ≡ r ∷ back =
        rows_behind-keep_if db.tables t post_id q.platform distinct (millisecond_of r) r.id
        ∙ ap (keep_if (is_behind (millisecond_of r) r.id)) whole
        ∙ keep_if_skipped (is_behind (millisecond_of r) r.id) front (r ∷ back)
            (All-map front (earlier-false r) earlier)
        ∙ rw (fraction-true r fraction, kept) refl in
      rw passed (
        with_tenant_read e c.account_id t _ db _ tenant
          (select_page_rows-reads e t post_id q db (some (millisecond_of r, r.id)) post position)
        ∙ ap (λ (x : Result CommentPage). (x, db))
            (page_of_rows-take q.limit _ ∙ ap (page_of_rows q.limit) behind))
