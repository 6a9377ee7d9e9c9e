-- ===== src/Repositories/Postgres/Comments/Continues.antt =====
-- The page behind the cursor of a comment.
use social_comments_service.Base.{
  All, Bool, List, Option, [], ap, arith, false, length, length-take, ltb, none, refl, some, subst,
  suc, take, true, zero, ℕ, ◌++◌, ◌+◌, ◌∙◌, ◌∷◌, ◌≡◌,
}
use social_comments_service.Repositories.InMemory.Comments.{keep_if}
use social_comments_service.Repositories.Postgres.{
  CommentRow, Database, Engine, as_uuid, collect, iso_of, when_committed, with_tenant,
}
use social_comments_service.Repositories.Postgres.Comments.{
  page_of_rows, read_position, select_page, select_page_rows, to_page,
}
use social_comments_service.Repositories.Postgres.Comments.Ordering.{
  AreDistinctBy, AreOrdered, comes_after, comes_after_asym, comes_after_irrefl,
}
use social_comments_service.Repositories.Postgres.Comments.Pages.{
  rows_behind-AreOrdered, rows_behind-keep_if,
}
use social_comments_service.Repositories.Postgres.Statements.{is_unissued, rows_behind}
use social_comments_service.Shared.Errors.{Thrown}
use social_comments_service.Shared.Exec.{Exec, Result, err, gets, lift, ok, ◌>>=◌}
use social_comments_service.Shared.Identifiers.{is_issued_timestamp, is_uuid}
use social_comments_service.Shared.Text.{Text}
use social_comments_service.Shared.Types.{
  CommentKeyset, CommentPage, ListCommentsQuery, TenantContext,
}

All-middle :
    {A : Type 0} (P : A → Type 0) (front : List A) (a : A) (back : List A)
    → All P (front ++ a ∷ back)
    → P a
All-middle P [] a back (p, _) = p
All-middle P (f ∷ front) a back (_, h) = All-middle P front a back h

pub keep_if_whole :
    {A : Type 0} (p : A → Bool) (xs : List A) → All (λ a. p a ≡ true) xs → keep_if p xs ≡ xs
unfolding keep_if
keep_if_whole p [] h = refl
keep_if_whole p (x ∷ xs) (t, h) = rw (t, keep_if_whole p xs h) refl

-- Of an ordered list, what comes after a row is what stands behind it.
keep_if-suffix :
    (front : List CommentRow) (r : CommentRow) (back : List CommentRow)
    → AreOrdered (front ++ r ∷ back)
    → keep_if (comes_after r) (front ++ r ∷ back) ≡ back
unfolding keep_if
keep_if-suffix [] r back (h, o) = rw (comes_after_irrefl r) (keep_if_whole (comes_after r) back h)
keep_if-suffix (f ∷ front) r back (h, o) =
    rw (comes_after_asym f r (All-middle (λ s. comes_after f s ≡ true) front r back h))
      (keep_if-suffix front r back o)

pub bind-lift_err :
    {W A B : Type 0} (x : Thrown) (f : A → Exec W B) (w : W) → (lift (err x) >>= f) w ≡ (err x, w)
unfolding ◌>>=◌
bind-lift_err x f w = refl

pub bind-lift_ok :
    {W A B : Type 0} (r : Result A) (f : A → Exec W B) (w : W) (a : A)
    → r ≡ ok a
    → (lift r >>= f) w ≡ f a w
unfolding ◌>>=◌
bind-lift_ok r f w a h = rw (h) refl

gets-then :
    {W A B : Type 0} (g : W → A) (f : A → Result B) (w : W)
    → (gets g >>= λ a. lift (f a)) w ≡ (f (g w), w)
unfolding ◌>>=◌
gets-then g f w = refl

take-take : {A : Type 0} (n : ℕ) (xs : List A) → take n (take (suc n) xs) ≡ take n xs
take-take zero xs = refl
take-take (suc n) [] = refl
take-take (suc n) (x ∷ xs) = rw (take-take n xs) refl

has_more_row :
    {A : Type 0} (n : ℕ) (xs : List A) → ltb n (length (take (n + 1) xs)) ≡ ltb n (length xs)
has_more_row n xs = ground (arith, length-take (n + 1) xs)

-- One row more than the limit is enough to make the page.
pub page_of_rows-take :
    (limit : ℕ) (rows : List CommentRow)
    → page_of_rows limit (take (limit + 1) rows) ≡ page_of_rows limit rows
page_of_rows-take limit rows =
    let next : suc limit ≡ limit + 1 = omega arith in
    let same : take limit (take (limit + 1) rows) ≡ take limit rows =
      subst (λ (n : ℕ). take limit (take n rows) ≡ take limit rows) next (take-take limit rows) in
    λ i. to_page (same i) (has_more_row limit rows i)

-- A row whose cursor the database reads as its position.
pub record IsCursorExact (e : Engine) (r : CommentRow) : Type 0 where
  pub issued : is_issued_timestamp (iso_of r.published_at) ≡ true
  pub identified : is_uuid r.id ≡ true
  pub instant : e.timestamptz_in (iso_of r.published_at) ≡ some r.published_at
  pub identifier : e.uuid_in r.id ≡ some r.id

-- The keyset of a row's comment.
abbrev pub keyset_of_row : CommentRow → CommentKeyset
keyset_of_row r = record { published_at = iso_of r.published_at; id = r.id }

committed_read :
    {A : Type 0} (r : Result A) (db : Database) → when_committed db.tables (r, db) ≡ (r, db)
committed_read (ok a) db = refl
committed_read (err e) db = refl

-- A transaction that only reads.
pub with_tenant_read :
    {A : Type 0} (e : Engine) (a t : Text) (run : Text → Exec Database A) (db : Database)
    (r : Result A)
    → as_uuid e a ≡ ok t
    → run t db ≡ (r, db)
    → with_tenant e a run db ≡ (r, db)
unfolding with_tenant
with_tenant_read e a t run db r x y =
    ap (when_committed db.tables) (bind-lift_ok (as_uuid e a) run db t x ∙ y) ∙ committed_read r db

pub select_page_rows-reads :
    (e : Engine) (t post_id : Text) (q : ListCommentsQuery) (db : Database)
    (position : Option (ℕ × Text))
    → as_uuid e q.post_id ≡ ok post_id
    → read_position e q.after ≡ ok position
    → select_page_rows e t q db ≡ (
      page_of_rows q.limit
          (take (q.limit + 1) (rows_behind db.tables t post_id q.platform position)),
      db,
    )
unfolding select_page_rows
select_page_rows-reads e t post_id q db position x y =
    bind-lift_ok (as_uuid e q.post_id) _ db post_id x
    ∙ bind-lift_ok (read_position e q.after) _ db position y
    ∙ gets-then _ _ db

module _ (e : Engine) (c : TenantContext) (q : ListCommentsQuery) (db : Database) (t post_id : Text)
    (tenant : as_uuid e c.account_id ≡ ok t) (post : as_uuid e q.post_id ≡ ok post_id) where
  abbrev pub rows_of_post : List CommentRow
  rows_of_post = rows_behind db.tables t post_id q.platform none

  -- A page continues where the last one ended: if identifiers are unique, and PostgreSQL reads the
  -- cursor of a comment as the instant and the identifier of its row, which excludes an instant with
  -- a fraction of a millisecond, then the page behind the comment has the comments that stand behind
  -- it in the ordered list of the post, and no other, as far as the limit, and tells whether there
  -- are more.
  pub select_page-continues :
      (front : List CommentRow) (r : CommentRow) (back : List CommentRow)
      → AreDistinctBy (λ x. x.id) db.tables.comments
      → IsCursorExact e r
      → q.after ≡ some (keyset_of_row r)
      → rows_of_post ≡ front ++ r ∷ back
      → select_page e c q db ≡ (page_of_rows q.limit back, db)
  unfolding select_page collect
  select_page-continues front r back distinct exact cursor whole =
      let passed : is_unissued q.after ≡ false = rw (cursor, exact.identified, exact.issued) refl in
      let position : read_position e q.after ≡ ok (some (r.published_at, r.id)) =
        rw (cursor, collect, exact.instant, exact.identifier) refl in
      let behind : rows_behind db.tables t post_id q.platform (some (r.published_at, r.id)) ≡ back =
        rows_behind-keep_if db.tables t post_id q.platform distinct r.published_at r.id
        ∙ ap (keep_if (comes_after r)) whole
        ∙ keep_if-suffix front r back (
            subst AreOrdered whole
              (rows_behind-AreOrdered db.tables t post_id q.platform distinct)) in
      rw passed (
        with_tenant_read e c.account_id t _ db _ tenant
          (select_page_rows-reads e t post_id q db (some (r.published_at, r.id)) post position)
        ∙ ap (λ (x : Result CommentPage). (x, db))
            (page_of_rows-take q.limit _ ∙ ap (page_of_rows q.limit) behind))
