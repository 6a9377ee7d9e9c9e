-- ===== src/Repositories/Postgres/Comments/Replies.antt =====
-- What storing a published reply does to the table of comments.
use social_comments_service.Base.{
  Bool, Bool-cases, Option, Option-cases, any, ap, false, if◌then◌else◌, inl, inr, none, refl, some,
  subst, sym, true, ◌+◌, ◌∙◌, ◌∷◌, ◌≡◌, ◌⊎◌,
}
use social_comments_service.Repositories.Postgres.{
  CommentRow, CommentTuple, Database, Engine, PostTuple, Tables, as_uuid, find_where,
  gen_random_uuid, when_committed, with_tenant,
}
use social_comments_service.Repositories.Postgres.Changes.Operations.{collect_ok}
use social_comments_service.Repositories.Postgres.Comments.{
  existing_or_refuse, insert_at, insert_published_reply, insert_reply, inserted_or_existing,
  inserted_row, read_back, read_observation,
}
use social_comments_service.Repositories.Postgres.Comments.Continues.{bind-lift_err, bind-lift_ok}
use social_comments_service.Repositories.Postgres.Posts.{post_of}
use social_comments_service.Repositories.Postgres.Statements.{
  ReadObservation, add_comment, add_unless_there, has_identity, tuple_of,
}
use social_comments_service.Shared.Errors.{Thrown}
use social_comments_service.Shared.Exec.{
  Exec, Result, Result-cases, bind-pure-state, continue, err, gets, lift, ok, ok_injective, pure,
  throw, ◌>>=◌,
}
use social_comments_service.Shared.Text.{Text, text_eq}
use social_comments_service.Shared.Types.{ObservedComment, TenantContext}

-- An action that changes nothing.
record Leaves {W A : Type 0} (m : Exec W A) : Type 0 where
  at : (w : W) → (m w).1 ≡ w

module _ {W : Type 0} where
  module _ {A : Type 0} where
    Leaves-lift : (r : Result A) → Leaves (lift {W = W} r)
    unfolding lift
    Leaves-lift r = record { at = λ w. refl }

    Leaves-throw : (x : Thrown) → Leaves (throw {W = W} {A = A} x)
    unfolding throw
    Leaves-throw x = record { at = λ w. refl }

    Leaves-gets : (f : W → A) → Leaves (gets f)
    unfolding gets
    Leaves-gets f = record { at = λ w. refl }

    Leaves-if : (b : Bool) (m n : Exec W A) → Leaves m → Leaves n → Leaves (if b then m else n)
    Leaves-if true m n p q = p
    Leaves-if false m n p q = q

  module _ {A B : Type 0} where
    continue-Leaves :
        (r : Result A) (f : A → Exec W B) (w : W)
        → ((a : A) → Leaves (f a))
        → (continue r f w).1 ≡ w
    continue-Leaves (ok a) f w q = (q a).at w
    continue-Leaves (err x) f w q = refl

    Leaves-bind :
        (m : Exec W A) (f : A → Exec W B) → Leaves m → ((a : A) → Leaves (f a)) → Leaves (m >>= f)
    unfolding ◌>>=◌
    Leaves-bind m f p q = record { at = λ w. continue-Leaves (m w).0 f (m w).1 q ∙ p.at w }

ruleset leaves_rules = (Leaves-lift, Leaves-throw, Leaves-gets, Leaves-if, Leaves-bind)

existing_or_refuse-Leaves : (t : Text) (r : ReadObservation) → Leaves (existing_or_refuse t r)
unfolding existing_or_refuse read_back
existing_or_refuse-Leaves t r = search leaves_rules

inserted_row-Leaves :
    (t : Text) (r : ReadObservation) (row : Option CommentRow) → Leaves (inserted_row t r row)
inserted_row-Leaves t r none = existing_or_refuse-Leaves t r
inserted_row-Leaves t r (some row) = Leaves-lift _

inserted_or_existing-Leaves :
    (t : Text) (r : ReadObservation) (id : Option Text) → Leaves (inserted_or_existing t r id)
unfolding inserted_or_existing read_back
inserted_or_existing-Leaves t r none = existing_or_refuse-Leaves t r
inserted_or_existing-Leaves t r (some id) =
    Leaves-bind _ _ (Leaves-gets _) (inserted_row-Leaves t r)

-- The tables as they were, or with one new comment, which is the reply under an identity that was
-- free.
pub record IsAdded (o : ObservedComment) (s s' : Tables) (c : CommentTuple) : Type 0 where
  pub external_id : c.external_comment_id ≡ o.external_id
  pub body : c.body ≡ o.body
  pub free : find_where (has_identity c.social_account_id c.external_comment_id) s.comments ≡ none
  pub added : s' ≡ record s { comments = c ∷ s.comments }

abbrev pub AddsAtMost : ObservedComment → Tables → Tables → Type 0
AddsAtMost o s s' = (s' ≡ s) ⊎ ((c : CommentTuple) × IsAdded o s s' c)

add_comment-adds :
    (c : CommentTuple) (db : Database)
    → ((add_comment c db).1.tables ≡ db.tables)
      ⊎ ((add_comment c db).1.tables ≡ record db.tables { comments = c ∷ db.tables.comments })
unfolding add_comment
add_comment-adds c db = elim (Bool-cases (any (λ d. text_eq d.id c.id) db.tables.comments)) [
  | inl x ↦ rw (x, add_comment) (inl refl)
  | inr x ↦ rw (x, add_comment) (inr refl)
]

add_unless_there-AddsAtMost :
    (o : ObservedComment) (c : CommentTuple) (db : Database)
    → c.external_comment_id ≡ o.external_id
    → c.body ≡ o.body
    → AddsAtMost o db.tables (add_unless_there c db).1.tables
unfolding add_unless_there
add_unless_there-AddsAtMost o c db x y =
    elim (Option-cases
      (find_where (has_identity c.social_account_id c.external_comment_id) db.tables.comments)) [
        | inr (d, z) ↦ rw (z, add_unless_there) (inl refl)
        | inl z ↦
            rw (z, add_unless_there)
              (rw (bind-pure-state some (add_comment c) db) (elim (add_comment-adds c db) [
                | inl same ↦ inl same
                | inr more ↦ inr (c, record { external_id = x; body = y; free = z; added = more })
              ]))
      ]

insert_at-AddsAtMost :
    (t : Text) (r : ReadObservation) (p : Option PostTuple) (db : Database)
    → AddsAtMost r.observed db.tables (insert_at t r p db).1.tables
unfolding pure gen_random_uuid ◌>>=◌
insert_at-AddsAtMost t r none db = inl refl
insert_at-AddsAtMost t r (some p) db =
    add_unless_there-AddsAtMost r.observed (tuple_of t p r (db.generated db.generations))
      (record db { generations = db.generations + 1 }) refl refl

bind-Leaves_state :
    {W A B : Type 0} (m : Exec W A) (f : A → Exec W B) (w : W)
    → ((a : A) → Leaves (f a))
    → ((m >>= f) w).1 ≡ (m w).1
unfolding ◌>>=◌
bind-Leaves_state m f w q = continue-Leaves (m w).0 f (m w).1 q

insert_reply-AddsAtMost :
    (t : Text) (r : ReadObservation) (db : Database)
    → AddsAtMost r.observed db.tables (insert_reply t r db).1.tables
unfolding insert_reply ◌>>=◌
insert_reply-AddsAtMost t r db =
    insert_at-AddsAtMost t r (find_where (post_of t r.post_id) db.tables.posts) db

read_observation-observed :
    (e : Engine) (o : ObservedComment) (r : ReadObservation)
    → read_observation e o ≡ ok r
    → r.observed ≡ o
unfolding read_observation
read_observation-observed e o r h =
    let (p, h₁) = collect_ok _ _ r h in
    let (u, h₂) = collect_ok _ _ r h₁ in
    let (i, h₃) = collect_ok _ _ r h₂ in
    sym (ap (λ (x : ReadObservation). x.observed) (ok_injective _ r h₃))

committed-AddsAtMost :
    {A : Type 0} (o : ObservedComment) (before : Tables) (x : Result A × Database)
    → AddsAtMost o before x.1.tables
    → AddsAtMost o before (when_committed before x).1.tables
committed-AddsAtMost o before (ok a, db) h = h
committed-AddsAtMost o before (err e, db) h = inl refl

with_tenant-AddsAtMost :
    {A : Type 0} (e : Engine) (a : Text) (run : Text → Exec Database A) (o : ObservedComment)
    (db : Database)
    → ((t : Text) → AddsAtMost o db.tables (run t db).1.tables)
    → AddsAtMost o db.tables (with_tenant e a run db).1.tables
unfolding with_tenant
with_tenant-AddsAtMost e a run o db h =
    committed-AddsAtMost o db.tables ((lift (as_uuid e a) >>= run) db)
      (elim (Result-cases (as_uuid e a)) [
        | inl (x, y) ↦ rw (y, bind-lift_err x run db) (inl refl)
        | inr (t, y) ↦ rw (bind-lift_ok (as_uuid e a) run db t y) (h t)
      ])

-- The insertion and the answer, in the transaction.
stored-AddsAtMost :
    (e : Engine) (t : Text) (o : ObservedComment) (db : Database)
    → AddsAtMost o db.tables
        ((lift (read_observation e o) >>= λ r. insert_reply t r >>= inserted_or_existing t r)
          db).1.tables
stored-AddsAtMost e t o db = elim (Result-cases (read_observation e o)) [
  | inl (x, h) ↦ rw (h, bind-lift_err x _ db) (inl refl)
  | inr (r, h) ↦ rw (bind-lift_ok (read_observation e o) _ db r h) (
      rw
        (bind-Leaves_state (insert_reply t r) (inserted_or_existing t r) db
          (inserted_or_existing-Leaves t r))
        (subst (λ (x : ObservedComment). AddsAtMost x db.tables (insert_reply t r db).1.tables)
          (read_observation-observed e o r h) (insert_reply-AddsAtMost t r db)))
]

-- Storing a published reply overwrites nothing: on every path, errors included, the tables are as
-- they were, or have one comment more, which has the reply's text and its external identifier,
-- under a connection where no comment had that identifier.
pub insert_published_reply-AddsAtMost :
    (e : Engine) (c : TenantContext) (o : ObservedComment) (db : Database)
    → AddsAtMost o db.tables (insert_published_reply e c o db).1.tables
unfolding insert_published_reply
insert_published_reply-AddsAtMost e c o db =
    with_tenant-AddsAtMost e c.account_id _ o db (λ t. stored-AddsAtMost e t o db)
