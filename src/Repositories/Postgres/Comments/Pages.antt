-- ===== src/Repositories/Postgres/Comments/Pages.antt =====
-- Pages of comments, one after another.
use social_comments_service.Base.{
  All, Bool, Bool-cases, List, Option-cases, [], ap, false, inl, inr, none, refl, some,
  some_injective, subst, sym, true, ℕ, ◌&&◌, ◌∙◌, ◌∷◌, ◌≡◌,
}
use social_comments_service.Repositories.InMemory.Comments.{keep_if}
use social_comments_service.Repositories.Postgres.{CommentRow, CommentTuple, Tables, find_where}
use social_comments_service.Repositories.Postgres.Comments.Ordering.{
  AreDistinctBy, AreOrdered, keep_if-All, order_rows-AreOrdered, order_rows-keep_if,
}
use social_comments_service.Repositories.Postgres.Posts.{connection_of, post_of}
use social_comments_service.Repositories.Postgres.Statements.{
  collect_some, is_behind, joined, order_rows, rows_behind, select_comments,
}
use social_comments_service.Shared.Text.{Text, text_eq}
use social_comments_service.Shared.Types.{Platform, platform_eq}

-- The rows that a query selects are as distinct as the table's.
keep_if-AreDistinctBy :
    {A : Type 0} (id : A → Text) (p : A → Bool) (xs : List A)
    → AreDistinctBy id xs
    → AreDistinctBy id (keep_if p xs)
unfolding keep_if
keep_if-AreDistinctBy id p [] d = tt
keep_if-AreDistinctBy id p (x ∷ xs) (d, ds) = elim (Bool-cases (p x)) [
  | inl t ↦
      rw t
        (keep_if-All (λ b. text_eq (id x) (id b) ≡ false) p xs d, keep_if-AreDistinctBy id p xs ds)
  | inr t ↦ rw t (keep_if-AreDistinctBy id p xs ds)
]

joined-id :
    (s : Tables) (t : Text) (c : CommentTuple) (r : CommentRow)
    → joined s t c ≡ some r
    → r.id ≡ c.id
unfolding joined mathlib.Core.Option.bind
joined-id s t c r h = elim (Option-cases (find_where (post_of t c.post_id) s.posts)) [
  | inl x ↦ absurd (cc (rw (x, joined) at h))
  | inr (p, x) ↦ elim (Option-cases (connection_of s t p.social_account_id)) [
    | inl y ↦ absurd (cc (rw (joined, x, y) at h))
    | inr (a, y) ↦ sym (ap (λ (z : CommentRow). z.id) (some_injective (rw (joined, x, y) at h)))
  ]
]

joined-All :
    (s : Tables) (t id : Text) (cs : List CommentTuple)
    → All (λ c. text_eq id c.id ≡ false) cs
    → All (λ r. text_eq id r.id ≡ false) (collect_some (joined s t) cs)
unfolding collect_some
joined-All s t id [] h = tt
joined-All s t id (c ∷ cs) (x, h) = elim (Option-cases (joined s t c)) [
  | inl y ↦ rw (y, collect_some) (joined-All s t id cs h)
  | inr (r, y) ↦ rw (y, collect_some) (rw (joined-id s t c r y) x, joined-All s t id cs h)
]

joined-AreDistinctBy :
    (s : Tables) (t : Text) (cs : List CommentTuple)
    → AreDistinctBy (λ c. c.id) cs
    → AreDistinctBy (λ r. r.id) (collect_some (joined s t) cs)
unfolding collect_some
joined-AreDistinctBy s t [] d = tt
joined-AreDistinctBy s t (c ∷ cs) (d, ds) = elim (Option-cases (joined s t c)) [
  | inl y ↦ rw (y, collect_some) (joined-AreDistinctBy s t cs ds)
  | inr (r, y) ↦
      rw (y, collect_some)
        (
          subst (λ (i : Text). All (λ z. text_eq i z.id ≡ false) (collect_some (joined s t) cs))
              (sym (joined-id s t c r y)) (joined-All s t c.id cs d),
          joined-AreDistinctBy s t cs ds,
        )
]

-- A selection by two tests is one of a selection.
keep_if-and :
    {A : Type 0} (p q : A → Bool) (xs : List A)
    → keep_if (λ a. p a && q a) xs ≡ keep_if q (keep_if p xs)
unfolding keep_if
keep_if-and p q [] = refl
keep_if-and p q (x ∷ xs) = elim (Bool-cases (p x)) [
  | inl t ↦ rw (t, keep_if-and p q xs) refl
  | inr t ↦ rw (t, keep_if-and p q xs) refl
]

keep_if-true : {A : Type 0} (xs : List A) → keep_if (λ a. true) xs ≡ xs
unfolding keep_if
keep_if-true [] = refl
keep_if-true (x ∷ xs) = rw (keep_if-true xs) refl

module _ (s : Tables) (t post_id : Text) (platform : Platform)
    (distinct : AreDistinctBy (λ c. c.id) s.comments) where
  abbrev of_platform : List CommentRow
  of_platform =
      keep_if (λ r. platform_eq r.platform platform)
        (select_comments s t (λ c. text_eq c.post_id post_id))

  of_platform-AreDistinctBy : AreDistinctBy (λ r. r.id) of_platform
  unfolding select_comments
  of_platform-AreDistinctBy =
      keep_if-AreDistinctBy (λ r. r.id) _ _
        (joined-AreDistinctBy s t _ (keep_if-AreDistinctBy (λ c. c.id) _ s.comments distinct))

  all_rows : rows_behind s t post_id platform none ≡ order_rows of_platform
  unfolding rows_behind
  all_rows =
      ap order_rows (
        keep_if-and (λ r. platform_eq r.platform platform) (λ r. true) _ ∙ keep_if-true of_platform)

  -- The rows behind a position are those of the whole list that come after it.
  pub rows_behind-keep_if :
      (at : ℕ) (id : Text)
      → rows_behind s t post_id platform (some (at, id))
        ≡ keep_if (is_behind at id) (rows_behind s t post_id platform none)
  unfolding rows_behind
  rows_behind-keep_if at id =
      ap order_rows (keep_if-and (λ r. platform_eq r.platform platform) (is_behind at id) _)
      ∙ order_rows-keep_if (is_behind at id) of_platform of_platform-AreDistinctBy
      ∙ ap (keep_if (is_behind at id)) (sym all_rows)

  pub rows_behind-AreOrdered : AreOrdered (rows_behind s t post_id platform none)
  rows_behind-AreOrdered = rw all_rows (order_rows-AreOrdered of_platform of_platform-AreDistinctBy)
