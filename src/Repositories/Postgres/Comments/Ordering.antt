-- ===== src/Repositories/Postgres/Comments/Ordering.antt =====
-- The order of the rows of a page, `(published_at, id)`.
use social_comments_service.Base.{
  All, All-map, Bool, Bool-cases, List, [], arith, false, inl, inr, refl, sym, true, ℕ, ◌∷◌, ◌≡◌,
}
use social_comments_service.Repositories.InMemory.Comments.{keep_if}
use social_comments_service.Repositories.Postgres.{CommentRow}
use social_comments_service.Repositories.Postgres.Statements.{insert_row, is_behind, order_rows}
use social_comments_service.Shared.Text.{Text, text_eq}
use social_comments_service.Shared.Text.Order.{
  text_lt_asym, text_lt_irrefl, text_lt_total, text_lt_trans,
}

-- `s` comes after `r`.
abbrev pub comes_after : CommentRow → CommentRow → Bool
comes_after r s = is_behind r.published_at r.id s

comes_after_trans :
    (t : ℕ) (i : Text) (r s : CommentRow)
    → is_behind t i r ≡ true
    → comes_after r s ≡ true
    → is_behind t i s ≡ true
unfolding is_behind
comes_after_trans t i r s h k = ground (arith, text_lt_trans i r.id s.id)

pub comes_after_irrefl : (r : CommentRow) → comes_after r r ≡ false
unfolding is_behind
comes_after_irrefl r = ground (arith, text_lt_irrefl r.id)

pub comes_after_asym : (r s : CommentRow) → comes_after r s ≡ true → comes_after s r ≡ false
unfolding is_behind
comes_after_asym r s h = ground (arith, text_lt_asym r.id s.id)

comes_after_total :
    (r s : CommentRow)
    → text_eq r.id s.id ≡ false
    → comes_after r s ≡ false
    → comes_after s r ≡ true
unfolding is_behind
comes_after_total r s h k = ground (arith, text_lt_total r.id s.id)

-- Each row comes after all before it.
abbrev pub AreOrdered : List CommentRow → Type 0
AreOrdered [] = Unit
AreOrdered (r ∷ rows) = All (λ s. comes_after r s ≡ true) rows × AreOrdered rows

-- No two have one identifier.
abbrev pub AreDistinctBy : {A : Type 0} → (A → Text) → List A → Type 0
AreDistinctBy id [] = Unit
AreDistinctBy id (a ∷ rest) = All (λ b. text_eq (id a) (id b) ≡ false) rest × AreDistinctBy id rest

pub insert_row-All :
    (P : CommentRow → Type 0) (r : CommentRow) (rows : List CommentRow)
    → P r
    → All P rows
    → All P (insert_row r rows)
unfolding insert_row
insert_row-All P r [] p h = (p, tt)
insert_row-All P r (s ∷ rows) p (q, h) = elim (Bool-cases (comes_after r s)) [
  | inl x ↦ rw x (p, (q, h))
  | inr x ↦ rw x (q, insert_row-All P r rows p h)
]

order_rows-All :
    (P : CommentRow → Type 0) (rows : List CommentRow) → All P rows → All P (order_rows rows)
unfolding order_rows
order_rows-All P [] h = tt
order_rows-All P (r ∷ rows) (p, h) =
    insert_row-All P r (order_rows rows) p (order_rows-All P rows h)

insert_row-AreOrdered :
    (r : CommentRow) (rows : List CommentRow)
    → All (λ s. text_eq r.id s.id ≡ false) rows
    → AreOrdered rows
    → AreOrdered (insert_row r rows)
unfolding insert_row
insert_row-AreOrdered r [] d o = (tt, tt)
insert_row-AreOrdered r (s ∷ rows) (d, ds) (h, o) = elim (Bool-cases (comes_after r s)) [
  | inl x ↦ rw x ((x, All-map rows (λ y. comes_after_trans r.published_at r.id s y x) h), (h, o))
  | inr x ↦ rw x (
    insert_row-All (λ y. comes_after s y ≡ true) r rows (comes_after_total r s d x) h,
    insert_row-AreOrdered r rows ds o,
  )
]

pub order_rows-AreOrdered :
    (rows : List CommentRow) → AreDistinctBy (λ r. r.id) rows → AreOrdered (order_rows rows)
unfolding order_rows
order_rows-AreOrdered [] d = tt
order_rows-AreOrdered (r ∷ rows) (d, ds) =
    insert_row-AreOrdered r (order_rows rows)
      (order_rows-All (λ s. text_eq r.id s.id ≡ false) rows d) (order_rows-AreOrdered rows ds)

module _ {A : Type 0} (P : A → Type 0) (p : A → Bool) where
  pub keep_if-All : (xs : List A) → All P xs → All P (keep_if p xs)
  unfolding keep_if
  keep_if-All [] h = tt
  keep_if-All (x ∷ xs) (q, h) = elim (Bool-cases (p x)) [
    | inl t ↦ rw t (q, keep_if-All xs h)
    | inr t ↦ rw t (keep_if-All xs h)
  ]

-- A row goes before rows that all come after it.
insert_row-front :
    (r : CommentRow) (rows : List CommentRow)
    → All (λ s. comes_after r s ≡ true) rows
    → insert_row r rows ≡ r ∷ rows
unfolding insert_row
insert_row-front r [] h = refl
insert_row-front r (s ∷ rows) (x, h) = rw x refl

module _ (p : CommentRow → Bool) where
  keep_if-insert_row_kept :
      (r : CommentRow) (rows : List CommentRow)
      → p r ≡ true
      → AreOrdered rows
      → keep_if p (insert_row r rows) ≡ insert_row r (keep_if p rows)
  unfolding keep_if insert_row
  keep_if-insert_row_kept r [] k o = rw k refl
  keep_if-insert_row_kept r (s ∷ rows) k (h, o) = elim (Bool-cases (comes_after r s)) [
    | inl x ↦
        rw (x, k)
          (sym (
            insert_row-front r (keep_if p (s ∷ rows)) (
              keep_if-All (λ y. comes_after r y ≡ true) p (s ∷ rows)
                (x, All-map rows (λ y. comes_after_trans r.published_at r.id s y x) h))))
    | inr x ↦ elim (Bool-cases (p s)) [
      | inl y ↦ rw (x, y, x, keep_if-insert_row_kept r rows k o) refl
      | inr y ↦ rw (x, y) (keep_if-insert_row_kept r rows k o)
    ]
  ]

  keep_if-insert_row_dropped :
      (r : CommentRow) (rows : List CommentRow)
      → p r ≡ false
      → keep_if p (insert_row r rows) ≡ keep_if p rows
  unfolding keep_if insert_row
  keep_if-insert_row_dropped r [] k = rw k refl
  keep_if-insert_row_dropped r (s ∷ rows) k = elim (Bool-cases (comes_after r s)) [
    | inl x ↦ rw (x, k) refl
    | inr x ↦ rw (x, keep_if-insert_row_dropped r rows k) refl
  ]

  -- Rows may be selected before they are ordered, or after.
  pub order_rows-keep_if :
      (rows : List CommentRow)
      → AreDistinctBy (λ r. r.id) rows
      → order_rows (keep_if p rows) ≡ keep_if p (order_rows rows)
  unfolding order_rows keep_if
  order_rows-keep_if [] d = refl
  order_rows-keep_if (r ∷ rows) (d, ds) = elim (Bool-cases (p r)) [
    | inl x ↦
        rw (x, order_rows-keep_if rows ds)
          (sym (keep_if-insert_row_kept r (order_rows rows) x (order_rows-AreOrdered rows ds)))
    | inr x ↦
        rw (x, order_rows-keep_if rows ds) (sym (keep_if-insert_row_dropped r (order_rows rows) x))
  ]
