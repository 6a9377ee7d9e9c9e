-- ===== src/Repositories/Postgres/Changes/Lookups.antt =====
-- Rows looked up after an update.
use mathlib.Core.Option
use social_comments_service.Base.{
  Bool, Bool-cases, List, [], any, false, if◌then◌else◌, inl, inr, refl, some, some_injective,
  subst, true, ◌∷◌, ◌≡◌,
}
use social_comments_service.Repositories.InMemory.Comments.{keep_if}
use social_comments_service.Repositories.Postgres.{find_where, map_where}

module _ {A : Type 0} (p : A → Bool) (f : A → A) where
  abbrev pub changed_where : A → A
  changed_where a = if p a then f a else a

  module _ (q : A → Bool) (same : (a : A) → p a ≡ true → q (f a) ≡ q a) where
    same_where : (a : A) → q (changed_where a) ≡ q a
    same_where a = elim (Bool-cases (p a)) [ inl x ↦ rw x (same a x) | inr x ↦ rw x refl ]

    -- An update that does not change what the query tests changes the row that the query finds.
    pub find_where-map_where :
        (xs : List A) → find_where q (map_where p f xs) ≡ Option.map changed_where (find_where q xs)
    unfolding find_where map_where
    find_where-map_where [] = refl
    find_where-map_where (x ∷ xs) = elim (Bool-cases (q x)) [
      | inl t ↦ rw (same_where x, t) refl
      | inr t ↦ rw (same_where x, t) (find_where-map_where xs)
    ]

  -- An update of rows that a query does not select leaves what it selects.
  pub keep_if-map_where :
      (q : A → Bool) (xs : List A)
      → ((a : A) → p a ≡ true → q a ≡ false)
      → ((a : A) → p a ≡ true → q (f a) ≡ false)
      → keep_if q (map_where p f xs) ≡ keep_if q xs
  unfolding keep_if map_where
  keep_if-map_where q [] h k = refl
  keep_if-map_where q (x ∷ xs) h k = elim (Bool-cases (p x)) [
    | inl t ↦ rw (t, k x t, h x t) (keep_if-map_where q xs h k)
    | inr t ↦ rw (t, keep_if-map_where q xs h k) refl
  ]

module _ {A : Type 0} (q : A → Bool) where
  -- A found row passes the test.
  pub find_where_passes : (xs : List A) (a : A) → find_where q xs ≡ some a → q a ≡ true
  unfolding find_where
  find_where_passes [] a h = cc
  find_where_passes (x ∷ xs) a h = elim (Bool-cases (q x)) [
    | inl t ↦ subst (λ (y : A). q y ≡ true) (some_injective (rw t at h)) t
    | inr t ↦ find_where_passes xs a (rw t at h)
  ]

  pub any-find_where : (xs : List A) (a : A) → find_where q xs ≡ some a → any q xs ≡ true
  unfolding find_where
  any-find_where [] a h = cc
  any-find_where (x ∷ xs) a h = elim (Bool-cases (q x)) [
    | inl t ↦ rw t refl
    | inr t ↦ rw t (any-find_where xs a (rw t at h))
  ]
