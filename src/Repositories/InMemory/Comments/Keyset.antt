-- ===== src/Repositories/InMemory/Comments/Keyset.antt =====
-- The keyset order: strict, total, and kept by the sort.
use social_comments_service.Base.{
  All, Bool-cases, List, Ordering, [], arith, false, inl, inr, true, ◌↔◌, ◌∷◌, ◌≡◌, ◌≢◌,
}
use social_comments_service.Repositories.InMemory.Comments.{compare_keyset, is_after, keyset_of}
use social_comments_service.Shared.Text.Order.{
  text_eq_iff, text_eq_refl, text_lt_asym, text_lt_total, text_lt_trans,
}
use social_comments_service.Shared.Types.{Comment, CommentKeyset}

module _ (l r : CommentKeyset) where
  -- `compareKeyset` finds equal exactly the same keyset.
  pub compare_keyset_eq :
      compare_keyset l r ≡ Ordering.eq → (l.published_at ≡ r.published_at) × (l.id ≡ r.id)
  unfolding compare_keyset
  compare_keyset_eq h =
      ground (arith, text_eq_iff l.published_at r.published_at, text_eq_iff l.id r.id)

  compare_keyset_gt : compare_keyset l r ≡ Ordering.gt → compare_keyset r l ≡ Ordering.lt
  unfolding compare_keyset
  compare_keyset_gt h = ground (
    arith,
    text_eq_iff l.published_at r.published_at,
    text_eq_iff r.published_at l.published_at,
    text_eq_iff l.id r.id,
    text_eq_iff r.id l.id,
    text_lt_total l.published_at r.published_at,
    text_lt_total l.id r.id,
  )

  compare_keyset_lt : compare_keyset l r ≡ Ordering.lt → compare_keyset r l ≡ Ordering.gt
  unfolding compare_keyset
  compare_keyset_lt h = ground (
    arith,
    text_eq_iff l.published_at r.published_at,
    text_eq_iff r.published_at l.published_at,
    text_eq_iff l.id r.id,
    text_eq_iff r.id l.id,
    text_lt_asym l.published_at r.published_at,
    text_lt_asym l.id r.id,
  )

pub compare_keyset_refl : (k : CommentKeyset) → compare_keyset k k ≡ Ordering.eq
unfolding compare_keyset
compare_keyset_refl k = rw (text_eq_refl k.published_at, text_eq_refl k.id)

compare_keyset_trans :
    (a b c : CommentKeyset)
    → compare_keyset a b ≡ Ordering.lt
    → compare_keyset b c ≡ Ordering.lt
    → compare_keyset a c ≡ Ordering.lt
unfolding compare_keyset
compare_keyset_trans a b c h k = ground (
  arith,
  text_eq_iff a.published_at b.published_at,
  text_eq_iff b.published_at c.published_at,
  text_eq_iff a.published_at c.published_at,
  text_eq_iff a.id b.id,
  text_eq_iff b.id c.id,
  text_eq_iff a.id c.id,
  text_lt_trans a.published_at b.published_at c.published_at,
  text_lt_trans a.id b.id c.id,
  text_lt_asym a.published_at b.published_at,
  text_lt_asym a.id b.id,
)

pub is_after_iff :
    (k : CommentKeyset) (c : Comment)
    → (is_after k c ≡ true) ↔ (compare_keyset k (keyset_of c) ≡ Ordering.lt)
is_after_iff k c = (
  λ h. compare_keyset_gt (keyset_of c) k (ground arith),
  λ h. rw (compare_keyset_lt k (keyset_of c) h, is_after),
)

pub is_after_trans :
    (k : CommentKeyset) (b c : Comment)
    → is_after k b ≡ true
    → is_after (keyset_of b) c ≡ true
    → is_after k c ≡ true
is_after_trans k b c h j = (is_after_iff k c).1 (
    compare_keyset_trans k (keyset_of b) (keyset_of c) ((is_after_iff k b).0 h)
      ((is_after_iff (keyset_of b) c).0 j))

pub is_after_irrefl : (c : Comment) → is_after (keyset_of c) c ≡ false
is_after_irrefl c = rw (compare_keyset_refl (keyset_of c), is_after)

pub is_after_asym :
    (b c : Comment) → is_after (keyset_of b) c ≡ true → is_after (keyset_of c) b ≡ false
is_after_asym b c h = elim (Bool-cases (is_after (keyset_of c) b)) [
  | inr no' ↦ no'
  | inl yes' ↦ absurd (cc (is_after_trans (keyset_of b) c b h yes', is_after_irrefl b))
]

-- Each comment is strictly before those behind it.
abbrev pub IsOrdered : List Comment → Type 0
IsOrdered [] = Unit
IsOrdered (c ∷ cs) = All (λ d. is_after (keyset_of c) d ≡ true) cs × IsOrdered cs

-- None of two comments has the other's keyset.
abbrev pub Distinct : Comment → Comment → Type 0
Distinct c d = compare_keyset (keyset_of c) (keyset_of d) ≢ Ordering.eq

abbrev pub AreDistinct : List Comment → Type 0
AreDistinct [] = Unit
AreDistinct (c ∷ cs) = All (Distinct c) cs × AreDistinct cs

pub after_of_not_after :
    (c d : Comment)
    → Distinct c d
    → is_after (keyset_of c) d ≡ false
    → is_after (keyset_of d) c ≡ true
after_of_not_after c d n h = ground (
  arith,
  compare_keyset_gt (keyset_of d) (keyset_of c),
  compare_keyset_lt (keyset_of d) (keyset_of c),
  compare_keyset_eq (keyset_of d) (keyset_of c),
  compare_keyset_refl (keyset_of c),
)
