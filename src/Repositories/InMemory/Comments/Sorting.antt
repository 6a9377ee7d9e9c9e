-- ===== src/Repositories/InMemory/Comments/Sorting.antt =====
-- The sort of `listByPost`: the same comments, in keyset order.
use mathlib.Core.List.{Perm}
use mathlib.Core.List.Perm
use social_comments_service.Base.{
  All, Bool-cases, List, [], ap, inl, inr, length, refl, suc, true, ◌∙◌, ◌∷◌, ◌≡◌,
}
use social_comments_service.Repositories.InMemory.Comments.{
  insert_sorted, is_after, keyset_of, sort_by_keyset,
}
use social_comments_service.Repositories.InMemory.Comments.Keyset.{
  AreDistinct, Distinct, IsOrdered, after_of_not_after, is_after_trans,
}
use social_comments_service.Shared.Types.{Comment}

insert_sorted-All {κ} :
    (P : Comment → Type κ) (c : Comment) (ds : List Comment)
    → P c
    → All P ds
    → All P (insert_sorted c ds)
unfolding insert_sorted
insert_sorted-All P c [] p h = (p, h)
insert_sorted-All P c (d ∷ ds) p (h, hs) = elim (Bool-cases (is_after (keyset_of c) d)) [
  | inl first ↦ rw (first, is_after) (p, (h, hs))
  | inr behind ↦ rw (behind, is_after) (h, insert_sorted-All P c ds p hs)
]

pub sort_by_keyset-All {κ} :
    (P : Comment → Type κ) (cs : List Comment) → All P cs → All P (sort_by_keyset cs)
unfolding sort_by_keyset
sort_by_keyset-All P [] h = h
sort_by_keyset-All P (c ∷ cs) (h, hs) =
    insert_sorted-All P c (sort_by_keyset cs) h (sort_by_keyset-All P cs hs)

after-All :
    (c d : Comment) (ds : List Comment)
    → is_after (keyset_of c) d ≡ true
    → All (λ e. is_after (keyset_of d) e ≡ true) ds
    → All (λ e. is_after (keyset_of c) e ≡ true) ds
after-All c d [] h hs = tt
after-All c d (e ∷ es) h (j, js) = (is_after_trans (keyset_of c) d e h j, after-All c d es h js)

insert_sorted-IsOrdered :
    (c : Comment) (ds : List Comment)
    → All (Distinct c) ds
    → IsOrdered ds
    → IsOrdered (insert_sorted c ds)
unfolding insert_sorted
insert_sorted-IsOrdered c [] n o = (tt, tt)
insert_sorted-IsOrdered c (d ∷ ds) (n, ns) (o, os) = elim (Bool-cases (is_after (keyset_of c) d)) [
  | inl first ↦ rw (first, is_after) ((first, after-All c d ds first o), (o, os))
  | inr behind ↦
      rw (behind, is_after)
        (
          insert_sorted-All (λ e. is_after (keyset_of d) e ≡ true) c ds
              (after_of_not_after c d n behind) o,
          insert_sorted-IsOrdered c ds ns os,
        )
]

-- Comments no two of which share a keyset are sorted strictly: each is before all that follow it.
pub sort_by_keyset-IsOrdered : (cs : List Comment) → AreDistinct cs → IsOrdered (sort_by_keyset cs)
unfolding sort_by_keyset
sort_by_keyset-IsOrdered [] d = tt
sort_by_keyset-IsOrdered (c ∷ cs) (d, ds) =
    insert_sorted-IsOrdered c (sort_by_keyset cs) (sort_by_keyset-All (Distinct c) cs d)
      (sort_by_keyset-IsOrdered cs ds)

insert_sorted-Perm : (c : Comment) (ds : List Comment) → Perm (insert_sorted c ds) (c ∷ ds)
unfolding insert_sorted
insert_sorted-Perm c [] = Perm.refl (c ∷ [])
insert_sorted-Perm c (d ∷ ds) = elim (Bool-cases (is_after (keyset_of c) d)) [
  | inl first ↦ rw (first, is_after) (Perm.refl (c ∷ d ∷ ds))
  | inr behind ↦
      rw (behind, is_after) (Perm.trans (Perm.cons d (insert_sorted-Perm c ds)) (Perm.swap c d ds))
]

-- The sort loses no comment and adds none.
pub sort_by_keyset-Perm : (cs : List Comment) → Perm (sort_by_keyset cs) cs
unfolding sort_by_keyset
sort_by_keyset-Perm [] = Perm.refl []
sort_by_keyset-Perm (c ∷ cs) =
    Perm.trans (insert_sorted-Perm c (sort_by_keyset cs)) (Perm.cons c (sort_by_keyset-Perm cs))

insert_sorted-length :
    (c : Comment) (ds : List Comment) → length (insert_sorted c ds) ≡ suc (length ds)
unfolding insert_sorted
insert_sorted-length c [] = refl
insert_sorted-length c (d ∷ ds) = elim (Bool-cases (is_after (keyset_of c) d)) [
  | inl first ↦ rw (first, is_after)
  | inr behind ↦ rw (behind, is_after, insert_sorted-length c ds)
]

pub sort_by_keyset-length : (cs : List Comment) → length (sort_by_keyset cs) ≡ length cs
unfolding sort_by_keyset
sort_by_keyset-length [] = refl
sort_by_keyset-length (c ∷ cs) =
    insert_sorted-length c (sort_by_keyset cs) ∙ ap suc (sort_by_keyset-length cs)
