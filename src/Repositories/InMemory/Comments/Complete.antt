-- ===== src/Repositories/InMemory/Comments/Complete.antt =====
-- A client that follows the cursors of `listByPost` reads the whole post.
use social_comments_service.Base.{
  All, Bool, Bool-cases, List, Option, [], ap, false, inl, inr, is_none, none, refl, some, subst,
  sym, true, ◌∙◌, ◌∷◌, ◌≡◌, ◌≢◌,
}
use social_comments_service.Repositories.InMemory.{Memory, StoredComment}
use social_comments_service.Repositories.InMemory.Comments.{
  keep_if, keyset_of, of_post, ordered_comments, to_comment,
}
use social_comments_service.Repositories.InMemory.Comments.Keyset.{
  AreDistinct, Distinct, IsOrdered, compare_keyset_eq,
}
use social_comments_service.Repositories.InMemory.Comments.Sorting.{sort_by_keyset-IsOrdered}
use social_comments_service.Repositories.InMemory.Comments.Stores.{HasUniqueKeys, IsWellFormed}
use social_comments_service.Repositories.TenantScoped.{
  Entries, entry_values, get, lookup, scope, values,
}
use social_comments_service.Shared.Errors.{Thrown}
use social_comments_service.Shared.Exec.{
  Result, Result-cases, err, map_result, map_result_cons, ok, ok_injective,
}
use social_comments_service.Shared.Text.{Text, text_eq}
use social_comments_service.Shared.Text.Order.{text_eq_ne, text_eq_refl, text_eq_sound}
use social_comments_service.Shared.Types.{Comment, ListCommentsQuery}
use social_comments_service.Shared.Validation.{assert_stored_comment, rethrow_as}

-- The entries behind the first keep what holds of the whole map.
tail_law :
    (P : Text → StoredComment → Type 0) (k : Text) (s : StoredComment) (m : Entries StoredComment)
    → HasUniqueKeys ((k, s) ∷ m)
    → ((i : Text) (t : StoredComment) → lookup i ((k, s) ∷ m) ≡ some t → P i t)
    → (i : Text) (t : StoredComment) → lookup i m ≡ some t
    → P i t
unfolding lookup
tail_law P k s m (u, us) h i t e = elim (Bool-cases (text_eq k i)) [
  | inl same ↦ absurd (cc (u, text_eq_sound k i same, e))
  | inr other ↦ h i t (rw (other) e)
]

AreKeyed : Entries StoredComment → Type 0
AreKeyed m = (i : Text) (t : StoredComment) → lookup i m ≡ some t → t.id ≡ i

none_of : (o : Option StoredComment) → is_none o ≡ true → o ≡ none
none_of none h = refl
none_of (some s) h = absurd (cc h)

lookup-other :
    (k j : Text) (s : StoredComment) (m : Entries StoredComment)
    → text_eq j k ≡ false
    → lookup k ((j, s) ∷ m) ≡ lookup k m
unfolding lookup
lookup-other k j s m h = rw (h)

-- No row of a map without a key has that key for its identifier.
absent_id :
    (k : Text) (m : Entries StoredComment)
    → HasUniqueKeys m
    → AreKeyed m
    → lookup k m ≡ none
    → All (λ t. t.id ≢ k) (entry_values m)
unfolding AreKeyed entry_values lookup
absent_id k [] u h n = tt
absent_id k ((j, s) ∷ m) u h n = elim (Bool-cases (text_eq j k)) [
  | inl same ↦ absurd (cc (n, same))
  | inr other ↦ (
    (λ e. text_eq_ne j k other (sym (h j s (rw (text_eq_refl j))) ∙ e)),
    absent_id k m u.1 (tail_law (λ i t. t.id ≡ i) j s m u h) (sym (lookup-other k j s m other) ∙ n),
  )
]

abbrev AreApart : List StoredComment → Type 0
AreApart [] = Unit
AreApart (s ∷ ss) = All (λ t. t.id ≢ s.id) ss × AreApart ss

entry_values-AreApart :
    (m : Entries StoredComment) → HasUniqueKeys m → AreKeyed m → AreApart (entry_values m)
unfolding AreKeyed entry_values lookup
entry_values-AreApart [] u h = tt
entry_values-AreApart ((k, s) ∷ m) u h = (
  subst (λ v. All (λ t. t.id ≢ v) (entry_values m)) (sym (h k s (rw (text_eq_refl k))))
      (absent_id k m u.1 (tail_law (λ i t. t.id ≡ i) k s m u h) (none_of (lookup k m) u.0)),
  entry_values-AreApart m u.1 (tail_law (λ i t. t.id ≡ i) k s m u h),
)

keep_if-All {κ} :
    (P : StoredComment → Type κ) (p : StoredComment → Bool) (ss : List StoredComment)
    → All P ss
    → All P (keep_if p ss)
unfolding keep_if
keep_if-All P p [] h = tt
keep_if-All P p (s ∷ ss) (h, hs) = elim (Bool-cases (p s)) [
  | inl kept ↦ rw (kept) (h, keep_if-All P p ss hs)
  | inr dropped ↦ rw (dropped) (keep_if-All P p ss hs)
]

keep_if-AreApart :
    (p : StoredComment → Bool) (ss : List StoredComment) → AreApart ss → AreApart (keep_if p ss)
unfolding keep_if
keep_if-AreApart p [] h = tt
keep_if-AreApart p (s ∷ ss) (h, hs) = elim (Bool-cases (p s)) [
  | inl kept ↦ rw (kept) (keep_if-All _ p ss h, keep_if-AreApart p ss hs)
  | inr dropped ↦ rw (dropped) (keep_if-AreApart p ss hs)
]

rethrow_as-ok :
    (fault : Thrown) (a b : Comment) (r : Result (Unit {0})) → rethrow_as fault a r ≡ ok b → b ≡ a
rethrow_as-ok fault a b (ok _) h = ok_injective b a (sym h)
rethrow_as-ok fault a b (err _) h = absurd (cc h)

-- `toComment` keeps the identifier.
pub to_comment-id :
    (m : Memory) (a : Text) (s : StoredComment) (c : Comment)
    → to_comment m a s ≡ ok c
    → c.id ≡ s.id
unfolding to_comment assert_stored_comment
to_comment-id m a s c h = ap (λ d. d.id) (rethrow_as-ok _ _ c _ h)

map_result-Apart :
    (f : StoredComment → Result Comment) (i : Text) (ss : List StoredComment) (cs : List Comment)
    → ((s : StoredComment) (c : Comment) → f s ≡ ok c → c.id ≡ s.id)
    → map_result f ss ≡ ok cs
    → All (λ s. s.id ≢ i) ss
    → All (λ c. i ≢ c.id) cs
unfolding map_result
map_result-Apart f i [] cs k h a = subst (All _) (ok_injective [] cs h) tt
map_result-Apart f i (s ∷ ss) cs k h (n, a) =
    let (c, ds, x, y, e) = map_result_cons f s ss cs h in
    subst (All (λ c. i ≢ c.id)) e
      ((λ z. n (sym (k s c x) ∙ sym z)), map_result-Apart f i ss ds k y a)

Distinct-ids : (c : Comment) (ds : List Comment) → All (λ d. c.id ≢ d.id) ds → All (Distinct c) ds
Distinct-ids c [] h = tt
Distinct-ids c (d ∷ ds) (h, hs) =
    ((λ e. h (compare_keyset_eq (keyset_of c) (keyset_of d) e).1), Distinct-ids c ds hs)

-- Rows with identifiers of their own become comments with keysets of their own.
map_result-AreDistinct :
    (f : StoredComment → Result Comment) (ss : List StoredComment) (cs : List Comment)
    → ((s : StoredComment) (c : Comment) → f s ≡ ok c → c.id ≡ s.id)
    → map_result f ss ≡ ok cs
    → AreApart ss
    → AreDistinct cs
unfolding map_result
map_result-AreDistinct f [] cs k h a = subst AreDistinct (ok_injective [] cs h) tt
map_result-AreDistinct f (s ∷ ss) cs k h (n, a) =
    let (c, ds, x, y, e) = map_result_cons f s ss cs h in
    subst AreDistinct e (
      Distinct-ids c ds (map_result-Apart f c.id ss ds k y (rw (k s c x) n)),
      map_result-AreDistinct f ss ds k y a,
    )

-- The comments of a post are in strict keyset order.
pub ordered_comments-IsOrdered :
    (m : Memory) (a : Text) (q : ListCommentsQuery) (cs : List Comment)
    → IsWellFormed m
    → ordered_comments m a q ≡ ok cs
    → IsOrdered cs
unfolding ordered_comments values AreKeyed get lookup
ordered_comments-IsOrdered m a q cs w h =
    elim (Result-cases (map_result (to_comment m a) (keep_if (of_post q) (values m.by_id a)))) [
      | inl (e, x) ↦ absurd (cc (rw (ordered_comments, x) at h))
      | inr (ds, x) ↦
          let sorted = sort_by_keyset-IsOrdered ds (
            map_result-AreDistinct (to_comment m a) _ ds (to_comment-id m a) x (
              keep_if-AreApart (of_post q) _ (
                entry_values-AreApart (scope m.by_id a) (w.keys a)
                  (λ i t e. (w.names a i t e).0)))) in
          subst IsOrdered (ok_injective _ cs (rw (ordered_comments, x) at h)) sorted
    ]
