-- ===== src/Repositories/InMemory/Comments/Pages.antt =====
-- Reading a post page by page, as a client that follows the cursors does.
use social_comments_service.Base.{
  All, Bool, Bool-cases, List, Option, [], ap, arith, drop, false, if◌then◌else◌, inl, inr, last?,
  length, length-append, length-drop, length-take, ltb, ltb-le, ltb→lt, none, refl, some, subst,
  suc, sym, take, take-append-drop, take_all, tests, true, zero, ℕ, ◌++◌, ◌+◌, ◌<◌, ◌∙◌, ◌∷◌, ◌≡◌,
  ◌≤◌,
}
use social_comments_service.Repositories.InMemory.Comments.{
  find_index, is_after, keyset_of, page_of, start_index,
}
use social_comments_service.Repositories.InMemory.Comments.Keyset.{
  IsOrdered, is_after_asym, is_after_irrefl,
}
use social_comments_service.Shared.Types.{Comment, CommentPage, ListCommentsQuery}

module _ {ℓ} {A : Type ℓ} where
  last?-cons :
      (x : A) (xs : List A)
      → (ys : List A) × (y : A) × (x ∷ xs ≡ ys ++ (y ∷ [])) × (last? (x ∷ xs) ≡ some y)
  last?-cons x [] = ([], x, refl, refl)
  last?-cons x (x' ∷ xs) = let (ys, y, e, l) = last?-cons x' xs in (x ∷ ys, y, ap (λ v. x ∷ v) e, l)

  drop-cons : (n : ℕ) (xs : List A) → n < length xs → (z : A) × (zs : List A) × (drop n xs ≡ z ∷ zs)
  drop-cons zero [] h = absurd (omega arith)
  drop-cons zero (x ∷ xs) h = (x, xs, refl)
  drop-cons (suc n) [] h = absurd (omega arith)
  drop-cons (suc n) (x ∷ xs) h = drop-cons n xs (omega arith)

  append_assoc : (xs ys zs : List A) → (xs ++ ys) ++ zs ≡ xs ++ (ys ++ zs)
  append_assoc [] ys zs = refl
  append_assoc (x ∷ xs) ys zs = rw (append_assoc xs ys zs)

  append_nil : (xs : List A) → xs ++ [] ≡ xs
  append_nil [] = refl
  append_nil (x ∷ xs) = rw (append_nil xs)

  drop-append : (xs ys : List A) → drop (length xs) (xs ++ ys) ≡ ys
  drop-append [] ys = refl
  drop-append (x ∷ xs) ys = drop-append xs ys

  -- A search passes the elements that fail the test.
  find_index-append :
      (p : A → Bool) (xs : List A) (y : A) (ys : List A)
      → All (λ x. p x ≡ false) xs
      → p y ≡ true
      → find_index p (xs ++ (y ∷ ys)) ≡ some (length xs)
  unfolding find_index
  find_index-append p [] y ys h t = rw (t)
  find_index-append p (x ∷ xs) y ys (h, hs) t = rw (h, find_index-append p xs y ys hs t)

  find_index-none :
      (p : A → Bool) (xs : List A) → All (λ x. p x ≡ false) xs → find_index p xs ≡ none
  unfolding find_index
  find_index-none p [] h = refl
  find_index-none p (x ∷ xs) (h, hs) = rw (h, find_index-none p xs hs)

All-middle {ℓ κ} :
    {A : Type ℓ} (P : A → Type κ) (xs : List A) (y : A) (ys : List A) → All P (xs ++ (y ∷ ys)) → P y
All-middle P [] y ys h = h.0
All-middle P (x ∷ xs) y ys h = All-middle P xs y ys h.1

-- The comments in front of the last of a prefix are not after it, nor is itself.
not_after_prefix :
    (xs : List Comment) (y : Comment) (ys : List Comment)
    → IsOrdered (xs ++ (y ∷ ys))
    → All (λ c. is_after (keyset_of y) c ≡ false) (xs ++ (y ∷ []))
not_after_prefix [] y ys h = (is_after_irrefl y, tt)
not_after_prefix (x ∷ xs) y ys (h, hs) = (
  is_after_asym x y (All-middle (λ d. is_after (keyset_of x) d ≡ true) xs y ys h),
  not_after_prefix xs y ys hs,
)

after_prefix :
    (xs : List Comment) (y z : Comment) (zs : List Comment)
    → IsOrdered (xs ++ (y ∷ z ∷ zs))
    → is_after (keyset_of y) z ≡ true
after_prefix [] y z zs ((h, _), _) = h
after_prefix (x ∷ xs) y z zs (_, hs) = after_prefix xs y z zs hs

-- The cursor of a comment starts the next page right behind it.
pub start_index-behind :
    (xs : List Comment) (y z : Comment) (zs : List Comment)
    → IsOrdered (xs ++ (y ∷ z ∷ zs))
    → start_index (some (keyset_of y)) ((xs ++ (y ∷ [])) ++ (z ∷ zs))
      ≡ some (length (xs ++ (y ∷ [])))
start_index-behind xs y z zs h =
    find_index-append (is_after (keyset_of y)) (xs ++ (y ∷ [])) z zs
      (not_after_prefix xs y (z ∷ zs) h) (after_prefix xs y z zs h)

-- The cursor a client goes on from, after a page.
abbrev pub next_of : CommentPage → Option Comment
next_of page = if page.has_more then last? page.items else none

-- The comments a client reads that asks for page after page, each behind the last of the one
-- before, for at most `fuel` pages.
unfoldable pub walk : ℕ → ListCommentsQuery → List Comment → List Comment
walk zero q ordered = []
walk (suc fuel) q ordered = (page_of q ordered).items ++ (elim (next_of (page_of q ordered)) [
  | none ↦ []
  | some c ↦ walk fuel (record q { after = some (keyset_of c) }) ordered
])

has_more_start :
    (n : ℕ) (pre rest : List Comment)
    → ltb (length pre + length (take n rest)) (length (pre ++ rest)) ≡ ltb n (length rest)
has_more_start n pre rest = ground (arith, length-append pre rest, length-take n rest)

-- A page that starts behind `pre`.
page_of-start :
    (q : ListCommentsQuery) (pre rest : List Comment)
    → start_index q.after (pre ++ rest) ≡ some (length pre)
    → page_of q (pre ++ rest)
      ≡ record { items = take q.limit rest; has_more = ltb q.limit (length rest) }
unfolding page_of
page_of-start q pre rest h = rw (h, drop-append pre rest, has_more_start q.limit pre rest)

-- A full page ends in a comment, and there is a comment behind it.
full_page :
    (n : ℕ) (rest : List Comment)
    → 1 ≤ n
    → n < length rest
    → (ys : List Comment) × (y z : Comment) × (zs : List Comment) × (take n rest ≡ ys ++ (y ∷ []))
      × (drop n rest ≡ z ∷ zs)
      × (last? (take n rest) ≡ some y)
full_page zero rest l h = absurd (omega arith)
full_page (suc n) [] l h = absurd (omega arith)
full_page (suc n) (x ∷ rest) l h =
    let (ys, y, e, i) = last?-cons x (take n rest) in
    let (z, zs, d) = drop-cons n rest (omega arith) in (ys, y, z, zs, e, d, i)

next_start :
    (pre rest : List Comment) (n : ℕ) (ys : List Comment) (y z : Comment) (zs : List Comment)
    → IsOrdered (pre ++ rest)
    → take n rest ≡ ys ++ (y ∷ [])
    → drop n rest ≡ z ∷ zs
    → start_index (some (keyset_of y)) (pre ++ rest) ≡ some (length (pre ++ take n rest))
next_start pre rest n ys y z zs o t d =
    let pieces : rest ≡ (ys ++ (y ∷ [])) ++ (z ∷ zs) = sym (take-append-drop n rest) ∙ rw (t, d) in
    let whole : pre ++ rest ≡ (pre ++ ys) ++ (y ∷ z ∷ zs) =
      ap (λ v. pre ++ v) pieces
      ∙ ap (λ v. pre ++ v) (append_assoc ys (y ∷ []) (z ∷ zs))
      ∙ sym (append_assoc pre ys (y ∷ z ∷ zs)) in
    let split : pre ++ rest ≡ ((pre ++ ys) ++ (y ∷ [])) ++ (z ∷ zs) =
      whole ∙ sym (append_assoc (pre ++ ys) (y ∷ []) (z ∷ zs)) in
    rw (split, t, sym (append_assoc pre ys (y ∷ [])))
      (start_index-behind (pre ++ ys) y z zs (subst IsOrdered whole o))

walk-rest :
    (fuel : ℕ) (q : ListCommentsQuery) (xs pre rest : List Comment)
    → xs ≡ pre ++ rest
    → IsOrdered xs
    → 1 ≤ q.limit
    → length rest < fuel
    → start_index q.after xs ≡ some (length pre)
    → walk fuel q xs ≡ rest
unfolding walk
walk-rest zero q xs pre rest e o l f h = absurd (omega arith)
walk-rest (suc fuel) q xs pre rest e o l f h =
    let page : page_of q xs
        ≡ record { items = take q.limit rest; has_more = ltb q.limit (length rest) } =
      rw (
        e,
        page_of-start q pre rest (subst (λ v. start_index q.after v ≡ some (length pre)) e h),
      ) in
    elim (Bool-cases (ltb q.limit (length rest))) [
      | inr last_page ↦ rw (
        page,
        last_page,
        take_all q.limit rest (ltb-le q.limit (length rest) last_page),
        append_nil,
      )
      | inl more ↦
          let (ys, y, z, zs, t, d, i) =
            full_page q.limit rest l (ltb→lt q.limit (length rest) more) in
          let tail =
            walk-rest fuel (record q { after = some (keyset_of y) }) xs (pre ++ take q.limit rest)
              (drop q.limit rest) (rw (e, append_assoc, take-append-drop)) o l
              (omega (tests, length-drop q.limit rest))
              (rw (e, next_start pre rest q.limit ys y z zs (subst IsOrdered e o) t d)) in
          rw (page, more, i, tail, take-append-drop)
    ]

-- Following the cursors from the first page reads every comment of an ordered post, each once and
-- in order, with at least one comment a page and one page more than there are comments allowed.
pub walk-all :
    (fuel : ℕ) (q : ListCommentsQuery) (ordered : List Comment)
    → IsOrdered ordered
    → 1 ≤ q.limit
    → q.after ≡ none
    → length ordered < fuel
    → walk fuel q ordered ≡ ordered
walk-all fuel q ordered o l a f =
    walk-rest fuel q ordered [] ordered refl o l f (rw (a, start_index))
