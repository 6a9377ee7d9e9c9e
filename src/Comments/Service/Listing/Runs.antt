-- ===== src/Comments/Service/Listing/Runs.antt =====
-- What the answers of `listComments` say of the run of pages that they belong to.
use social_comments_service.Base.{
  Bool, Bool-cases, Option-cases, false, inl, inr, is_none, is_some, last?, length, none, not, refl,
  some, true, ℕ, ◌||◌, ◌≡◌, ◌≤◌, ◌⊎◌,
}
use social_comments_service.Comments.Contracts.{Config, Ports}
use social_comments_service.Comments.Ensures.{Ensures, Ensures-bind, Ensures-of_Keeps, Ensures-pure}
use social_comments_service.Comments.Invariants.{Keeps-lift}
use social_comments_service.Comments.Returns.{Returns}
use social_comments_service.Comments.Service.Listing.{
  answer, is_partial_run, pagination_of, position_after,
}
use social_comments_service.Repositories.InMemory.Comments.{keyset_of}
use social_comments_service.Shared.Cursor.{CommentCursor, encode_cursor}
use social_comments_service.Shared.Types.{
  Comment, CommentPage, ListCommentsQuery, ListCommentsResult, PostSnapshotState, TenantContext,
}

-- A run misses comments: it starts over a snapshot that is not complete, or its cursor says that it
-- did.
abbrev pub Misses : CommentCursor → PostSnapshotState → Type 0
Misses cursor s =
    ((cursor.after ≡ none) × (s.exhausted ≡ false))
    ⊎ ((is_some cursor.after ≡ true) × (cursor.partial_run ≡ true))

-- The answer to a request with a cursor, over a snapshot and a page of the repository: the comments
-- of the page; dated by the snapshot, but never in a run that misses comments; and with a cursor
-- exactly when there is more, which stands at the last comment and carries whether the run misses
-- comments.
pub record IsAnswer (config : Config) (cursor : CommentCursor) (limit : ℕ) (s : PostSnapshotState)
    (page : CommentPage) (r : ListCommentsResult) : Type 0 where
  pub size : length r.items ≤ limit
  pub listed : r.items ≡ page.items
  pub more_listed : page.has_more ≡ true → r.pagination.has_more ≡ true
  pub undated : Misses cursor s → r.synced_at ≡ none
  pub dated : cursor.after ≡ none → s.exhausted ≡ true → r.synced_at ≡ s.completed_at
  pub unfinished : cursor.after ≡ none → s.exhausted ≡ false → r.pagination.has_more ≡ true
  pub next :
      ((r.pagination.has_more ≡ false) × (r.pagination.next_cursor ≡ none))
      ⊎ ((r.pagination.has_more ≡ true)
          × (c : CommentCursor) × (r.pagination.next_cursor ≡ some (encode_cursor config.codec c))
          × (Misses cursor s → c.partial_run ≡ true)
          × (¬ Misses cursor s → c.partial_run ≡ false)
          × ((k : Comment) → last? r.items ≡ some k → c.after ≡ some (keyset_of k))
          × (last? r.items ≡ none → c.after ≡ cursor.after))

-- A repository of comments gives no more than it is asked for.
abbrev pub KeepsLimit : {W : Type 0} → Ports W → TenantContext → Type 0
KeepsLimit ports c =
    (q : ListCommentsQuery) → Returns (λ page. length page.items ≤ q.limit) (ports.list_by_post c q)

not-true : (b : Bool) → not b ≡ true → b ≡ false
not-true true h = absurd (cc h)
not-true false h = refl

or_true : (b : Bool) → (b || true) ≡ true
or_true true = refl
or_true false = refl

module _ {W : Type 0} (ports : Ports W) (config : Config) where
  partial_run-Misses :
      (cursor : CommentCursor) (s : PostSnapshotState)
      → Misses cursor s
      → is_partial_run ports config cursor (is_none cursor.after) s ≡ true
  unfolding is_partial_run
  partial_run-Misses cursor s (inl (a, e)) = rw (a, e) refl
  partial_run-Misses cursor s (inr (a, p)) = elim (Option-cases cursor.after) [
    | inl e ↦ absurd (cc (rw e at a))
    | inr (k, e) ↦ rw (e, p) refl
  ]

  Misses-partial_run :
      (cursor : CommentCursor) (s : PostSnapshotState)
      → is_partial_run ports config cursor (is_none cursor.after) s ≡ true
      → Misses cursor s
  unfolding is_partial_run
  Misses-partial_run cursor s h = elim (Option-cases cursor.after) [
    | inl a ↦ inl (a, not-true s.exhausted (rw a at h))
    | inr (k, a) ↦ inr (rw a refl, rw a at h)
  ]

  complete_run :
      (cursor : CommentCursor) (s : PostSnapshotState)
      → cursor.after ≡ none
      → s.exhausted ≡ true
      → is_partial_run ports config cursor (is_none cursor.after) s ≡ false
  unfolding is_partial_run
  complete_run cursor s a e = rw (a, e) refl

  -- An answer is right, and changes nothing.
  pub answer-IsAnswer :
      (P : W → Type 0) (cursor : CommentCursor) (s : PostSnapshotState) (page : CommentPage)
      (limit : ℕ)
      → Ensures
          (λ w. P w × (length page.items ≤ limit))
          (λ r w. P w × IsAnswer config cursor limit s page r)
          (answer ports config cursor (is_none cursor.after) s page)
  unfolding answer pagination_of
  answer-IsAnswer P cursor s page limit =
      let flag = is_partial_run ports config cursor (is_none cursor.after) s in
      Ensures-bind _ _ (Ensures-of_Keeps _ (Keeps-lift _)) λ u. Ensures-pure _ λ w (p, l). (
        p,
        record {
          size = l;
          listed = refl;
          more_listed = λ h. rw h refl;
          undated = λ m. rw (partial_run-Misses cursor s m) refl;
          dated = λ a e. rw (complete_run cursor s a e) refl;
          unfinished = λ a e. rw e (or_true page.has_more);
          next = elim (Bool-cases (page.has_more || not s.exhausted)) [
            | inr none_left ↦ inl (none_left, rw (none_left) refl)
            | inl more ↦ inr (
              more,
              record { after = position_after (last? page.items) cursor.after; partial_run = flag },
              rw (more) refl,
              partial_run-Misses cursor s,
              (λ n. elim (Bool-cases flag) [
                | inl y ↦ absurd (n (Misses-partial_run cursor s y))
                | inr x ↦ x
              ]),
              (λ k e. rw (e) refl),
              λ e. rw e refl,
            )
          ];
        },
      )
