-- ===== src/Comments/Service/Listing/Served.antt =====
-- The `try` block of `listComments`, where no other request advances the snapshot of the post.
use social_comments_service.Base.{
  Bool, Bool-cases, Option, ap, arith, false, if◌then◌else◌, inl, inr, is_none, length, none, refl,
  some, true, ℕ, ◌≡◌, ◌≤◌,
}
use social_comments_service.Comments.Contracts.{Config, Ports}
use social_comments_service.Comments.Ensures.{
  Ensures, Ensures-bind, Ensures-if, Ensures-of_Keeps, Ensures-pure, Ensures-start, Ensures-weaken,
}
use social_comments_service.Comments.Invariants.{Keeps, Keeps-bind, Keeps-if, Keeps-pure}
use social_comments_service.Comments.Service.Hydration.{
  HydrationOutcome, HydrationRequest, empty_snapshot_state, needs_hydration,
}
use social_comments_service.Comments.Service.Hydration.Ends.{
  IsFinished, SavesAlone, run_hydration-finishes,
}
use social_comments_service.Comments.Service.Listing.{advance, answer, serve, stale, stale_since}
use social_comments_service.Comments.Service.Listing.Runs.{IsAnswer, KeepsLimit, answer-IsAnswer}
use social_comments_service.Shared.Cursor.{CommentCursor}
use social_comments_service.Shared.Exec.{ok, ◌>>=◌}
use social_comments_service.Shared.Text.{Text}
use social_comments_service.Shared.Types.{
  CommentPage, ListCommentsQuery, ListCommentsResult, PostSnapshotState, PublishedPost,
  PublishedPostRecord, TenantContext,
}

needs-unfinished :
    (s : PostSnapshotState) (b : Bool) (returned limit : ℕ)
    → needs_hydration s b returned limit ≡ true
    → s.exhausted ≡ false
unfolding needs_hydration
needs-unfinished s b returned limit h = elim (Bool-cases s.exhausted) [
  | inr x ↦ x
  | inl x ↦ absurd (cc (rw (needs_hydration, x) at h))
]

-- A run that starts and reads no page of the provider has a snapshot that is not out of date.
kept_snapshot :
    (old : Bool) (s : PostSnapshotState) (returned limit : ℕ)
    → needs_hydration (if old then empty_snapshot_state else s) true returned limit ≡ false
    → (if old then empty_snapshot_state else s) ≡ s
unfolding needs_hydration
kept_snapshot true s returned limit h = absurd (cc h)
kept_snapshot false s returned limit h = refl

module _ {W : Type 0} (Stored : PostSnapshotState → W → Type 0) (ports : Ports W) (config : Config)
    (c : TenantContext) where
  -- A hydration that starts a run over a snapshot that is not complete has stored its state.
  finished_start :
      (post : PublishedPost) (request : HydrationRequest) (from : PostSnapshotState)
      (o : HydrationOutcome) (w : W)
      → from.exhausted ≡ false
      → request.starting_run ≡ true
      → IsFinished Stored ports c post request from o w
      → Stored o.state w
  finished_start post request from o w f t (inr st, y) = st
  finished_start post request from o w f t (inl (none_made, same), inl twenty) =
      absurd (omega (arith, none_made, twenty))
  finished_start post request from o w f t (inl (none_made, same), inr (inl x)) =
      absurd (cc (rw (same, f) at x))
  finished_start post request from o w f t (inl (none_made, same), inr (inr (x, y))) =
      absurd (cc (rw t at x))

  -- The state that the first page of a run is answered over is the one that is stored.
  abbrev Starts : CommentCursor → PostSnapshotState → W → Type 0
  Starts cursor s w = cursor.after ≡ none → Stored s w

  -- The page of a query that the last call has read.
  abbrev IsRead : ListCommentsQuery → CommentPage → W → Type 0
  IsRead q page w = (v : W) × (ports.list_by_post c q v ≡ (ok page, w))

  abbrev Reads : CommentCursor → ListCommentsQuery → PostSnapshotState → CommentPage → W → Type 0
  Reads cursor q s page w = (Starts cursor s w) × IsRead q page w

  -- What a request leaves: an answer over the state that is stored, where it starts a run, and over
  -- the page that was read last.
  abbrev pub IsServed : CommentCursor → ListCommentsQuery → ListCommentsResult → W → Type 0
  IsServed cursor q r w =
      (s : PostSnapshotState) × (page : CommentPage) × Reads cursor q s page w
      × IsAnswer config cursor q.limit s page r

  module _ (limited : KeepsLimit ports c) (found : PublishedPostRecord)
      (alone : SavesAlone Stored ports c found.post) (cursor : CommentCursor)
      (q : ListCommentsQuery) where
    stale_since-Keeps_stored :
        (s : PostSnapshotState) (t : Option Text) → Keeps (Stored s) (stale_since ports config t)
    stale_since-Keeps_stored s none = Keeps-pure _
    stale_since-Keeps_stored s (some t) = Keeps-bind _ _ (alone.now s) λ n. Keeps-pure _

    stale-Keeps_stored : (s state : PostSnapshotState) → Keeps (Stored s) (stale ports config state)
    unfolding stale
    stale-Keeps_stored s state =
        Keeps-if _ _ _ (Keeps-pure _) (stale_since-Keeps_stored s state.completed_at)

    list_by_post-IsRead :
        (P : W → Type 0)
        → Keeps P (ports.list_by_post c q)
        → Ensures P
            (λ page w. (P w × IsRead q page w) × (length page.items ≤ q.limit))
            (ports.list_by_post c q)
    list_by_post-IsRead P k = record {
      leaves = λ w page p e. (
        (k.kept w p, (w, ap (λ r. (r, (ports.list_by_post c q w).1)) e)),
        (limited q).at w page e,
      );
    }

    answer-IsServed :
        (s : PostSnapshotState) (page : CommentPage)
        → Ensures
            (λ w. Reads cursor q s page w × (length page.items ≤ q.limit))
            (IsServed cursor q)
            (answer ports config cursor (is_none cursor.after) s page)
    answer-IsServed s page =
        Ensures-weaken _ (λ r w (p, i). (s, page, p, i))
          (answer-IsAnswer ports config (Reads cursor q s page) cursor s page q.limit)

    page-IsServed :
        (s : PostSnapshotState)
        → Ensures (Starts cursor s) (IsServed cursor q) (
            ports.list_by_post c q >>= λ page.
            answer ports config cursor (is_none cursor.after) s page)
    page-IsServed s =
        Ensures-bind _ _
          (list_by_post-IsRead (Starts cursor s)
            (record { kept = λ w f a. (alone.list_by_post s q).kept w (f a) }))
          λ page. answer-IsServed s page

    advance-Starts :
        (from : PostSnapshotState) (returned : ℕ)
        → needs_hydration from (is_none cursor.after) returned q.limit ≡ true
        → Ensures (Stored found.snapshot) (Starts cursor) (
            advance ports config c found.post from found.snapshot
              (record { starting_run = is_none cursor.after; limit = q.limit; query = q })
              none)
    unfolding advance
    advance-Starts from returned needed =
        let request : HydrationRequest = record {
          starting_run = is_none cursor.after;
          limit = q.limit;
          query = q;
        } in
        Ensures-bind _ _
          (run_hydration-finishes ports c found.post alone request from found.snapshot)
          λ o. Ensures-pure _ λ w fin a.
            finished_start found.post request from o w (needs-unfinished from _ _ _ needed)
              (rw a refl) fin

    pub serve-IsServed :
        Ensures
          (Stored found.snapshot)
          (IsServed cursor q)
          (serve ports config c found cursor q none)
    unfolding serve
    serve-IsServed =
        Ensures-bind {Q = λ old w. Stored found.snapshot w} _ _
          (Ensures-of_Keeps _ (stale-Keeps_stored found.snapshot found.snapshot))
          λ old.
            let from = if old then empty_snapshot_state else found.snapshot in
            Ensures-bind _ _
              (list_by_post-IsRead (Stored found.snapshot) (alone.list_by_post found.snapshot q))
              λ page.
                Ensures-if _ _ _
                  (λ needed.
                    Ensures-bind {Q = Starts cursor} _ _
                      (Ensures-start _ (λ w ((p, x), l). p) (advance-Starts from _ needed))
                      (λ s. page-IsServed s))
                  (λ enough.
                    Ensures-start _
                      (λ w ((p, x), l). (
                        ((λ a. rw (kept_snapshot old found.snapshot _ _ (rw a at enough)) p), x),
                        l,
                      ))
                      (answer-IsServed from page))
