-- ===== src/Composition/Answers.antt =====
-- The answers of `listComments` over the in-memory composition of src/index.ts.
use social_comments_service.Base.{
  Bool-cases, Option, Option-cases, ap, inl, inr, none, refl, some, sym, ◌∙◌, ◌≡◌,
}
use social_comments_service.Comments.Contracts.{Config, Provider}
use social_comments_service.Comments.Ensures.{
  Ensures, Ensures-bind, Ensures-lift, Ensures-of_Keeps, Ensures-pure, Ensures-throw,
}
use social_comments_service.Comments.Invariants.{Keeps-lift}
use social_comments_service.Comments.Service.Listing.{ListCommentsRequest, list_comments, serve}
use social_comments_service.Comments.Service.Listing.Runs.{IsAnswer, KeepsLimit}
use social_comments_service.Comments.Service.Listing.Served.{serve-IsServed}
use social_comments_service.Comments.Service.Reply.{or_throw}
use social_comments_service.Composition.{World, in_memory_ports, on_memory}
use social_comments_service.Composition.Hydrated.{in_memory-SavesAlone}
use social_comments_service.Repositories.InMemory.{Memory}
use social_comments_service.Repositories.InMemory.Comments.{list_by_post}
use social_comments_service.Repositories.InMemory.Comments.Limits.{
  list_by_post-limit, list_by_post-same,
}
use social_comments_service.Repositories.InMemory.Posts.{
  find_published_by_id, published_record, snapshot_of,
}
use social_comments_service.Repositories.InMemory.Snapshots.{HasSnapshot}
use social_comments_service.Repositories.TenantScoped.{lookup}
use social_comments_service.Shared.Cursor.{CommentCursor, decode_cursor}
use social_comments_service.Shared.Errors.{Thrown}
use social_comments_service.Shared.Exec.{ok}
use social_comments_service.Shared.Text.{Text, text_eq}
use social_comments_service.Shared.Text.Order.{text_eq_iff}
use social_comments_service.Shared.Types.{
  CommentPage, ListCommentsQuery, ListCommentsResult, Platform, PostSnapshotState, PublishedPost,
  PublishedPostRecord, TenantContext,
}

read_again :
    {S : Type 0} (c : TenantContext) (q : ListCommentsQuery) (v after : World S)
    (page : CommentPage)
    → on_memory (list_by_post c q) v ≡ (ok page, after)
    → list_by_post c q after.memory ≡ (ok page, after.memory)
unfolding on_memory
read_again c q v after page e =
    let result : (list_by_post c q v.memory).0 ≡ ok page = ap (λ x. x.0) e in
    let left : (list_by_post c q v.memory).1 ≡ after.memory = ap (λ x. x.1.memory) e in
    let kept = (list_by_post-same v.memory c q).kept v.memory refl in
    let same : after.memory ≡ v.memory = cc (left, kept) in rw same (λ i. (result i, kept i))

-- The composition gives no more comments than it is asked for.
in_memory-KeepsLimit :
    {S : Type 0} (providers : Platform → Option (Provider S)) (c : TenantContext)
    → KeepsLimit (in_memory_ports providers) c
unfolding on_memory
in_memory-KeepsLimit providers c q = record {
  at = λ w a e. (list_by_post-limit c q).at w.memory a e;
}

at_same_id :
    (c : TenantContext) (m : Memory) {s : PostSnapshotState} (i j : Text)
    → i ≡ j
    → HasSnapshot c i s m
    → HasSnapshot c j s m
at_same_id c m i j same h = rw (sym same) h

published_record-is :
    (m : Memory) (a i : Text) (f : PublishedPostRecord)
    → published_record m a i ≡ some f
    → (lookup i m.posts ≡ some f.post) × (f.post.account_id ≡ a) × (snapshot_of m a i ≡ f.snapshot)
unfolding published_record mathlib.Core.Option.bind
published_record-is m a i f e = elim (Option-cases (lookup i m.posts)) [
  | inl n ↦ absurd (cc (rw n at e))
  | inr (p, l) ↦ elim (Bool-cases (text_eq p.account_id a)) [
    | inl t ↦
        let same : record { post = p; snapshot = snapshot_of m a i } ≡ f = cc (rw (l, t) at e) in
        (
          rw l (ap (λ g. some g.post) same),
          sym (ap (λ g. g.post.account_id) same) ∙ (text_eq_iff p.account_id a).0 t,
          ap (λ g. g.snapshot) same,
        )
    | inr t ↦ absurd (cc (rw (l, t) at e))
  ]
]

module _ {S : Type 0} (providers : Platform → Option (Provider S)) (config : Config)
    (c : TenantContext) (post_id : Text) where
  -- The posts stand under their own identifiers.
  abbrev pub HasOwnId : World S → Type 0
  HasOwnId w = (p : PublishedPost) → lookup post_id w.memory.posts ≡ some p → p.id ≡ post_id

  -- The post asked for, which is one of the tenant.
  abbrev IsPost : World S → PublishedPost → Type 0
  IsPost start post =
      (lookup post_id start.memory.posts ≡ some post) × (post.account_id ≡ c.account_id)

  -- The answer to a request is one over the snapshot that is stored then, where it starts a run,
  -- and over the page of the post's comments behind its cursor that is read last.
  abbrev pub IsListed : World S → ListCommentsRequest → ListCommentsResult → World S → Type 0
  IsListed start request r w =
      (post : PublishedPost) × IsPost start post
      × (q : ListCommentsQuery) × (q.post_id ≡ post_id)
      × (q.platform ≡ post.platform)
      × (q.limit ≡ request.limit)
      × (cursor : CommentCursor) × (decode_cursor config.codec request.cursor ≡ ok cursor)
      × (q.after ≡ cursor.after)
      × (s : PostSnapshotState) × (cursor.after ≡ none
          → snapshot_of w.memory c.account_id post_id ≡ s)
      × (page : CommentPage) × (list_by_post c q w.memory ≡ (ok page, w.memory))
      × IsAnswer config cursor request.limit s page r

  abbrev Found : World S → Option PublishedPostRecord → World S → Type 0
  Found start none w = Unit {0}
  Found start (some f) w =
      (f.post.id ≡ post_id)
      × (snapshot_of w.memory c.account_id post_id ≡ f.snapshot)
      × IsPost start f.post

  published_record-Found :
      (w : World S) (r : Option PublishedPostRecord)
      → HasOwnId w
      → published_record w.memory c.account_id post_id ≡ r
      → Found w r w
  published_record-Found w none own e = tt
  published_record-Found w (some f) own e =
      let (l, t, s) = published_record-is w.memory c.account_id post_id f e in
      (own f.post l, s, (l, t))

  find_published_by_id-Found :
      (start : World S)
      → HasOwnId start
      → Ensures (λ w. w ≡ start) (Found start) (on_memory (find_published_by_id c post_id))
  unfolding on_memory find_published_by_id
  find_published_by_id-Found start own = record {
    leaves = λ w r same e. rw same (published_record-Found start r own (cc (rw same at e)));
  }

  or_throw-Found :
      (start : World S) (e : Thrown) (r : Option PublishedPostRecord)
      → Ensures
          (Found start r)
          (λ f w. Found start (some f) w)
          (or_throw (in_memory_ports providers) e r)
  or_throw-Found start e none = Ensures-throw e
  or_throw-Found start e (some f) = Ensures-pure f λ w p. p

  -- Over the in-memory composition, if the post asked for stands under its own identifier and no
  -- hydration runs for it on the instance when the request comes, an answer that listComments
  -- returns follows from the cursor that the request's text decodes to, from the page that the
  -- repository lists for the post, which is one of the tenant, and for its platform, behind that
  -- cursor when the request is answered, and from a snapshot state: for a request without a
  -- position (the start of a run), the one that is stored for the post then. The run misses
  -- comments if it starts over a state that is not exhausted, or if its cursor has a position and
  -- says that it misses comments. The answer has the comments of the page, and no more than the
  -- limit; it has no date if the run misses comments, and the date of the state if the run starts
  -- over an exhausted one; there is more if the page has more, or if the run starts over a state
  -- that is not exhausted. It has a cursor exactly if there is more, which stands at the last
  -- comment of the answer, or, if it has none, where the request stood, and says that the run
  -- misses comments exactly if it does.
  pub list_comments-IsListed :
      (request : ListCommentsRequest) (w : World S) (r : ListCommentsResult)
      → HasOwnId w
      → (list_comments (in_memory_ports providers) config c post_id request none w).0 ≡ ok r
      → IsListed w request r
          (list_comments (in_memory_ports providers) config c post_id request none w).1
  unfolding list_comments
  list_comments-IsListed request w r own e =
      let served : Ensures (λ v. v ≡ w) (IsListed w request)
          (list_comments (in_memory_ports providers) config c post_id request none) =
        Ensures-bind _ _ (find_published_by_id-Found w own) λ r.
          Ensures-bind _ _ (or_throw-Found w _ r) λ f. Ensures-bind _ _ (Ensures-lift _) λ cursor.
            Ensures-bind _ _ (Ensures-of_Keeps _ (Keeps-lift _)) λ u. record {
              leaves = λ v answered ((same, stored, found), decoded) e.
                  let after = (serve (in_memory_ports providers) config c f cursor _ none v).1 in
                  let (s, page, (starts, read), right) =
                    (serve-IsServed _ (in_memory_ports providers) config c
                        (in_memory-KeepsLimit providers c) f
                        (in_memory-SavesAlone providers c f.post) cursor _).leaves
                      v answered (at_same_id c v.memory _ _ (sym same) stored) e in
                  (
                    f.post,
                    found,
                    _,
                    refl,
                    refl,
                    refl,
                    cursor,
                    decoded,
                    refl,
                    s,
                    (λ a. at_same_id c after.memory _ _ same (starts a)),
                    page,
                    read_again c _ read.0 after page read.1,
                    right,
                  );
            } in
      served.leaves w r refl e
