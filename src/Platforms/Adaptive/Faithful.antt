-- ===== src/Platforms/Adaptive/Faithful.antt =====
-- What an adapter hands to the service, and how often it calls its client.
use social_comments_service.Base.{
  All, Bool, Bool-cases, Option, ap, arith, false, if◌then◌else◌, inl, inr, is_none, is_some, none,
  refl, some, true, ℕ, ◌&&◌, ◌+◌, ◌∙◌, ◌≡◌, ◌≢◌, ◌≤◌, ◌⊎◌,
}
use social_comments_service.Comments.Returns.{
  Returns, Returns-bind, Returns-bind-lift, Returns-pure, Returns-throw,
}
use social_comments_service.Platforms.Adaptive.{
  AdaptiveProviderAdapter, ExternalCommentRecord, ProviderPage, adapter_list_comments,
  adapter_reply_to_comment, authorised, supports, to_observed,
}
use social_comments_service.Platforms.Retry.{
  Operation, RetryPolicy, call_provider, provider_policies,
}
use social_comments_service.Platforms.Retry.Attempts.{counted, counted_once, write_once}
use social_comments_service.Repositories.InMemory.Operations.Settles.{lost}
use social_comments_service.Shared.Errors.{Thrown, provider_error_thrown}
use social_comments_service.Shared.Exec.{
  Result, Result-cases, err, lift, map_result, map_result-All, ok, pure, throw, ◌>>=◌,
}
use social_comments_service.Shared.Text.{Text, is_non_empty_string}
use social_comments_service.Shared.Types.{
  ObservedComment, Platform, ProviderCapability, ProviderCommentPage, ProviderListCommentsQuery,
  ProviderReplyCommand, PublishedPost, SocialConnection, platform_eq, platform_eq_sound,
}
use social_comments_service.Shared.Validation.{is_valid_observed_comment, validate_observed_comment}

-- An observation that the service may store for a post of a platform.
abbrev pub IsObservationOf : Platform → PublishedPost → ObservedComment → Type 0
IsObservationOf platform on_post o =
    (is_valid_observed_comment o ≡ true) × (o.post_id ≡ on_post.id) × (o.platform ≡ platform)

to_observed-IsObservationOf :
    (platform : Platform) (on_post : PublishedPost) (fallback : Option Text)
    (reported : ExternalCommentRecord) (o : ObservedComment)
    → to_observed platform on_post fallback reported ≡ ok o
    → IsObservationOf platform on_post o
unfolding to_observed validate_observed_comment
to_observed-IsObservationOf platform on_post fallback reported o h = ground arith

-- A page: observations of the post, and a cursor if there is more.
pub record IsFaithful (platform : Platform) (on_post : PublishedPost) (page : ProviderCommentPage)
    : Type 0 where
  pub items : All (IsObservationOf platform on_post) page.items
  pub cursor : page.has_more ≡ true → is_some page.next_provider_cursor ≡ true

has_cursor :
    (more : Bool) (next : Option Text)
    → (more && is_none next) ≡ false
    → more ≡ true
    → is_some next ≡ true
has_cursor more none h m = absurd (cc (rw (m) at h))
has_cursor more (some t) h m = refl

module _ {S : Type 0} (adapter : AdaptiveProviderAdapter S) where
  page_answer :
      (q : ProviderListCommentsQuery) (page : ProviderPage)
      → Returns {W = S} (IsFaithful adapter.platform q.post) (
          if page.has_more && is_none page.next_cursor then throw provider_error_thrown else do
            items ← lift (map_result (to_observed adapter.platform q.post none) page.items)
            pure (record {
              items = items;
              next_provider_cursor = page.next_cursor;
              has_more = page.has_more;
            }))
  page_answer q page = elim (Bool-cases (page.has_more && is_none page.next_cursor)) [
    | inl lost ↦ rw (lost) (Returns-throw provider_error_thrown)
    | inr sound ↦ rw (sound) (
        Returns-bind-lift _ _ λ observations e. Returns-pure _ (record {
          items =
              map_result-All (IsObservationOf adapter.platform q.post)
                (to_observed adapter.platform q.post none) page.items observations
                (to_observed-IsObservationOf adapter.platform q.post none) e;
          cursor = λ more. has_cursor page.has_more page.next_cursor sound more;
        }))
  ]

  -- Whatever the client answers, a page that the adapter returns has valid observations of the
  -- post that was asked for and of the adapter's platform alone, and says that there is more only
  -- with a cursor to go on from.
  pub adapter_list_comments-IsFaithful :
      (q : ProviderListCommentsQuery)
      → Returns (IsFaithful adapter.platform q.post) (adapter_list_comments adapter q)
  unfolding adapter_list_comments
  adapter_list_comments-IsFaithful q =
      Returns-bind _ _
        λ _. Returns-bind _ _ λ connection. Returns-bind _ _ λ page. page_answer q page

  -- A connection that names no credential, or no account, or another platform.
  abbrev pub IsUnfit : SocialConnection → Type 0
  IsUnfit c =
      (is_non_empty_string c.credential_reference ≡ false)
      ⊎ ((is_non_empty_string c.social_account_id ≡ false) ⊎ (c.platform ≢ adapter.platform))

  authorised-IsUnfit :
      (c : SocialConnection) → IsUnfit c → authorised adapter c ≡ err provider_error_thrown
  unfolding authorised
  authorised-IsUnfit c (inl x) = rw x refl
  authorised-IsUnfit c (inr (inl x)) = ground (arith, x)
  authorised-IsUnfit c (inr (inr n)) = elim (Bool-cases (platform_eq c.platform adapter.platform)) [
    | inl same ↦ absurd (n (platform_eq_sound c.platform adapter.platform same))
    | inr other ↦ ground (arith, other)
  ]

  -- A connection that names no credential, no account, or another platform than the adapter's does
  -- not reach the client, to read or to publish: the call throws and the client's state is as it
  -- was.
  pub unauthorised_unsent :
      (q : ProviderListCommentsQuery) (command : ProviderReplyCommand) (s : S)
      → IsUnfit q.connection
      → IsUnfit command.connection
      → ((e : Thrown) × (adapter_list_comments adapter q s ≡ (err e, s)))
        × ((e : Thrown) × (adapter_reply_to_comment adapter command s ≡ (err e, s)))
  unfolding adapter_list_comments adapter_reply_to_comment ◌>>=◌
  unauthorised_unsent q command s h k = (
    elim (Result-cases (supports adapter ProviderCapability.list_comments)) [
      | inl (f, x) ↦ (f, rw (x))
      | inr (u, x) ↦ (provider_error_thrown, rw (x, authorised-IsUnfit q.connection h))
    ],
    elim (Result-cases (supports adapter ProviderCapability.reply_to_comment)) [
      | inl (f, x) ↦ (f, rw (x))
      | inr (u, x) ↦ (provider_error_thrown, rw (x, authorised-IsUnfit command.connection k))
    ],
  )

  -- The adapter over a client whose calls are counted, under the policies that one for reads makes.
  abbrev pub counting : RetryPolicy → AdaptiveProviderAdapter (S × ℕ)
  counting read = record {
    platform = adapter.platform;
    capabilities = adapter.capabilities;
    policies = provider_policies read;
    client = record {
      list_comments = λ q. counted (adapter.client.list_comments q);
      reply_to_comment = λ c. counted (adapter.client.reply_to_comment c);
    };
  }

  written_once :
      {A : Type 0} (read : RetryPolicy) (operation : Operation S A) (g : A → Result ObservedComment)
      (w : S × ℕ)
      → ((call_provider (counted operation) (provider_policies read).write >>= λ a. lift (g a))
          w).1.1
        ≡ w.1 + 1
  unfolding ◌>>=◌
  written_once read operation g w =
      let once =
        ap (λ r. r.1.1) (write_once (counted operation) read w)
        ∙ counted_once operation read.timeout_ms w in
      elim (Result-cases (call_provider (counted operation) (provider_policies read).write w).0) [
        | inl (f, x) ↦ rw (x) once
        | inr (a, x) ↦ rw (x) once
      ]

  -- One publication calls the client once at most, whatever the client answers and whether or not
  -- it is late, under the policies that any policy for reads makes.
  pub published_once :
      (read : RetryPolicy) (command : ProviderReplyCommand) (w : S × ℕ)
      → (adapter_reply_to_comment (counting read) command w).1.1 ≤ w.1 + 1
  unfolding adapter_reply_to_comment ◌>>=◌
  published_once read command w =
      elim (Result-cases (supports (counting read) ProviderCapability.reply_to_comment)) [
        | inl (f, x) ↦ rw (x) (omega arith)
        | inr (u, x) ↦ elim (Result-cases (authorised (counting read) command.connection)) [
          | inl (f, y) ↦ rw (x, y) (omega arith)
          | inr (connection, y) ↦
              rw (x, y)
                (omega (
                  arith,
                  written_once read
                      (adapter.client.reply_to_comment (record {
                        connection = connection;
                        external_post_id = command.post.external_post_id;
                        external_comment_id = command.parent_external_comment_id;
                        body = command.body;
                      }))
                      (to_observed adapter.platform command.post
                        (some command.parent_external_comment_id))
                      w,
                ))
        ]
      ]
