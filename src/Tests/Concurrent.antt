-- ===== src/Tests/Concurrent.antt =====
-- Two requests with one key at the same time, over ports that keep one key: the second begins after
-- the first has claimed the key and before it asks for the publication.
use social_comments_service.Base.{
  Bool, List, [], ap, arith, false, none, not, refl, some, subst, suc, true, zero, ℕ, ◌+◌, ◌∙◌, ◌∷◌,
  ◌≡◌, ◌≤◌,
}
use social_comments_service.Comments.Contracts.{Ports, Provider}
use social_comments_service.Comments.Interference.{Shared, Turn, interfered}
use social_comments_service.Comments.Interference.Timelines.{
  ReplyRequest, Timeline, begins, calls_of, ended, goes, published_among_others,
}
use social_comments_service.Comments.Laws.{PortLaws, ProviderLaws}
use social_comments_service.Comments.Observation.{IsQuiet-pure, IsQuiet-throw, Observation}
use social_comments_service.Repositories.InMemory.Posts.{empty_snapshot}
use social_comments_service.Shared.Errors.{comment_not_found_thrown}
use social_comments_service.Shared.Exec.{Exec, ok, ok_injective, pure, throw}
use social_comments_service.Shared.Text.{units}
use social_comments_service.Shared.Types.{
  Comment, ObservedComment, ProviderCapability, ProviderReplyCommand, ReplyOperation,
  ReplyOperationClaim, TenantContext, facebook, pending,
}
use social_comments_service.Tests.Sample.{account, author, config, observed, post, program}

record OneKey : Type 0 where
  taken : Bool
  published : ℕ

abbrev V : Observation OneKey
V = record { IsTaken = λ a k w. w.taken ≡ true; publications = λ w. w.published }

abbrev sample_comment_shown : Comment
sample_comment_shown = record {
  id = units "c1";
  post_id = units "p1";
  platform = facebook;
  author = author;
  body = units "Hi";
  parent_comment_id = none;
  parent_unresolved = false;
  published_at = units "2026-01-02T00:00:00.000Z";
  updated_at = units "2026-01-02T00:00:00.000Z";
}

abbrev claim_key : TenantContext → ReplyOperation → Exec OneKey ReplyOperationClaim
claim_key c o w = (ok (record { operation = o; claimed = not w.taken }), record w { taken = true })

abbrev publish_one : ProviderReplyCommand → Exec OneKey ObservedComment
publish_one c w = (
  ok (observed "e2" "Thanks" (some c.parent_external_comment_id)),
  record w { published = w.published + 1 },
)

abbrev one_provider : Provider OneKey
one_provider = record {
  platform = facebook;
  capabilities = ProviderCapability.reply_to_comment ∷ [];
  list_page = λ q. throw comment_not_found_thrown;
  publish_reply = publish_one;
}

abbrev some_operation : ReplyOperation
some_operation = record {
  id = units "o1";
  account_id = units "a1";
  comment_id = units "c1";
  idempotency_key = units "k1";
  request_fingerprint = units "f";
  status = pending;
  resulting_comment_id = none;
  failure_code = none;
  lease_expires_at = units "2026-01-02T00:00:00.000Z";
  external_reply_id = none;
  created_at = units "2026-01-02T00:00:00.000Z";
  completed_at = none;
}

abbrev one_key_ports : Ports OneKey
one_key_ports = record {
  list_by_post = λ c q. pure (record { items = []; has_more = false });
  find_by_id = λ c i. pure (some sample_comment_shown);
  find_reply_by_external_id = λ c i e. pure none;
  resolve_external_id = λ c i. pure (some (units "e1"));
  store_published_reply = λ c o. pure sample_comment_shown;
  upsert_many = λ c os. pure [];
  find_published_by_id = λ c i. pure (some (record { post = post; snapshot = empty_snapshot }));
  save_snapshot_state = λ c i s e. pure true;
  find_by_idempotency_key = λ c k. pure none;
  claim = claim_key;
  record_published = λ c i e. pure some_operation;
  complete = λ c i e. pure some_operation;
  fail = λ c i e. pure some_operation;
  mark_unknown = λ c i e. pure none;
  provider_of = λ p. ok one_provider;
  now = pure 63951340020120;
  random_uuid = pure (units "o1");
}

one_provider-ProviderLaws : (r : Provider OneKey) → ok one_provider ≡ ok r → ProviderLaws V r
one_provider-ProviderLaws r h = subst (ProviderLaws V) (ok_injective one_provider r h) (record {
  list_page = λ q. IsQuiet-throw _;
  publish_reply = λ c. record { keeps = λ w a k t. t; single = λ w. omega arith };
})

not_taken : (b : Bool) → not b ≡ true → ¬ (b ≡ true)
not_taken b h t = ground arith

abbrev one_key_laws : PortLaws V one_key_ports
one_key_laws = record {
  list_by_post = λ c q. IsQuiet-pure _;
  find_by_id = λ c i. IsQuiet-pure _;
  find_reply_by_external_id = λ c i e. IsQuiet-pure _;
  resolve_external_id = λ c i. IsQuiet-pure _;
  store_published_reply = λ c o. IsQuiet-pure _;
  upsert_many = λ c os. IsQuiet-pure _;
  find_published_by_id = λ c i. IsQuiet-pure _;
  save_snapshot_state = λ c i s e. IsQuiet-pure _;
  find_by_idempotency_key = λ c k. IsQuiet-pure _;
  claim = λ c o. record { keeps = λ w a k t. refl; silent = λ w. refl };
  record_published = λ c i e. IsQuiet-pure _;
  complete = λ c i e. IsQuiet-pure _;
  fail = λ c i e. IsQuiet-pure _;
  mark_unknown = λ c i e. IsQuiet-pure _;
  provider_of = λ p r h. one_provider-ProviderLaws r h;
  now = IsQuiet-pure _;
  random_uuid = IsQuiet-pure _;
  claim_takes = λ c o w g h t. (
    refl,
    not_taken w.taken (
        ap (λ (x : ReplyOperationClaim). x.claimed)
          (ok_injective (record { operation = o; claimed = not w.taken }) g h)
        ∙ t),
  );
}

-- A turn of one request, for the other: it takes the key, or leaves the state as it is.
abbrev still : Turn V
still = record { apply = λ w. w; keeps = λ w a k t. t }

abbrev taking : Turn V
taking = record { apply = λ w. record w { taken = true }; keeps = λ w a k t. refl }

abbrev publishing : Turn V
publishing = record { apply = λ w. record w { published = w.published + 1 }; keeps = λ w a k t. t }

abbrev times : ℕ → ℕ × Turn V → List (ℕ × Turn V) → List (ℕ × Turn V)
times zero step earlier = earlier
times (suc n) step earlier = step ∷ times n step earlier

-- The calls of both, the latest first: six reads of the first and its claim, the eight calls of the
-- second, and the publication of the first with the three calls behind it.
abbrev steps : List (ℕ × Turn V)
steps =
    times 3 (1, still)
      ((1, publishing)
        ∷ (2, still)
        ∷ (2, taking)
        ∷ times 6 (2, still) ((1, taking) ∷ times 6 (1, still) []))

along : (s₀ : OneKey) → List (ℕ × Turn V) → (s : OneKey) × Timeline V s₀ s
along s₀ [] = (s₀, begins)
along s₀ ((i, turn) ∷ earlier) =
    let (s, t) = along s₀ earlier in (turn.apply s, goes t i (turn.keeps s))

abbrev untaken : OneKey
untaken = record { taken = false; published = 0 }

abbrev first_view : Shared V
first_view = record { state = untaken; turns = []; history = []; own = 0 }

abbrev second_view : Shared V
second_view = record { state = untaken; turns = taking ∷ []; history = []; own = 0 }

abbrev thanking : ReplyRequest
thanking = record { comment_id = units "c1"; body = units "Thanks" }

abbrev timeline : Timeline V untaken (along untaken steps).0
timeline = (along untaken steps).1

own_runs :
    ((ended one_key_ports config account (units "k1") thanking first_view).own ≡ 1)
    × ((ended one_key_ports config account (units "k1") thanking second_view).own ≡ 0)
unfolding program interfered pure throw
own_runs = (refl, refl)

first_calls :
    (ended one_key_ports config account (units "k1") thanking first_view).history
    ≡ calls_of V 1 timeline
unfolding program interfered calls_of along pure throw
first_calls = refl

second_calls :
    (ended one_key_ports config account (units "k1") thanking second_view).history
    ≡ calls_of V 2 timeline
unfolding program interfered calls_of along pure throw
second_calls = refl

published_among_others_example :
    (ended one_key_ports config account (units "k1") thanking first_view).own
      + (ended one_key_ports config account (units "k1") thanking second_view).own
    ≤ 1
published_among_others_example =
    published_among_others one_key_ports one_key_laws config account (units "k1") timeline 1 2
      thanking thanking first_view second_view (omega arith) refl refl first_calls second_calls
