-- ===== src/Tests/Operations.antt =====
-- The reply operations at the sample.
use social_comments_service.Base.{List, String, [], false, inl, none, refl, some, true, ◌∷◌, ◌≡◌}
use social_comments_service.Repositories.InMemory.{Memory, empty_memory}
use social_comments_service.Repositories.InMemory.Operations.{by_idempotency_key, claim}
use social_comments_service.Repositories.InMemory.Operations.Claims.{
  claim_once, final_unchanged, request_kept,
}
use social_comments_service.Repositories.InMemory.Operations.History.{History, IsBound, SameRequest}
use social_comments_service.Repositories.InMemory.Operations.Lifecycle.{
  Call, completes, fails, records, run_calls,
}
use social_comments_service.Repositories.TenantScoped.{set}
use social_comments_service.Shared.Exec.{ok}
use social_comments_service.Shared.Text.{units}
use social_comments_service.Shared.Types.{ReplyOperation, completed, pending}
use social_comments_service.Tests.Sample.{account, program, sources}

abbrev operation : String → ReplyOperation
operation id = record {
  id = units id;
  account_id = units "a1";
  comment_id = units "u0";
  idempotency_key = units "k1";
  request_fingerprint = units "f";
  status = pending;
  resulting_comment_id = none;
  failure_code = none;
  lease_expires_at = units "2026-01-03T00:00:00.000Z";
  external_reply_id = none;
  created_at = units "2026-01-02T00:00:00.000Z";
  completed_at = none;
}

abbrev before : Memory
before = empty_memory sources []

abbrev claimed : Memory
claimed = (claim account (operation "o1") before).1

abbrev calls : List Call
calls =
    records account (units "o1") (units "e2")
    ∷ completes account (units "o1") (units "u1")
    ∷ fails account (units "o1") (units "X")
    ∷ []

granted :
    claim account (operation "o1") before
    ≡ (ok (record { operation = operation "o1"; claimed = true }), claimed)
unfolding program
granted = refl

bound : IsBound claimed (units "a1") (units "k1") (units "o1") (operation "o1")
unfolding program
bound = record { key = refl; row = refl; valid = refl }

claim_once_example :
    (q : ReplyOperation) × History (operation "o1") q
    × (claim account (operation "o2") (run_calls calls claimed)
        ≡ (ok (record { operation = q; claimed = false }), run_calls calls claimed))
claim_once_example =
    claim_once account (operation "o1") before claimed (operation "o1") calls (operation "o2")
      granted (tt, (tt, (tt, tt))) refl

request_kept_example :
    (q : ReplyOperation) × (by_idempotency_key (run_calls calls claimed) (units "a1") (units "k1")
      ≡ ok (some q))
    × SameRequest (operation "o1") q
request_kept_example =
    request_kept calls claimed (units "a1") (units "k1") (units "o1") (operation "o1")
      (tt, (tt, (tt, tt))) bound

abbrev finished : ReplyOperation
finished = record (operation "o1") {
  status = completed;
  resulting_comment_id = some (units "u1");
  completed_at = some (units "2026-01-02T00:00:01.000Z");
}

abbrev settled : Memory
settled = record claimed { operations = set claimed.operations (units "a1") (units "o1") finished }

settled-IsBound : IsBound settled (units "a1") (units "k1") (units "o1") finished
unfolding program
settled-IsBound = record { key = refl; row = refl; valid = refl }

final_unchanged_example :
    by_idempotency_key (run_calls calls settled) (units "a1") (units "k1") ≡ ok (some finished)
final_unchanged_example =
    final_unchanged calls settled (units "a1") (units "k1") (units "o1") finished
      (tt, (tt, (tt, tt))) settled-IsBound (inl refl)
