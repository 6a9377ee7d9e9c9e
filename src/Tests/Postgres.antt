-- ===== src/Tests/Postgres.antt =====
-- The PostgreSQL composition at the sample.
use social_comments_service.Base.{All, [], length, none, refl, some, subst, ◌∷◌, ◌≡◌, ◌≢◌, ◌≤◌}
use social_comments_service.Comments.Laws.{PortLaws}
use social_comments_service.Comments.Service.Requests.{context_of, published_for}
use social_comments_service.Composition.Postgres.{Deployment, postgres_ports}
use social_comments_service.Composition.Postgres.Kept.{
  comment_kept, operation_kept, rows_isolated, tables_after,
}
use social_comments_service.Composition.Postgres.Lawful.{
  deployment_observation, postgres-PortLaws, published_at_most_once,
}
use social_comments_service.Repositories.Postgres.{CommentTuple, OperationRow, as_uuid}
use social_comments_service.Repositories.Postgres.Changes.Followed.{HasOutcome, SameClaim}
use social_comments_service.Repositories.Postgres.Changes.Rows.{
  SameComment, SameRows, comment_by_id,
}
use social_comments_service.Repositories.Postgres.Operations.{operation_by_key}
use social_comments_service.Shared.Exec.{ok, ok_injective}
use social_comments_service.Shared.Text.{Text, units}
use social_comments_service.Shared.Text.Order.{text_eq_ne}
use social_comments_service.Shared.Types.{failed}
use social_comments_service.Tests.Deployed.{
  account_a, account_b, comment_a, database, deployed_program, deployed_requests, deployment,
  engine, post_a, publishers, stored_comment, tables,
}
use social_comments_service.Tests.Sample.{config}

published_runs :
    published_for
      (postgres_ports engine publishers)
      config
      (λ w. length w.published)
      account_a
      (units "k1")
      deployed_requests
      deployment
    ≡ 1
unfolding deployed_program mathlib.Core.Option.bind
published_runs = refl

published_at_most_once_example :
    published_for
      (postgres_ports engine publishers)
      config
      (λ w. length w.published)
      account_a
      (units "k1")
      deployed_requests
      deployment
    ≤ 1
published_at_most_once_example =
    published_at_most_once engine config publishers account_a (units "k1") deployed_requests
      deployment

postgres-PortLaws_example :
    PortLaws (deployment_observation {S = Unit {0}} engine) (postgres_ports engine publishers)
postgres-PortLaws_example = postgres-PortLaws engine publishers

other_requests :
    All
      (λ r. (t : Text) → as_uuid engine (context_of r).account_id ≡ ok t → t ≢ account_b)
      deployed_requests
unfolding deployed_program
other_requests =
    let differs : account_a ≢ account_b = text_eq_ne account_a account_b refl in
    (
      λ t x. subst (λ (y : Text). y ≢ account_b) (ok_injective account_a t x) differs,
      (λ t x. subst (λ (y : Text). y ≢ account_b) (ok_injective account_a t x) differs, tt),
    )

rows_isolated_example :
    SameRows account_b tables (tables_after engine config publishers deployed_requests deployment)
rows_isolated_example =
    rows_isolated engine config publishers deployed_requests deployment account_b other_requests

sample_comment : comment_by_id tables comment_a ≡ some stored_comment
unfolding deployed_program comment_by_id
sample_comment = refl

comment_kept_example :
    (c' : CommentTuple) × (comment_by_id
        (tables_after engine config publishers deployed_requests deployment)
        comment_a
      ≡ some c')
    × SameComment stored_comment c'
comment_kept_example =
    comment_kept engine config publishers deployed_requests deployment comment_a stored_comment
      sample_comment

abbrev held_row : OperationRow
held_row = record {
  id = post_a;
  account_id = account_a;
  comment_id = comment_a;
  idempotency_key = units "k1";
  request_fingerprint = units "f";
  status = failed;
  resulting_comment_id = none;
  failure_code = some (units "PROVIDER_ERROR");
  lease_expires_at = 63951340020120000;
  external_reply_id = none;
  created_at = 63951340020120000;
  completed_at = some 63951340020120000;
}

abbrev held : Deployment (Unit {0})
held = record deployment {
  database = record database { tables = record tables { reply_operations = held_row ∷ [] } };
}

key_held : operation_by_key held.database.tables account_a (units "k1") ≡ some held_row
unfolding deployed_program
key_held = refl

operation_kept_example :
    (row' : OperationRow) × (operation_by_key
        (tables_after engine config publishers deployed_requests held)
        account_a
        (units "k1")
      ≡ some row')
    × SameClaim held_row row'
    × (HasOutcome held_row → row' ≡ held_row)
operation_kept_example =
    operation_kept engine config publishers deployed_requests held account_a (units "k1") held_row
      key_held
