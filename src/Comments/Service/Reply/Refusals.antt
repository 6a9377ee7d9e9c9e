-- ===== src/Comments/Service/Reply/Refusals.antt =====
-- What the reply path never records.
use social_comments_service.Base.{refl, ◌≡◌}
use social_comments_service.Comments.Contracts.{Config, Ports}
use social_comments_service.Comments.Service.Replay.{
  expire, reconcile, recover, recover_from, replay,
}
use social_comments_service.Comments.Service.Reply.{
  find_target, orphan, proves_rejection, publish, refuse, reply_to_comment, reply_unless,
  start_reply,
}
use social_comments_service.Repositories.InMemory.Operations.{fail}
use social_comments_service.Shared.Exec.{Exec}
use social_comments_service.Shared.Text.{Text}
use social_comments_service.Shared.Types.{ReplyOperation, TenantContext}

module _ {W : Type 0} (ports : Ports W) (config : Config) (c : TenantContext) (i b key : Text) where
  -- The reply path never records an operation as failed: it behaves the same over any `fail`.
  pub never_fails :
      (fail : TenantContext → Text → Text → Exec W ReplyOperation) (w : W)
      → reply_to_comment ports config c i b key w
        ≡ reply_to_comment (record ports { fail = fail }) config c i b key w
  unfolding reply_to_comment reply_unless start_reply find_target publish refuse orphan
      proves_rejection replay recover recover_from reconcile expire
  never_fails fail w = refl
