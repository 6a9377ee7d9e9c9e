-- ===== src/Comments/Invariants.antt =====
-- A predicate of the state that every call of a port keeps, in one tenant's context, the service
-- keeps: the rules, and what is asked of the ports.
pub mod Reply
pub mod Listing
use social_comments_service.Base.{Bool, List, false, if◌then◌else◌, refl, true, ◌≡◌}
use social_comments_service.Comments.Contracts.{Ports, Provider}
use social_comments_service.Comments.Returns.{Returns}
use social_comments_service.Platforms.Adaptive.{provider_of}
use social_comments_service.Repositories.InMemory.{random_uuid}
use social_comments_service.Repositories.InMemory.Comments.{
  find_by_id, find_reply_by_external_id, list_by_post, resolve_external_id, store_published_reply,
  upsert_many,
}
use social_comments_service.Repositories.InMemory.Operations.{
  claim, complete, fail, find_by_idempotency_key, mark_unknown, record_published,
}
use social_comments_service.Repositories.InMemory.Posts.{find_published_by_id, save_snapshot_state}
use social_comments_service.Shared.Errors.{Thrown}
use social_comments_service.Shared.Exec.{
  Exec, Result, catch, err, handle, lift, ok, pure, throw, ◌>>=◌,
}
use social_comments_service.Shared.Text.{Text}
use social_comments_service.Shared.Types.{
  ListCommentsQuery, ObservedComment, Platform, PostSnapshotState, ProviderListCommentsQuery,
  ProviderReplyCommand, ReplyOperation, TenantContext,
}

pub record Keeps {W : Type 0} (P : W → Type 0) {A : Type 0} (m : Exec W A) : Type 0 where
  pub kept : (w : W) → P w → P (m w).1

module _ {W : Type 0} {P : W → Type 0} where
  module _ {A : Type 0} where
    pub Keeps-pure : (a : A) → Keeps P (pure {W = W} a)
    unfolding pure
    Keeps-pure a = record { kept = λ w p. p }

    pub Keeps-throw : (e : Thrown) → Keeps P (throw {W = W} {A = A} e)
    unfolding throw
    Keeps-throw e = record { kept = λ w p. p }

    pub Keeps-lift : (r : Result A) → Keeps P (lift {W = W} r)
    unfolding lift
    Keeps-lift r = record { kept = λ w p. p }

    pub Keeps-if :
        (b : Bool) (m n : Exec W A) → Keeps P m → Keeps P n → Keeps P (if b then m else n)
    Keeps-if true m n p q = p
    Keeps-if false m n p q = q

    handle-Keeps :
        (r : Result A) (h : Thrown → Exec W A)
        → ((e : Thrown) → Keeps P (h e))
        → Keeps P (handle r h)
    handle-Keeps (ok a) h q = record { kept = λ w p. p }
    handle-Keeps (err e) h q = q e

    pub Keeps-catch :
        (m : Exec W A) (h : Thrown → Exec W A)
        → Keeps P m
        → ((e : Thrown) → Keeps P (h e))
        → Keeps P (catch m h)
    unfolding catch
    Keeps-catch m h p q = record {
      kept = λ w x. (handle-Keeps (m w).0 h q).kept (m w).1 (p.kept w x);
    }

  module _ {A B : Type 0} where
    pub Keeps-bind-lift :
        (r : Result A) (f : A → Exec W B)
        → ((a : A) → r ≡ ok a → Keeps P (f a))
        → Keeps P (lift r >>= f)
    unfolding ◌>>=◌
    Keeps-bind-lift (ok a) f q = q a refl
    Keeps-bind-lift (err e) f q = Keeps-throw e

    pub Keeps-bind :
        (m : Exec W A) (f : A → Exec W B)
        → Keeps P m
        → ((a : A) → Keeps P (f a))
        → Keeps P (m >>= f)
    unfolding ◌>>=◌
    Keeps-bind m f p q = record {
      kept = λ w x. (Keeps-bind-lift (m w).0 f (λ a _. q a)).kept (m w).1 (p.kept w x);
    }

    -- The rest of the action may use what the first part returns.
    pub Keeps-bind_of :
        {Q : A → Type 0} (m : Exec W A) (f : A → Exec W B)
        → Keeps P m
        → Returns Q m
        → ((a : A) → Q a → Keeps P (f a))
        → Keeps P (m >>= f)
    unfolding ◌>>=◌
    Keeps-bind_of m f p r q = record {
      kept = λ w x. (Keeps-bind-lift (m w).0 f (λ a e. q a (r.at w a e))).kept (m w).1 (p.kept w x);
    }

pub ruleset keeps_rules = (Keeps-pure, Keeps-throw, Keeps-lift, Keeps-if, Keeps-catch, Keeps-bind)

-- Every method of a provider keeps the predicate.
pub record ProviderKeeps {W : Type 0} (P : W → Type 0) (p : Provider W) : Type 0 where
  pub list_page : (q : ProviderListCommentsQuery) → Keeps P (p.list_page q)
  pub publish_reply : (c : ProviderReplyCommand) → Keeps P (p.publish_reply c)

-- Every method of the ports keeps it, in one context.
pub record PortsKeep {W : Type 0} (P : W → Type 0) (ports : Ports W) (c : TenantContext)
    : Type 0 where
  pub list_by_post : (q : ListCommentsQuery) → Keeps P (ports.list_by_post c q)
  pub find_by_id : (i : Text) → Keeps P (ports.find_by_id c i)
  pub find_reply_by_external_id : (i e : Text) → Keeps P (ports.find_reply_by_external_id c i e)
  pub resolve_external_id : (i : Text) → Keeps P (ports.resolve_external_id c i)
  pub store_published_reply : (o : ObservedComment) → Keeps P (ports.store_published_reply c o)
  pub upsert_many : (os : List ObservedComment) → Keeps P (ports.upsert_many c os)
  pub find_published_by_id : (i : Text) → Keeps P (ports.find_published_by_id c i)
  pub save_snapshot_state :
      (i : Text) (s e : PostSnapshotState) → Keeps P (ports.save_snapshot_state c i s e)
  pub find_by_idempotency_key : (k : Text) → Keeps P (ports.find_by_idempotency_key c k)
  pub claim : (o : ReplyOperation) → Keeps P (ports.claim c o)
  pub record_published : (i e : Text) → Keeps P (ports.record_published c i e)
  pub complete : (i e : Text) → Keeps P (ports.complete c i e)
  pub fail : (i e : Text) → Keeps P (ports.fail c i e)
  pub mark_unknown : (i e : Text) → Keeps P (ports.mark_unknown c i e)
  pub provider_of : (p : Platform) (r : Provider W) → ports.provider_of p ≡ ok r → ProviderKeeps P r
  pub now : Keeps P ports.now
  pub random_uuid : Keeps P ports.random_uuid
