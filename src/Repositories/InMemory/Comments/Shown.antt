-- ===== src/Repositories/InMemory/Comments/Shown.antt =====
-- The identifiers of the comments that the class InMemoryCommentRepository returns.
use social_comments_service.Base.{Bool-cases, Option, arith, inl, inr, none, some, true, ◌≡◌}
use social_comments_service.Comments.Returns.{Returns, Returns-bind}
use social_comments_service.Repositories.InMemory.{Memory, StoredComment}
use social_comments_service.Repositories.InMemory.Comments.{
  existing_reply, store_published_reply, store_unless, to_comment,
}
use social_comments_service.Repositories.TenantScoped.{get}
use social_comments_service.Shared.Exec.{ok}
use social_comments_service.Shared.Text.{Text, is_non_empty_string, text_eq}
use social_comments_service.Shared.Types.{Comment, ObservedComment, TenantContext}
use social_comments_service.Shared.Validation.{
  assert_stored_comment, is_valid_comment, validate_comment,
}

pub stored_comment-shown :
    (d e : Comment) → assert_stored_comment d ≡ ok e → is_non_empty_string e.id ≡ true
unfolding assert_stored_comment validate_comment is_valid_comment
stored_comment-shown d e h = ground arith

-- What `toComment` returns has an identifier that is not blank.
pub to_comment-shown :
    (m : Memory) (a : Text) (s : StoredComment) (d : Comment)
    → to_comment m a s ≡ ok d
    → is_non_empty_string d.id ≡ true
unfolding to_comment
to_comment-shown m a s d h = stored_comment-shown _ d h

pub existing_reply-shown :
    (m : Memory) (a : Text) (o : ObservedComment) (e : Option StoredComment) (d : Comment)
    → existing_reply m a o e ≡ ok d
    → is_non_empty_string d.id ≡ true
unfolding existing_reply
existing_reply-shown m a o none d h = absurd (cc h)
existing_reply-shown m a o (some s) d h = elim (Bool-cases (text_eq s.observed.body o.body)) [
  | inl same ↦ to_comment-shown m a s d (rw (same) at h)
  | inr other ↦ absurd (cc (rw (other) at h))
]

pub store_unless-shown :
    (c : TenantContext) (o : ObservedComment) (known : Option Text)
    → Returns (λ s. is_non_empty_string s.id ≡ true) (store_unless c o known)
unfolding store_unless
store_unless-shown c o none =
    Returns-bind _ _ λ s. record { at = λ m d h. to_comment-shown m c.account_id s d h }
store_unless-shown c o (some i) = record {
  at = λ m d h. existing_reply-shown m c.account_id o (get m.by_id c.account_id i) d h;
}

pub store_published_reply-shown :
    (c : TenantContext) (o : ObservedComment)
    → Returns (λ s. is_non_empty_string s.id ≡ true) (store_published_reply c o)
unfolding store_published_reply
store_published_reply-shown c o = Returns-bind _ _ λ known. store_unless-shown c o known
