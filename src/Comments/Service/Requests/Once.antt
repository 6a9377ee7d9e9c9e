-- ===== src/Comments/Service/Requests/Once.antt =====
-- One key publishes once, over any ports with the laws.
use social_comments_service.Base.{
  Bool-cases, List, [], arith, inl, inr, refl, subst, true, ◌&&◌, ◌+◌, ◌∷◌, ◌≡◌, ◌≤◌, ◌⊎◌,
}
use social_comments_service.Comments.Contracts.{Config, Ports}
use social_comments_service.Comments.Laws.{PortLaws}
use social_comments_service.Comments.Observation.{IsTracked, Observation}
use social_comments_service.Comments.Service.Listing.Quiet.{list_comments-IsQuiet}
use social_comments_service.Comments.Service.Reply.{reply_to_comment}
use social_comments_service.Comments.Service.Reply.Once.{reply_to_comment-IsTracked}
use social_comments_service.Comments.Service.Requests.{
  Request, lists, published_for, replies, respond,
}
use social_comments_service.Shared.Text.{Text, text_eq}
use social_comments_service.Shared.Text.Order.{text_eq_both}
use social_comments_service.Shared.Types.{TenantContext}

module _ {W : Type 0} {v : Observation W} (ports : Ports W) (laws : PortLaws v ports)
    (config : Config) where
  respond-keeps :
      (r : Request) (w : W) (a k : Text)
      → v.IsTaken a k w
      → v.IsTaken a k (respond ports config r w)
  unfolding respond
  respond-keeps (lists c post_id r in_flight) w a k t =
      (list_comments-IsQuiet _ laws config c post_id r in_flight).keeps w a k t
  respond-keeps (replies c comment_id body key) w a k t =
      (reply_to_comment-IsTracked _ laws config c comment_id body key).keeps w a k t

  -- What one request with a key may do.
  module _ (c : TenantContext) (i b key a k : Text) (w : W)
      (same : (text_eq c.account_id a && text_eq key k) ≡ true) where
    tracked : IsTracked v a k (reply_to_comment ports config c i b key)
    tracked =
        let (ea, ek) = text_eq_both c.account_id a key k same in
        subst (λ (x : Text). IsTracked v x k (reply_to_comment ports config c i b key)) ea
          (subst
            (λ (x : Text). IsTracked v c.account_id x (reply_to_comment ports config c i b key)) ek
            (reply_to_comment-IsTracked _ laws config c i b key))

    single_request :
        v.publications (respond ports config (replies c i b key) w) ≤ v.publications w + 1
    unfolding respond
    single_request = tracked.single w

    tracked_request :
        (v.publications (respond ports config (replies c i b key) w) ≡ v.publications w)
        ⊎ v.IsTaken a k (respond ports config (replies c i b key) w)
    unfolding respond
    tracked_request = tracked.tracked w

    muted_request :
        v.IsTaken a k w
        → v.publications (respond ports config (replies c i b key) w) ≡ v.publications w
    unfolding respond
    muted_request t = tracked.muted w t

  -- Once a key is taken no request with it publishes.
  published_for_taken :
      (a k : Text) (rs : List Request) (w : W)
      → v.IsTaken a k w
      → published_for ports config v.publications a k rs w ≡ 0
  unfolding published_for
  published_for_taken a k [] w t = refl
  published_for_taken a k (lists c p r f ∷ rs) w t =
      published_for_taken a k rs _ (respond-keeps (lists c p r f) w a k t)
  published_for_taken a k (replies c i b key ∷ rs) w t =
      let later =
        published_for_taken a k rs (respond ports config (replies c i b key) w)
          (respond-keeps (replies c i b key) w a k t) in
      elim (Bool-cases (text_eq c.account_id a && text_eq key k)) [
        | inr other ↦ rw other later
        | inl same ↦ rw same (omega (arith, muted_request c i b key a k w same t, later))
      ]

  pub published_for_le_one :
      (a k : Text) (rs : List Request) (w : W)
      → published_for ports config v.publications a k rs w ≤ 1
  unfolding published_for
  published_for_le_one a k [] w = omega arith
  published_for_le_one a k (lists c p r f ∷ rs) w = published_for_le_one a k rs _
  published_for_le_one a k (replies c i b key ∷ rs) w =
      elim (Bool-cases (text_eq c.account_id a && text_eq key k)) [
        | inr other ↦ rw other (published_for_le_one a k rs _)
        | inl same ↦ elim (tracked_request c i b key a k w same) [
          | inl none' ↦ rw same (
              omega (
                arith,
                none',
                published_for_le_one a k rs (respond ports config (replies c i b key) w),
              ))
          | inr taken ↦ rw same (
              omega (
                arith,
                single_request c i b key a k w same,
                published_for_taken a k rs (respond ports config (replies c i b key) w) taken,
              ))
        ]
      ]
