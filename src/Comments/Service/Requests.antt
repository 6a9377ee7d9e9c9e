-- ===== src/Comments/Service/Requests.antt =====
-- Any sequence of requests to the service, one after another, over any ports.
pub mod Once
pub mod Kept
use social_comments_service.Base.{
  Bool, List, Option, [], false, if◌then◌else◌, ℕ, ◌&&◌, ◌+◌, ◌-◌, ◌∷◌,
}
use social_comments_service.Comments.Contracts.{Config, Ports}
use social_comments_service.Comments.Service.Hydration.{JoinOutcome}
use social_comments_service.Comments.Service.Listing.{ListCommentsRequest, list_comments}
use social_comments_service.Comments.Service.Reply.{reply_to_comment}
use social_comments_service.Shared.Text.{Text, text_eq}
use social_comments_service.Shared.Types.{TenantContext}

pub data Request : Type 0 where
  lists : TenantContext → Text → ListCommentsRequest → Option JoinOutcome → Request
  replies : TenantContext → Text → Text → Text → Request

-- A request to reply with one key of one tenant.
abbrev pub is_for : Text → Text → Request → Bool
is_for a k (lists _ _ _ _) = false
is_for a k (replies c _ _ key) = text_eq c.account_id a && text_eq key k

-- The tenant of a request.
abbrev pub context_of : Request → TenantContext
context_of (lists c _ _ _) = c
context_of (replies c _ _ _) = c

module _ {W : Type 0} (ports : Ports W) (config : Config) where
  -- The state after a request, whether it was answered or refused.
  unfoldable pub respond : Request → W → W
  respond (lists c post_id r in_flight) w = (list_comments ports config c post_id r in_flight w).1
  respond (replies c comment_id body key) w =
      (reply_to_comment ports config c comment_id body key w).1

  unfoldable pub respond_all : List Request → W → W
  respond_all [] w = w
  respond_all (r ∷ rs) w = respond_all rs (respond r w)

  -- The publications that the requests with one key of one tenant asked for, in a sequence.
  unfoldable pub published_for : (W → ℕ) → Text → Text → List Request → W → ℕ
  published_for count a k [] w = 0
  published_for count a k (r ∷ rs) w =
      let later = published_for count a k rs (respond r w) in
      if is_for a k r then count (respond r w) - count w + later else later
