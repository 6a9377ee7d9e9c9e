-- ===== src/Comments/Service/Requests/Kept.antt =====
-- What the ports keep in the contexts of the requests, a sequence of requests keeps.
use social_comments_service.Base.{All, List, [], ◌∷◌}
use social_comments_service.Comments.Contracts.{Config, Ports}
use social_comments_service.Comments.Invariants.{PortsKeep}
use social_comments_service.Comments.Invariants.Listing.{list_comments-Keeps}
use social_comments_service.Comments.Invariants.Reply.{reply_to_comment-Keeps}
use social_comments_service.Comments.Service.Requests.{
  Request, context_of, lists, replies, respond, respond_all,
}

module _ {W : Type 0} (P : W → Type 0) (ports : Ports W) (config : Config) where
  respond-Keeps :
      (r : Request) (w : W) → PortsKeep P ports (context_of r) → P w → P (respond ports config r w)
  unfolding respond
  respond-Keeps (lists c post_id q in_flight) w laws p =
      (list_comments-Keeps ports c laws config post_id q in_flight).kept w p
  respond-Keeps (replies c i body key) w laws p =
      (reply_to_comment-Keeps ports c laws config i body key).kept w p

  pub respond_all-Keeps :
      (rs : List Request) (w : W)
      → All (λ r. PortsKeep P ports (context_of r)) rs
      → P w
      → P (respond_all ports config rs w)
  unfolding respond_all
  respond_all-Keeps [] w laws p = p
  respond_all-Keeps (r ∷ rs) w (law, laws) p =
      respond_all-Keeps rs (respond ports config r w) laws (respond-Keeps r w law p)
