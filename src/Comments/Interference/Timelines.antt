-- ===== src/Comments/Interference/Timelines.antt =====
-- Requests that run at the same time, on one timeline of calls.
use social_comments_service.Base.{
  ==_iff, Bool-cases, List, [], arith, if◌then◌else◌, inl, inr, subst, sym, ℕ, ◌+◌, ◌==◌, ◌∙◌, ◌∷◌,
  ◌≡◌, ◌≢◌, ◌≤◌, ◌⊎◌,
}
use social_comments_service.Comments.Contracts.{Config, Ports}
use social_comments_service.Comments.Interference.{Shared, interfered_ports}
use social_comments_service.Comments.Interference.Laws.{Gain, reply-IsTracked_among_others}
use social_comments_service.Comments.Laws.{PortLaws}
use social_comments_service.Comments.Observation.{Observation}
use social_comments_service.Comments.Service.Reply.{reply_to_comment}
use social_comments_service.Shared.Text.{Text}
use social_comments_service.Shared.Types.{TenantContext}

module _ {W : Type 0} (v : Observation W) where
  -- The calls of all requests one after another, each tagged with its request. None releases a key.
  pub data Timeline (s₀ : W) : W → Type 0 where
    begins : Timeline s₀ s₀
    goes :
        {s s' : W}
        → Timeline s₀ s
        → ℕ
        → ((a k : Text) → v.IsTaken a k s → v.IsTaken a k s')
        → Timeline s₀ s'

  -- The calls of one request, the latest first.
  unfoldable pub calls_of : {s₀ s : W} → ℕ → Timeline s₀ s → List (W × W)
  calls_of i begins = []
  calls_of i (goes {s} {s'} t j keeps) =
      let earlier = calls_of i t in if j == i then (s, s') ∷ earlier else earlier

  -- One of the calls took a free key.
  abbrev pub Won : Text → Text → List (W × W) → Type 0
  Won a k [] = ⊥
  Won a k ((b, s) ∷ h) = (¬ v.IsTaken a k b × v.IsTaken a k s) ⊎ Won a k h

  abbrev pub winning : Gain v
  winning = record {
    Has = Won;
    kept = λ a k step h w. inr w;
    won = λ a k b s h free taken. inl (free, taken);
  }

  Won-taken :
      {s₀ s : W} (a k : Text) (i : ℕ) (t : Timeline s₀ s) → Won a k (calls_of i t) → v.IsTaken a k s
  unfolding calls_of
  Won-taken a k i begins w = absurd w
  Won-taken a k i (goes t j keeps) w = elim (Bool-cases (j == i)) [
    | inr x ↦ keeps a k (Won-taken a k i t (rw x at w))
    | inl x ↦ elim (rw x at w) [
      | inl (_, taken) ↦ taken
      | inr earlier ↦ keeps a k (Won-taken a k i t earlier)
    ]
  ]

  -- Two requests do not both take a key.
  Won-exclusive :
      {s₀ s : W} (a k : Text) (i j : ℕ) (t : Timeline s₀ s)
      → i ≢ j
      → Won a k (calls_of i t)
      → Won a k (calls_of j t)
      → ⊥
  unfolding calls_of
  Won-exclusive a k i j begins ne w u = w
  Won-exclusive a k i j (goes t l keeps) ne w u = elim (Bool-cases (l == i)) [
    | inl x ↦ elim (Bool-cases (l == j)) [
      | inl y ↦ ne (sym ((==_iff l i).0 x) ∙ (==_iff l j).0 y)
      | inr y ↦ elim (rw x at w) [
        | inl (free, _) ↦ free (Won-taken a k j t (rw y at u))
        | inr earlier ↦ Won-exclusive a k i j t ne earlier (rw y at u)
      ]
    ]
    | inr x ↦ elim (Bool-cases (l == j)) [
      | inl y ↦ elim (rw y at u) [
        | inl (free, _) ↦ free (Won-taken a k i t (rw x at w))
        | inr earlier ↦ Won-exclusive a k i j t ne (rw x at w) earlier
      ]
      | inr y ↦ Won-exclusive a k i j t ne (rw x at w) (rw y at u)
    ]
  ]

-- A request of a tenant to reply with a key.
pub record ReplyRequest : Type 0 where
  pub comment_id : Text
  pub body : Text

-- How a request ends that begins among others.
abbrev pub ended :
    {W : Type 0} {v : Observation W}
    → Ports W
    → Config
    → TenantContext
    → Text
    → ReplyRequest
    → Shared v
    → Shared v
ended ports config c key r w =
    (reply_to_comment (interfered_ports ports) config c r.comment_id r.body key w).1

module _ {W : Type 0} {v : Observation W} (ports : Ports W) (laws : PortLaws v ports)
    (config : Config) (c : TenantContext) (key : Text) where
  -- Of two requests with one key of a tenant that run at the same time, their calls and those of
  -- any others in whatever order, one at most asks for a publication, and for one.
  pub published_among_others :
      {s₀ s : W} (timeline : Timeline v s₀ s) (i j : ℕ) (r q : ReplyRequest) (w u : Shared v)
      → i ≢ j
      → w.own ≡ 0
      → u.own ≡ 0
      → (ended ports config c key r w).history ≡ calls_of v i timeline
      → (ended ports config c key q u).history ≡ calls_of v j timeline
      → (ended ports config c key r w).own + (ended ports config c key q u).own ≤ 1
  published_among_others timeline i j r q w u ne x y ri qj =
      let tr =
        reply-IsTracked_among_others (winning v) ports laws config c r.comment_id r.body key in
      let tq =
        reply-IsTracked_among_others (winning v) ports laws config c q.comment_id q.body key in
      let one = tr.single w in
      let other = tq.single u in
      elim (tr.tracked w) [
        | inl silent ↦ omega (arith, silent, other, x, y)
        | inr (_, won) ↦ elim (tq.tracked u) [
          | inl silent ↦ omega (arith, silent, one, x, y)
          | inr (_, won') ↦ absurd (
              Won-exclusive v c.account_id key i j timeline ne
                (subst (Won v c.account_id key) ri won) (subst (Won v c.account_id key) qj won'))
        ]
      ]
