-- ===== src/Comments/Interference.antt =====
-- Requests that run at the same time: a request of src/comments/comment-service.ts gives way to the
-- others at each call of a port, whose effect is one step of the shared state.
pub mod Laws
pub mod Timelines
use social_comments_service.Base.{List, [], ℕ, ◌+◌, ◌-◌, ◌∷◌}
use social_comments_service.Comments.Contracts.{Ports, Provider}
use social_comments_service.Comments.Observation.{Observation}
use social_comments_service.Shared.Exec.{Exec, Result, err, ok}
use social_comments_service.Shared.Text.{Text}

module _ {W : Type 0} where
  -- What other requests do between two calls of one. They release no idempotency key.
  pub record Turn (v : Observation W) : Type 0 where
    pub apply : W → W
    pub keeps : (w : W) (a k : Text) → v.IsTaken a k w → v.IsTaken a k (apply w)

  -- The shared state, what the others will do before each of the calls to come, the state before
  -- and after each call that the request has made, the latest first, and the replies that it has
  -- asked a provider to publish.
  pub record Shared (v : Observation W) : Type 0 where
    pub state : W
    pub turns : List (Turn v)
    pub history : List (W × W)
    pub own : ℕ

  module _ {v : Observation W} where
    -- The others' next turn, if they make one.
    abbrev pub next_state : W → List (Turn v) → W
    next_state w [] = w
    next_state w (turn ∷ _) = turn.apply w

    abbrev pub later_turns : List (Turn v) → List (Turn v)
    later_turns [] = []
    later_turns (_ ∷ turns) = turns

    -- A call of a port, after a turn of the others.
    unfoldable pub interfered : {A : Type 0} → Exec W A → Exec (Shared v) A
    interfered m w =
        let before = next_state w.state w.turns in
        let (r, state) = m before in
        (
          r,
          record {
            state = state;
            turns = later_turns w.turns;
            history = (before, state) ∷ w.history;
            own = w.own + (v.publications state - v.publications before);
          },
        )

    abbrev pub interfered_provider : Provider W → Provider (Shared v)
    interfered_provider p = record {
      platform = p.platform;
      capabilities = p.capabilities;
      list_page = λ q. interfered (p.list_page q);
      publish_reply = λ c. interfered (p.publish_reply c);
    }

    abbrev pub interfered_result : Result (Provider W) → Result (Provider (Shared v))
    interfered_result (ok p) = ok (interfered_provider p)
    interfered_result (err e) = err e

    -- The ports as a request sees them among others.
    abbrev pub interfered_ports : Ports W → Ports (Shared v)
    interfered_ports ports = record {
      list_by_post = λ c q. interfered (ports.list_by_post c q);
      find_by_id = λ c i. interfered (ports.find_by_id c i);
      find_reply_by_external_id = λ c i e. interfered (ports.find_reply_by_external_id c i e);
      resolve_external_id = λ c i. interfered (ports.resolve_external_id c i);
      store_published_reply = λ c o. interfered (ports.store_published_reply c o);
      upsert_many = λ c os. interfered (ports.upsert_many c os);
      find_published_by_id = λ c i. interfered (ports.find_published_by_id c i);
      save_snapshot_state = λ c i s e. interfered (ports.save_snapshot_state c i s e);
      find_by_idempotency_key = λ c k. interfered (ports.find_by_idempotency_key c k);
      claim = λ c o. interfered (ports.claim c o);
      record_published = λ c i e. interfered (ports.record_published c i e);
      complete = λ c i e. interfered (ports.complete c i e);
      fail = λ c i e. interfered (ports.fail c i e);
      mark_unknown = λ c i e. interfered (ports.mark_unknown c i e);
      provider_of = λ p. interfered_result (ports.provider_of p);
      now = interfered ports.now;
      random_uuid = interfered ports.random_uuid;
    }
