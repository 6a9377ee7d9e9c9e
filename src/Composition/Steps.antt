-- ===== src/Composition/Steps.antt =====
-- The outcomes of an action on the in-memory composition, by what it leaves of one operation.
use social_comments_service.Base.{inl, inr, refl, some, ◌≡◌, ◌⊎◌}
use social_comments_service.Comments.Returns.{Returns}
use social_comments_service.Composition.{World}
use social_comments_service.Repositories.InMemory.{Memory}
use social_comments_service.Repositories.InMemory.Operations.Settles.{IsPendingAt}
use social_comments_service.Repositories.TenantScoped.{get}
use social_comments_service.Shared.Errors.{Thrown}
use social_comments_service.Shared.Exec.{Exec, Result, Result-cases, catch, err, ok, ◌>>=◌}
use social_comments_service.Shared.Text.{Text}
use social_comments_service.Shared.Types.{
  Comment, ReplyOperation, TenantContext, completed, unknown,
}

-- The operation is pending and may still move.
unfoldable pub IsOpen : {S : Type 0} → TenantContext → Text → World S → Type 0
IsOpen c id w = (o : ReplyOperation) × IsPendingAt w.memory c.account_id id o

-- The operation is recorded as unknown.
abbrev pub IsUnknown : Memory → Text → Text → Type 0
IsUnknown m a id = (q : ReplyOperation) × (get m.operations a id ≡ some q) × (q.status ≡ unknown)

-- A reply was returned and the operation is completed with it, or the request threw and the
-- operation is unknown.
abbrev pub IsSettled : Memory → Text → Text → Result Comment → Type 0
IsSettled m a id r =
    ((s : Comment) × (q : ReplyOperation) × (r ≡ ok s)
      × (get m.operations a id ≡ some q)
      × (q.status ≡ completed)
      × (q.resulting_comment_id ≡ some s.id))
    ⊎ ((e : Thrown) × (r ≡ err e) × IsUnknown m a id)

module _ {S : Type 0} (c : TenantContext) (id : Text) where
  -- An action that returns with the operation still pending, or throws with it unknown.
  pub record Steps {A : Type 0} (P : A → Type 0) (m : Exec (World S) A) : Type 0 where
    pub at :
        (w : World S)
        → IsOpen c id w
        → ((a : A) × ((m w).0 ≡ ok a) × P a × IsOpen c id (m w).1)
          ⊎ ((e : Thrown) × ((m w).0 ≡ err e) × IsUnknown (m w).1.memory c.account_id id)

  pub record Settles (m : Exec (World S) Comment) : Type 0 where
    pub at : (w : World S) → IsOpen c id w → IsSettled (m w).1.memory c.account_id id (m w).0

  pub Steps-bind :
      {A : Type 0} {P : A → Type 0} (m : Exec (World S) A) (f : A → Exec (World S) Comment)
      → Steps P m
      → ((a : A) → P a → Settles (f a))
      → Settles (m >>= f)
  unfolding ◌>>=◌
  Steps-bind m f p q = record {
    at = λ w h. elim (p.at w h) [
      | inl (a, r, pa, o) ↦ rw (r) ((q a pa).at (m w).1 o)
      | inr (e, r, u) ↦ rw (r) (inr (e, refl, u))
    ];
  }

  pub bind-IsOpen :
      {A B : Type 0} (m : Exec (World S) A) (f : A → Exec (World S) B)
      → ((w : World S) → IsOpen c id w → IsOpen c id (m w).1)
      → ((a : A) (w : World S) → IsOpen c id w → IsOpen c id (f a w).1)
      → (w : World S) → IsOpen c id w
      → IsOpen c id ((m >>= f) w).1
  unfolding ◌>>=◌
  bind-IsOpen m f p q w h = elim (Result-cases (m w).0) [
    | inr (a, x) ↦ rw (x) (q a (m w).1 (p w h))
    | inl (e, x) ↦ rw (x) (p w h)
  ]

  pub Steps-catch :
      {A : Type 0} {P : A → Type 0} (m : Exec (World S) A) (handler : Thrown → Exec (World S) A)
      → ((w : World S) → IsOpen c id w → IsOpen c id (m w).1)
      → Returns P m
      → ((e : Thrown) (w : World S)
          → IsOpen c id w
          → ((handler e w).0 ≡ err e) × IsUnknown (handler e w).1.memory c.account_id id)
      → Steps P (catch m handler)
  unfolding catch
  Steps-catch m handler k r f = record {
    at = λ w h. elim (Result-cases (m w).0) [
      | inr (a, x) ↦ rw (x) (inl (a, refl, r.at w a x, k w h))
      | inl (e, x) ↦ let (y, u) = f e (m w).1 (k w h) in rw (x) (inr (e, y, u))
    ];
  }
