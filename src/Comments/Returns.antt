-- ===== src/Comments/Returns.antt =====
-- What an action returns, when it returns.
use social_comments_service.Base.{Bool, false, if◌then◌else◌, refl, true, ◌≡◌}
use social_comments_service.Shared.Errors.{Thrown}
use social_comments_service.Shared.Exec.{Exec, Result, err, lift, ok, pure, throw, ◌>>=◌}

-- What an action returns, when it returns.
pub record Returns {W A : Type 0} (P : A → Type 0) (m : Exec W A) : Type 0 where
  pub at : (w : W) (a : A) → (m w).0 ≡ ok a → P a

module _ {W A : Type 0} {P : A → Type 0} where
  pub Returns-pure : (a : A) → P a → Returns P (pure {W = W} a)
  unfolding pure
  Returns-pure a p = record { at = λ w b e. let e' : a ≡ b = cc in rw e' at p }

  pub Returns-throw : (e : Thrown) → Returns P (throw {W = W} {A = A} e)
  unfolding throw
  Returns-throw e = record { at = λ w b h. absurd (cc) }

  pub Returns-if :
      (b : Bool) (m n : Exec W A) → Returns P m → Returns P n → Returns P (if b then m else n)
  Returns-if true m n p q = p
  Returns-if false m n p q = q

module _ {W A B : Type 0} {P : B → Type 0} where
  pub Returns-bind-lift :
      (r : Result A) (f : A → Exec W B)
      → ((a : A) → r ≡ ok a → Returns P (f a))
      → Returns P (lift r >>= f)
  unfolding ◌>>=◌
  Returns-bind-lift (ok a) f q = q a refl
  Returns-bind-lift (err e) f q = Returns-throw e

  pub Returns-bind :
      (m : Exec W A) (f : A → Exec W B) → ((a : A) → Returns P (f a)) → Returns P (m >>= f)
  unfolding ◌>>=◌
  Returns-bind m f q = record { at = λ w. (Returns-bind-lift (m w).0 f (λ a _. q a)).at (m w).1 }
