-- ===== src/Comments/Ensures.antt =====
-- What an action that starts in a state of some kind returns, and the state that it leaves then.
use social_comments_service.Base.{Bool, false, if◌then◌else◌, refl, true, ◌≡◌}
use social_comments_service.Comments.Invariants.{Keeps}
use social_comments_service.Comments.Returns.{Returns}
use social_comments_service.Shared.Errors.{Thrown}
use social_comments_service.Shared.Exec.{
  Exec, Result, bind-returns, catch, err, handle, lift, ok, pure, throw, ◌>>=◌,
}

pub record Ensures {W A : Type 0} (P : W → Type 0) (R : A → W → Type 0) (m : Exec W A)
    : Type 0 where
  pub leaves : (w : W) (a : A) → P w → (m w).0 ≡ ok a → R a (m w).1

module _ {W A : Type 0} {P : W → Type 0} {R : A → W → Type 0} where
  pub Ensures-pure : (a : A) → ((w : W) → P w → R a w) → Ensures P R (pure {W = W} a)
  unfolding pure
  Ensures-pure a f = record { leaves = λ w b p e. let same : a ≡ b = cc in rw same at (f w p) }

  -- The test may be used in its branches.
  pub Ensures-if :
      (b : Bool) (m n : Exec W A)
      → (b ≡ true → Ensures P R m)
      → (b ≡ false → Ensures P R n)
      → Ensures P R (if b then m else n)
  Ensures-if true m n p q = p refl
  Ensures-if false m n p q = q refl

  pub Ensures-start :
      {Q : W → Type 0} (m : Exec W A) → ((w : W) → Q w → P w) → Ensures P R m → Ensures Q R m
  Ensures-start m f r = record { leaves = λ w a q. r.leaves w a (f w q) }

  pub Ensures-either :
      (b : Bool) (m n : Exec W A) → Ensures P R m → Ensures P R n → Ensures P R (if b then m else n)
  Ensures-either true m n p q = p
  Ensures-either false m n p q = q

  -- A test that is known to hold.
  pub Ensures-if_true :
      (b : Bool) (m n : Exec W A)
      → Ensures P R m
      → Ensures (λ w. (b ≡ true) × P w) R (if b then m else n)
  Ensures-if_true true m n p = record { leaves = λ w a (x, y). p.leaves w a y }
  Ensures-if_true false m n p = record { leaves = λ w a (x, y) k. absurd (cc x) }

module _ {W A : Type 0} {P : W → Type 0} where
  pub Ensures-of_Keeps : (m : Exec W A) → Keeps P m → Ensures P (λ a w. P w) m
  Ensures-of_Keeps m k = record { leaves = λ w a p e. k.kept w p }

module _ {W A B : Type 0} {P : W → Type 0} {Q : A → W → Type 0} {R : B → W → Type 0} where
  pub Ensures-bind :
      (m : Exec W A) (f : A → Exec W B)
      → Ensures P Q m
      → ((a : A) → Ensures (Q a) R (f a))
      → Ensures P R (m >>= f)
  Ensures-bind m f p q = record {
    leaves = λ w b x e.
        let (a, first, rest, state) = bind-returns m f w b e in
        rw state ((q a).leaves (m w).1 b (p.leaves w a x first) rest);
  }

module _ {W A : Type 0} (R : A → W → Type 0) where
  handle-Ensures :
      (r : Result A) (h : Thrown → Exec W A) (w : W) (a : A)
      → ((e : Thrown) → Returns (λ a. ⊥) (h e))
      → ((b : A) → r ≡ ok b → R b w)
      → (handle r h w).0 ≡ ok a
      → R a (handle r h w).1
  handle-Ensures (ok b) h w a q p e = let same : b ≡ a = cc in rw same at (p b refl)
  handle-Ensures (err x) h w a q p e = absurd ((q x).at w a e)

module _ {W A : Type 0} {P : W → Type 0} {R : A → W → Type 0} where
  -- A handler that always throws returns nothing of its own.
  pub Ensures-catch :
      (m : Exec W A) (h : Thrown → Exec W A)
      → Ensures P R m
      → ((e : Thrown) → Returns (λ a. ⊥) (h e))
      → Ensures P R (catch m h)
  unfolding catch
  Ensures-catch m h p q = record {
    leaves = λ w a x e. handle-Ensures R (m w).0 h (m w).1 a q (λ b. p.leaves w b x) e;
  }

  pub Ensures-throw : (e : Thrown) → Ensures P R (throw {W = W} {A = A} e)
  unfolding throw
  Ensures-throw e = record { leaves = λ w a p h. absurd (cc h) }

  -- A part of what holds at first that is no matter of the state.
  pub Ensures-given : {C : Type 0} (m : Exec W A) → (C → Ensures P R m) → Ensures (λ w. P w × C) R m
  Ensures-given m f = record { leaves = λ w a (p, x) e. (f x).leaves w a p e }

  -- An action that never returns.
  pub Ensures-of_Returns : (m : Exec W A) → Returns (λ a. ⊥) m → Ensures P R m
  Ensures-of_Returns m r = record { leaves = λ w a p e. absurd (r.at w a e) }

  pub Ensures-weaken :
      {Q : A → W → Type 0} (m : Exec W A)
      → ((a : A) (w : W) → R a w → Q a w)
      → Ensures P R m
      → Ensures P Q m
  Ensures-weaken m f r = record { leaves = λ w a p e. f a (m w).1 (r.leaves w a p e) }

module _ {W A : Type 0} {P : W → Type 0} where
  pub Ensures-lift : (r : Result A) → Ensures P (λ a w. P w × (r ≡ ok a)) (lift {W = W} r)
  unfolding lift
  Ensures-lift r = record { leaves = λ w a p e. (p, e) }
