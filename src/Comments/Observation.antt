-- ===== src/Comments/Observation.antt =====
-- What is seen of a state behind the ports: which idempotency keys are taken, and how many replies
-- the providers were asked to publish; and the actions by what they do to these two. The laws of
-- the ports are stated in these terms.
use social_comments_service.Base.{
  Bool, arith, false, if◌then◌else◌, inl, inr, refl, true, ℕ, ◌+◌, ◌∙◌, ◌≡◌, ◌≤◌, ◌⊎◌,
}
use social_comments_service.Comments.Returns.{Returns}
use social_comments_service.Shared.Errors.{Thrown}
use social_comments_service.Shared.Exec.{
  Exec, Result, catch, continue, err, handle, lift, ok, pure, throw, ◌>>=◌,
}
use social_comments_service.Shared.Text.{Text}

pub record Observation (W : Type 0) : Type 1 where
  pub IsTaken : Text → Text → W → Type 0
  pub publications : W → ℕ

module _ {W : Type 0} (v : Observation W) where
  -- No key is released and nothing is published.
  pub record IsQuiet {A : Type 0} (m : Exec W A) : Type 0 where
    pub keeps : (w : W) (a k : Text) → v.IsTaken a k w → v.IsTaken a k (m w).1
    pub silent : (w : W) → v.publications (m w).1 ≡ v.publications w

  -- No key is released and at most one reply is published.
  pub record IsSingle {A : Type 0} (m : Exec W A) : Type 0 where
    pub keeps : (w : W) (a k : Text) → v.IsTaken a k w → v.IsTaken a k (m w).1
    pub single : (w : W) → v.publications (m w).1 ≤ v.publications w + 1

  -- And the key is taken after a publication, and free before one.
  pub record IsTracked (a k : Text) {A : Type 0} (m : Exec W A) : Type 0 where
    pub keeps : (w : W) (b j : Text) → v.IsTaken b j w → v.IsTaken b j (m w).1
    pub single : (w : W) → v.publications (m w).1 ≤ v.publications w + 1
    pub tracked : (w : W) → (v.publications (m w).1 ≡ v.publications w) ⊎ v.IsTaken a k (m w).1
    pub muted : (w : W) → v.IsTaken a k w → v.publications (m w).1 ≡ v.publications w

module _ {W : Type 0} {v : Observation W} where
  module _ {A : Type 0} where
    pub IsQuiet-pure : (a : A) → IsQuiet v (pure {W = W} a)
    unfolding pure
    IsQuiet-pure a = record { keeps = λ w b k h. h; silent = λ w. refl }

    pub IsQuiet-throw : (e : Thrown) → IsQuiet v (throw {W = W} {A = A} e)
    unfolding throw
    IsQuiet-throw e = record { keeps = λ w b k h. h; silent = λ w. refl }

    pub IsQuiet-lift : (r : Result A) → IsQuiet v (lift {W = W} r)
    unfolding lift
    IsQuiet-lift r = record { keeps = λ w b k h. h; silent = λ w. refl }

    pub IsQuiet-if :
        (b : Bool) (m n : Exec W A) → IsQuiet v m → IsQuiet v n → IsQuiet v (if b then m else n)
    IsQuiet-if true m n p q = p
    IsQuiet-if false m n p q = q

    pub IsQuiet-IsSingle : (m : Exec W A) → IsQuiet v m → IsSingle v m
    IsQuiet-IsSingle m p = record { keeps = p.keeps; single = λ w. omega (arith, p.silent w) }

    pub IsQuiet-IsTracked : (a k : Text) (m : Exec W A) → IsQuiet v m → IsTracked v a k m
    IsQuiet-IsTracked a k m p = record {
      keeps = p.keeps;
      single = λ w. omega (arith, p.silent w);
      tracked = λ w. inl (p.silent w);
      muted = λ w t. p.silent w;
    }

  module _ {A B : Type 0} where
    continue-IsQuiet :
        (r : Result A) (f : A → Exec W B) → ((a : A) → IsQuiet v (f a)) → IsQuiet v (continue r f)
    unfolding throw
    continue-IsQuiet (ok a) f q = q a
    continue-IsQuiet (err e) f q = IsQuiet-throw e

    pub IsQuiet-bind :
        (m : Exec W A) (f : A → Exec W B)
        → IsQuiet v m
        → ((a : A) → IsQuiet v (f a))
        → IsQuiet v (m >>= f)
    unfolding ◌>>=◌
    IsQuiet-bind m f p q = record {
      keeps = λ w b k h. (continue-IsQuiet (m w).0 f q).keeps (m w).1 b k (p.keeps w b k h);
      silent = λ w. (continue-IsQuiet (m w).0 f q).silent (m w).1 ∙ p.silent w;
    }

    -- The rest of the action may use what was lifted.
    pub IsQuiet-bind-lift :
        (r : Result A) (f : A → Exec W B)
        → ((a : A) → r ≡ ok a → IsQuiet v (f a))
        → IsQuiet v (lift r >>= f)
    unfolding ◌>>=◌
    IsQuiet-bind-lift (ok a) f q = q a refl
    IsQuiet-bind-lift (err e) f q = IsQuiet-throw e

    pub IsSingle-bind :
        (m : Exec W A) (f : A → Exec W B)
        → IsSingle v m
        → ((a : A) → IsQuiet v (f a))
        → IsSingle v (m >>= f)
    unfolding ◌>>=◌
    IsSingle-bind m f p q = record {
      keeps = λ w b k h. (continue-IsQuiet (m w).0 f q).keeps (m w).1 b k (p.keeps w b k h);
      single = λ w. omega (arith, (continue-IsQuiet (m w).0 f q).silent (m w).1, p.single w);
    }

    module _ {a k : Text} where
      continue-IsTracked :
          (r : Result A) (f : A → Exec W B)
          → ((x : A) → IsTracked v a k (f x))
          → IsTracked v a k (continue r f)
      unfolding throw
      continue-IsTracked (ok x) f q = q x
      continue-IsTracked (err e) f q = IsQuiet-IsTracked a k _ (IsQuiet-throw e)

      pub IsTracked-bind :
          (m : Exec W A) (f : A → Exec W B)
          → IsQuiet v m
          → ((x : A) → IsTracked v a k (f x))
          → IsTracked v a k (m >>= f)
      unfolding ◌>>=◌
      IsTracked-bind m f p q = record {
        keeps = λ w b j h. (continue-IsTracked (m w).0 f q).keeps (m w).1 b j (p.keeps w b j h);
        single = λ w. omega (arith, (continue-IsTracked (m w).0 f q).single (m w).1, p.silent w);
        tracked = λ w. rw (← p.silent w) ((continue-IsTracked (m w).0 f q).tracked (m w).1);
        muted =
            λ w t. (continue-IsTracked (m w).0 f q).muted (m w).1 (p.keeps w a k t) ∙ p.silent w;
      }

  module _ {A : Type 0} where
    handle-IsQuiet :
        (r : Result A) (handler : Thrown → Exec W A)
        → ((e : Thrown) → IsQuiet v (handler e))
        → IsQuiet v (handle r handler)
    unfolding pure
    handle-IsQuiet (ok a) handler q = IsQuiet-pure a
    handle-IsQuiet (err e) handler q = q e

    pub IsQuiet-catch :
        (m : Exec W A) (handler : Thrown → Exec W A)
        → IsQuiet v m
        → ((e : Thrown) → IsQuiet v (handler e))
        → IsQuiet v (catch m handler)
    unfolding catch
    IsQuiet-catch m handler p q = record {
      keeps = λ w b k h. (handle-IsQuiet (m w).0 handler q).keeps (m w).1 b k (p.keeps w b k h);
      silent = λ w. (handle-IsQuiet (m w).0 handler q).silent (m w).1 ∙ p.silent w;
    }

    pub IsSingle-catch :
        (m : Exec W A) (handler : Thrown → Exec W A)
        → IsSingle v m
        → ((e : Thrown) → IsQuiet v (handler e))
        → IsSingle v (catch m handler)
    unfolding catch
    IsSingle-catch m handler p q = record {
      keeps = λ w b k h. (handle-IsQuiet (m w).0 handler q).keeps (m w).1 b k (p.keeps w b k h);
      single = λ w. omega (arith, (handle-IsQuiet (m w).0 handler q).silent (m w).1, p.single w);
    }

module _ {W A B : Type 0} {v : Observation W} {a k : Text} where
  -- The rest of the action may use what the first part returns.
  continue-IsTracked_of :
      (r : Result A) (f : A → Exec W B)
      → ((x : A) → r ≡ ok x → IsTracked v a k (f x))
      → IsTracked v a k (continue r f)
  unfolding throw
  continue-IsTracked_of (ok x) f q = q x refl
  continue-IsTracked_of (err e) f q = IsQuiet-IsTracked a k _ (IsQuiet-throw e)

  pub IsTracked-bind_of :
      {P : A → Type 0} (m : Exec W A) (f : A → Exec W B)
      → IsQuiet v m
      → Returns P m
      → ((x : A) → P x → IsTracked v a k (f x))
      → IsTracked v a k (m >>= f)
  unfolding ◌>>=◌
  IsTracked-bind_of m f p r q = record {
    keeps = λ w b j h. (rest w).keeps (m w).1 b j (p.keeps w b j h);
    single = λ w. omega (arith, (rest w).single (m w).1, p.silent w);
    tracked = λ w. rw (← p.silent w) ((rest w).tracked (m w).1);
    muted = λ w t. (rest w).muted (m w).1 (p.keeps w a k t) ∙ p.silent w;
  }
    where
      rest : (w : W) → IsTracked v a k (continue (m w).0 f)
      rest w = continue-IsTracked_of (m w).0 f (λ x e. q x (r.at w x e))

module _ {W A B : Type 0} {v : Observation W} where
  continue-IsSingle :
      (r : Result A) (f : A → Exec W B) → ((x : A) → IsSingle v (f x)) → IsSingle v (continue r f)
  unfolding throw
  continue-IsSingle (ok x) f q = q x
  continue-IsSingle (err e) f q = IsQuiet-IsSingle _ (IsQuiet-throw e)

module _ {W B : Type 0} where
  -- What the first part may leave to a second part that may publish.
  abbrev pub Takes : (v : Observation W) (a k : Text) → W → W → Exec W B → Type 0
  Takes v a k w w' n = (v.IsTaken a k w' × ¬ v.IsTaken a k w) ⊎ IsQuiet v n

module _ {W A B : Type 0} {v : Observation W} {a k : Text} where
  continue_tracked :
      (r : Result A) (f : A → Exec W B) (w w' : W)
      → ((x : A) → IsSingle v (f x))
      → ((x : A) → r ≡ ok x → Takes v a k w w' (f x))
      → (v.publications (continue r f w').1 ≡ v.publications w') ⊎ v.IsTaken a k (continue r f w').1
  continue_tracked (err e) f w w' s h = inl refl
  continue_tracked (ok x) f w w' s h = elim (h x refl) [
    | inl (taken, _) ↦ inr ((s x).keeps w' a k taken)
    | inr quiet ↦ inl (quiet.silent w')
  ]

  continue_muted :
      (r : Result A) (f : A → Exec W B) (w w' : W)
      → ((x : A) → r ≡ ok x → Takes v a k w w' (f x))
      → v.IsTaken a k w
      → v.publications (continue r f w').1 ≡ v.publications w'
  continue_muted (err e) f w w' h t = refl
  continue_muted (ok x) f w w' h t = elim (h x refl) [
    | inl (_, free) ↦ absurd (free t)
    | inr quiet ↦ quiet.silent w'
  ]

  -- The first part takes a free key wherever the second may publish.
  pub IsTracked-bind_taking :
      (m : Exec W A) (f : A → Exec W B)
      → IsQuiet v m
      → ((x : A) → IsSingle v (f x))
      → ((w : W) (x : A) → (m w).0 ≡ ok x → Takes v a k w (m w).1 (f x))
      → IsTracked v a k (m >>= f)
  unfolding ◌>>=◌
  IsTracked-bind_taking m f p s h = record {
    keeps = λ w b j t. (continue-IsSingle (m w).0 f s).keeps (m w).1 b j (p.keeps w b j t);
    single = λ w. omega (arith, (continue-IsSingle (m w).0 f s).single (m w).1, p.silent w);
    tracked = λ w. rw (← p.silent w) (continue_tracked (m w).0 f w (m w).1 s (h w));
    muted = λ w t. continue_muted (m w).0 f w (m w).1 (h w) t ∙ p.silent w;
  }

pub ruleset quiet_rules =
    (IsQuiet-pure, IsQuiet-throw, IsQuiet-lift, IsQuiet-if, IsQuiet-bind, IsQuiet-catch)
