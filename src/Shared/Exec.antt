-- ===== src/Shared/Exec.antt =====
-- A method that may throw is an action on the state that it shares with the other parts. What was
-- written before a throw stays written, so the state comes back beside the error too.
use social_comments_service.Base.{All, List, [], ap, inl, inr, refl, subst, ◌∷◌, ◌≡◌, ◌⊎◌}
use social_comments_service.Shared.Errors.{Thrown}

pub data Result {ℓ} (A : Type ℓ) : Type ℓ where
  ok : A → Result A
  err : Thrown → Result A

abbrev pub Exec : Type 0 → Type 0 → Type 0
Exec W A = W → Result A × W

module _ {W A : Type 0} where
  unfoldable pub pure : A → Exec W A
  pure a w = (ok a, w)

  unfoldable pub throw : Thrown → Exec W A
  throw e w = (err e, w)

  unfoldable pub lift : Result A → Exec W A
  lift r w = (r, w)

  unfoldable pub gets : (W → A) → Exec W A
  gets f w = (ok (f w), w)

  abbrev pub handle : Result A → (Thrown → Exec W A) → Exec W A
  handle (ok a) handler w = (ok a, w)
  handle (err e) handler w = handler e w

  -- `try { m } catch (e) { handler e }`
  unfoldable pub catch : Exec W A → (Thrown → Exec W A) → Exec W A
  catch m handler w = let (r, w') = m w in handle r handler w'

module _ {W A B : Type 0} where
  abbrev pub continue : Result A → (A → Exec W B) → Exec W B
  continue (ok a) f w = f a w
  continue (err e) f w = (err e, w)

  infixl 5 ◌>>=◌ ◌>>◌
  -- Opening this opens the actions above too.
  unfoldable pub ◌>>=◌ : Exec W A → (A → Exec W B) → Exec W B
  unfolding pure throw lift gets catch
  ◌>>=◌ m f w = let (r, w') = m w in continue r f w'

  abbrev pub ◌>>◌ : Exec W A → Exec W B → Exec W B
  m >> k = m >>= λ _. k

pub Result-cases {ℓ} :
    {A : Type ℓ} (r : Result A) → ((e : Thrown) × (r ≡ err e)) ⊎ ((a : A) × (r ≡ ok a))
Result-cases (ok a) = inr (a, refl)
Result-cases (err e) = inl (e, refl)

abbrev ok_or {ℓ} : {A : Type ℓ} → A → Result A → A
ok_or d (ok a) = a
ok_or d (err e) = d

pub ok_injective {ℓ} : {A : Type ℓ} (a b : A) → ok a ≡ ok b → a ≡ b
ok_injective a b h = ap (ok_or a) h

module _ {W A B : Type 0} (g : A → B) where
  continue-pure-state : (r : Result A) (w : W) → (continue r (λ a. pure (g a)) w).1 ≡ w
  unfolding pure
  continue-pure-state (ok a) w = refl
  continue-pure-state (err e) w = refl

  -- Wrapping the result does not change the state.
  pub bind-pure-state : (m : Exec W A) (w : W) → ((m >>= λ a. pure (g a)) w).1 ≡ (m w).1
  unfolding ◌>>=◌
  bind-pure-state m w = continue-pure-state (m w).0 (m w).1

module _ {W A B : Type 0} where
  -- What an action returned came from its parts.
  continue-returns :
      (r : Result A) (f : A → Exec W B) (w : W) (b : B)
      → (continue r f w).0 ≡ ok b
      → (a : A) × (r ≡ ok a) × ((f a w).0 ≡ ok b) × ((continue r f w).1 ≡ (f a w).1)
  continue-returns (ok a) f w b h = (a, refl, h, refl)
  continue-returns (err x) f w b h = cc

  -- An action that returns has a first part that returned.
  pub bind-returns :
      (m : Exec W A) (f : A → Exec W B) (w : W) (b : B)
      → ((m >>= f) w).0 ≡ ok b
      → (a : A) × ((m w).0 ≡ ok a) × ((f a (m w).1).0 ≡ ok b) × (((m >>= f) w).1 ≡ (f a (m w).1).1)
  unfolding ◌>>=◌
  bind-returns m f w b h = continue-returns (m w).0 f (m w).1 b h

-- `map` with a function that may throw: the first failure ends it.
unfoldable pub map_result {ℓ κ} :
    {A : Type ℓ} {B : Type κ} → (A → Result B) → List A → Result (List B)
map_result f [] = ok []
map_result f (a ∷ rest) = elim (f a) [
  | err e ↦ err e
  | ok b ↦ elim (map_result f rest) [ err e ↦ err e | ok bs ↦ ok (b ∷ bs) ]
]

-- A list is mapped when its head and its tail are.
pub map_result_cons :
    {A B : Type 0} (f : A → Result B) (s : A) (ss : List A) (cs : List B)
    → map_result f (s ∷ ss) ≡ ok cs
    → (c : B) × (ds : List B) × (f s ≡ ok c) × (map_result f ss ≡ ok ds) × (c ∷ ds ≡ cs)
unfolding map_result
map_result_cons f s ss cs h = elim (Result-cases (f s)) [
  | inl (e, x) ↦ absurd (cc (rw (map_result, x) at h))
  | inr (c, x) ↦ elim (Result-cases (map_result f ss)) [
    | inl (e, y) ↦ absurd (cc (rw (map_result, x, y) at h))
    | inr (ds, y) ↦ (c, ds, x, y, ok_injective (c ∷ ds) cs (rw (map_result, x, y) at h))
  ]
]

-- What every result of the function has, every member of the list has.
pub map_result-All :
    {A B : Type 0} (P : B → Type 0) (f : A → Result B) (ss : List A) (cs : List B)
    → ((a : A) (c : B) → f a ≡ ok c → P c)
    → map_result f ss ≡ ok cs
    → All P cs
unfolding map_result
map_result-All P f [] cs k h = subst (All P) (ok_injective [] cs h) tt
map_result-All P f (s ∷ ss) cs k h =
    let (c, ds, x, y, e) = map_result_cons f s ss cs h in
    subst (All P) e (k s c x, map_result-All P f ss ds k y)
