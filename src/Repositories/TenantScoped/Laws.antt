-- ===== src/Repositories/TenantScoped/Laws.antt =====
-- What a write to a tenant's map changes.
use social_comments_service.Base.{
  Bool-cases, [], arith, if◌then◌else◌, inl, inr, refl, some, ◌&&◌, ◌∷◌, ◌≡◌, ◌⊎◌,
}
use social_comments_service.Repositories.TenantScoped.{
  Entries, TenantScoped, get, insert, lookup, scope, set,
}
use social_comments_service.Shared.Text.{Text, text_eq}
use social_comments_service.Shared.Text.Order.{text_eq_both, text_eq_iff, text_eq_refl}

module _ {ℓ} {V : Type ℓ} where
  pub lookup-insert :
      (k j : Text) (v : V) (m : Entries V)
      → lookup j (insert k v m) ≡ (if text_eq k j then some v else lookup j m)
  unfolding lookup insert
  lookup-insert k j v [] = refl
  lookup-insert k j v ((i, w) ∷ m) =
      ground (arith, text_eq_iff k j, text_eq_iff i k, text_eq_iff i j, lookup-insert k j v m)

module _ {T : Type 0} where
  pub scope-set :
      (s : TenantScoped T) (a b i : Text) (v : T)
      → scope (set s a i v) b ≡ (if text_eq a b then insert i v (scope s a) else scope s b)
  unfolding scope set
  scope-set s a b i v = rw (lookup-insert a b _ s.by_tenant) (ground (arith, text_eq_iff a b))

  -- A read after a write, for every tenant and identifier.
  pub get-set :
      (s : TenantScoped T) (a b i j : Text) (v : T)
      → get (set s a i v) b j ≡ (if text_eq a b && text_eq i j then some v else get s b j)
  unfolding get
  get-set s a b i j v =
      rw (scope-set s a b i v) (ground (arith, text_eq_iff a b, lookup-insert i j v (scope s a)))

  -- A read after a write finds what was written, or what was there before.
  pub get-set_cases :
      (s : TenantScoped T) (a b i j : Text) (v : T)
      → ((a ≡ b) × (i ≡ j) × (get (set s a i v) b j ≡ some v))
        ⊎ (¬ ((a ≡ b) × (i ≡ j)) × (get (set s a i v) b j ≡ get s b j))
  get-set_cases s a b i j v = elim (Bool-cases (text_eq a b && text_eq i j)) [
    | inl same ↦
        let (p, q) = text_eq_both a b i j same in inl (p, q, rw (get-set s a b i j v, same))
    | inr other ↦ inr (
      (λ e. cc (other, e.0, e.1, text_eq_refl b, text_eq_refl j)),
      rw (get-set s a b i j v, other),
    )
  ]

  pub get-set_self : (s : TenantScoped T) (a i : Text) (v : T) → get (set s a i v) a i ≡ some v
  get-set_self s a i v = rw (get-set s a a i i v, text_eq_refl a, text_eq_refl i)
