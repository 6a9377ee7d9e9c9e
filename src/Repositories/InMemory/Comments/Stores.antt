-- ===== src/Repositories/InMemory/Comments/Stores.antt =====
-- What `store` keeps true of the rows and of the names that they go by.
use social_comments_service.Base.{
  Bool-cases, [], ap, inl, inr, is_none, none, refl, some, some_injective, sym, true, ℕ, ◌∙◌, ◌∷◌,
  ◌≡◌, ◌≤◌, ◌⊎◌,
}
use social_comments_service.Repositories.InMemory.{Memory, Sources, StoredComment, empty_memory}
use social_comments_service.Repositories.TenantScoped.{Entries, get, insert, lookup, scope, set}
use social_comments_service.Repositories.TenantScoped.Laws.{
  get-set_cases, get-set_self, lookup-insert, scope-set,
}
use social_comments_service.Shared.Text.{Text, text_eq}
use social_comments_service.Shared.Text.Order.{text_eq-false, text_eq_ne}
use social_comments_service.Shared.Types.{PublishedPost}

-- No key of a map stands in it twice.
abbrev pub HasUniqueKeys {ℓ} : {V : Type ℓ} → Entries V → Type 0
HasUniqueKeys [] = Unit
HasUniqueKeys ((k, v) ∷ m) = is_none (lookup k m) ≡ true × HasUniqueKeys m

module _ {ℓ} {V : Type ℓ} where
  pub insert-HasUniqueKeys :
      (k : Text) (v : V) (m : Entries V) → HasUniqueKeys m → HasUniqueKeys (insert k v m)
  unfolding insert lookup
  insert-HasUniqueKeys k v [] u = (refl, tt)
  insert-HasUniqueKeys k v ((j, w) ∷ m) (n, u) = elim (Bool-cases (text_eq j k)) [
    | inl same ↦ rw (same) (n, u)
    | inr other ↦ rw (other) (
        (
          rw (lookup-insert k j v m, text_eq-false k j (λ e. text_eq_ne j k other (sym e))) n,
          insert-HasUniqueKeys k v m u,
        ))
  ]

-- The rows stand under their own identifiers, an external identifier names the row that has it
-- and no other, and the identifiers still to be drawn are new.
pub record IsWellFormed (m : Memory) : Type 0 where
  pub owns :
      (a e id : Text)
      → get m.by_external_id a e ≡ some id
      → (s : StoredComment) × (get m.by_id a id ≡ some s) × (s.observed.external_id ≡ e)
  pub names :
      (a id : Text) (s : StoredComment)
      → get m.by_id a id ≡ some s
      → (s.id ≡ id) × (get m.by_external_id a s.observed.external_id ≡ some id)
  pub keys : (a : Text) → HasUniqueKeys (scope m.by_id a)
  pub fresh : (a : Text) (n : ℕ) → m.sources.draws ≤ n → get m.by_id a (m.sources.uuids n) ≡ none
  pub distinct : (i j : ℕ) → m.sources.uuids i ≡ m.sources.uuids j → i ≡ j

-- Nothing is stored at first.
pub empty_memory-IsWellFormed :
    (sources : Sources) (posts : Entries PublishedPost)
    → ((i j : ℕ) → sources.uuids i ≡ sources.uuids j → i ≡ j)
    → IsWellFormed (empty_memory sources posts)
unfolding get scope lookup
empty_memory-IsWellFormed sources posts d = record {
  owns = λ a e id h. absurd (cc h);
  names = λ a id s h. absurd (cc h);
  keys = λ a. tt;
  fresh = λ a n h. refl;
  distinct = d;
}

-- The memory with a row written.
abbrev pub with_row : Memory → Text → StoredComment → Memory
with_row m account_id s = record m {
  by_external_id = set m.by_external_id account_id s.observed.external_id s.id;
  by_id = set m.by_id account_id s.id s;
}

-- A row may be written under the identifier that its external one names, or under one that is new
-- if the external one names none.
abbrev pub CanStore : Memory → Text → StoredComment → Type 0
CanStore m a s =
    (get m.by_external_id a s.observed.external_id ≡ some s.id)
    ⊎ ((get m.by_external_id a s.observed.external_id ≡ none) × (get m.by_id a s.id ≡ none))

module _ (m : Memory) (a : Text) (s : StoredComment) (w : IsWellFormed m) where
  CanStore-name :
      CanStore m a s
      → (id : Text) → get m.by_external_id a s.observed.external_id ≡ some id
      → s.id ≡ id
  CanStore-name c id h = elim c [
    | inl k ↦ some_injective (sym k ∙ h)
    | inr (k, _) ↦ absurd (cc (k, h))
  ]

  CanStore-row :
      CanStore m a s
      → (t : StoredComment) → get m.by_id a s.id ≡ some t
      → s.observed.external_id ≡ t.observed.external_id
  CanStore-row c t h = elim c [
    | inl k ↦
        let (t', row, x) = w.owns a s.observed.external_id s.id k in
        sym x ∙ ap (λ r. r.observed.external_id) (some_injective (sym row ∙ h))
    | inr (_, k) ↦ absurd (cc (k, h))
  ]

  pub with_row-owns :
      CanStore m a s
      → (b e id : Text) → get (with_row m a s).by_external_id b e ≡ some id
      → (t : StoredComment) × (get (with_row m a s).by_id b id ≡ some t)
        × (t.observed.external_id ≡ e)
  with_row-owns c b e id h =
      elim (get-set_cases m.by_external_id a b s.observed.external_id e s.id) [
        | inl (p, q, r) ↦ (s, cc (p, some_injective (sym r ∙ h), get-set_self m.by_id a s.id s), q)
        | inr (n, r) ↦
            let (t, row, x) = w.owns b e id (sym r ∙ h) in
            elim (get-set_cases m.by_id a b s.id id s) [
              | inr (_, r') ↦ (t, r' ∙ row, x)
              | inl (p, q, r') ↦ absurd (n (p, CanStore-row c t (rw (p, q) row) ∙ x))
            ]
      ]

  pub with_row-names :
      CanStore m a s
      → (b id : Text) (t : StoredComment) → get (with_row m a s).by_id b id ≡ some t
      → (t.id ≡ id) × (get (with_row m a s).by_external_id b t.observed.external_id ≡ some id)
  with_row-names c b id t h = elim (get-set_cases m.by_id a b s.id id s) [
    | inl (p, q, r) ↦
        let same = some_injective (sym r ∙ h) in
        rw (sym same, sym p)
          (q, rw (sym q) (get-set_self m.by_external_id a s.observed.external_id s.id))
    | inr (n, r) ↦
        let (i, x) = w.names b id t (sym r ∙ h) in
        elim (get-set_cases m.by_external_id a b s.observed.external_id t.observed.external_id
          s.id) [
            | inr (_, r') ↦ (i, r' ∙ x)
            | inl (p, q, r') ↦ absurd (n (p, CanStore-name c id (rw (p, q) x)))
          ]
  ]

  pub with_row-keys : (b : Text) → HasUniqueKeys (scope (with_row m a s).by_id b)
  with_row-keys b = elim (Bool-cases (text_eq a b)) [
    | inl same ↦
        rw (scope-set m.by_id a b s.id s, same)
          (insert-HasUniqueKeys s.id s (scope m.by_id a) (w.keys a))
    | inr other ↦ rw (scope-set m.by_id a b s.id s, other) (w.keys b)
  ]
