-- ===== src/Repositories/TenantScoped.antt =====
-- `TenantScoped` of src/repositories/in-memory.ts: a map per tenant. A JavaScript `Map` is its list
-- of entries in the order of insertion; a write to a key that is there keeps its place.
pub mod Laws
use social_comments_service.Base.{List, Option, [], if◌then◌else◌, none, or_else, some, ◌∷◌}
use social_comments_service.Shared.Text.{Text, text_eq}

abbrev pub Entries {ℓ} : Type ℓ → Type ℓ
Entries V = List (Text × V)

module _ {ℓ} {V : Type ℓ} where
  unfoldable pub lookup : Text → Entries V → Option V
  lookup k [] = none
  lookup k ((j, v) ∷ m) = if text_eq j k then some v else lookup k m

  unfoldable pub insert : Text → V → Entries V → Entries V
  insert k v [] = (k, v) ∷ []
  insert k v ((j, w) ∷ m) =
      let rest = insert k v m in if text_eq j k then (j, v) ∷ m else (j, w) ∷ rest

  unfoldable pub entry_values : Entries V → List V
  entry_values [] = []
  entry_values ((j, v) ∷ m) = v ∷ entry_values m

pub record TenantScoped (T : Type 0) : Type 0 where
  pub by_tenant : Entries (Entries T)

module _ {T : Type 0} where
  abbrev pub empty : TenantScoped T
  empty = record { by_tenant = [] }

  unfoldable pub scope : TenantScoped T → Text → Entries T
  scope s account_id = or_else (lookup account_id s.by_tenant) []

  unfoldable pub get : TenantScoped T → Text → Text → Option T
  get s account_id id = lookup id (scope s account_id)

  unfoldable pub set : TenantScoped T → Text → Text → T → TenantScoped T
  set s account_id id value = record {
    by_tenant = insert account_id (insert id value (scope s account_id)) s.by_tenant;
  }

  unfoldable pub values : TenantScoped T → Text → List T
  values s account_id = entry_values (scope s account_id)
