-- ===== src/Repositories/InMemory/Comments/Growth.antt =====
-- The methods that write comments keep the rows well formed, and names that were given stay.
use social_comments_service.Base.{
  List, Option, Option-cases, [], arith, inl, inr, none, refl, some, sym, ◌∙◌, ◌∷◌, ◌≡◌, ◌⊎◌,
}
use social_comments_service.Repositories.InMemory.{Memory, StoredComment, random_uuid}
use social_comments_service.Repositories.InMemory.Comments.{
  store, store_all, store_published_reply, store_unless, upsert_many,
}
use social_comments_service.Repositories.InMemory.Comments.Stores.{
  CanStore, IsWellFormed, with_row, with_row-keys, with_row-names, with_row-owns,
}
use social_comments_service.Repositories.TenantScoped.{get}
use social_comments_service.Repositories.TenantScoped.Laws.{get-set_cases}
use social_comments_service.Shared.Exec.{Exec, Result, continue, err, gets, ok, pure, ◌>>=◌}
use social_comments_service.Shared.Text.{Text}
use social_comments_service.Shared.Types.{ObservedComment, TenantContext}

module _ (m : Memory) (a : Text) (o : ObservedComment) where
  -- `store` writes one row, under the identifier that the external one names or under a new one.
  pub store_cases :
      ((s : StoredComment) × (s.observed ≡ o)
        × (get m.by_external_id a o.external_id ≡ some s.id)
        × (store a o m ≡ (ok s, with_row m a s)))
      ⊎ ((s : StoredComment) × (s.observed ≡ o)
          × (s.id ≡ m.sources.uuids m.sources.draws)
          × (get m.by_external_id a o.external_id ≡ none)
          × (store a o m ≡ (ok s, with_row (random_uuid m).1 a s)))
  unfolding store ◌>>=◌ random_uuid
  store_cases = elim (Option-cases (get m.by_external_id a o.external_id)) [
    | inl none' ↦ inr (
      record { id = m.sources.uuids m.sources.draws; observed = o },
      refl,
      refl,
      none',
      rw (none'),
    )
    | inr (id, some') ↦ inl (record { id = id; observed = o }, refl, some', rw (some'))
  ]

module _ (m : Memory) (a : Text) (s : StoredComment) (w : IsWellFormed m) where
  -- A write under the identifier that the external one names.
  known-IsWellFormed :
      get m.by_external_id a s.observed.external_id ≡ some s.id → IsWellFormed (with_row m a s)
  known-IsWellFormed k = record {
    owns = with_row-owns m a s w (inl k);
    names = with_row-names m a s w (inl k);
    keys = with_row-keys m a s w;
    fresh = λ b n h. elim (get-set_cases m.by_id a b s.id (m.sources.uuids n) s) [
      | inr (_, r) ↦ r ∙ w.fresh b n h
      | inl (p, q, r) ↦
          let (t, row, x) = w.owns a s.observed.external_id s.id k in
          absurd (cc (p, q, row, w.fresh b n h))
    ];
    distinct = w.distinct;
  }

  -- A write under a new identifier, which is drawn for it.
  new-IsWellFormed :
      s.id ≡ m.sources.uuids m.sources.draws
      → get m.by_external_id a s.observed.external_id ≡ none
      → IsWellFormed (with_row (random_uuid m).1 a s)
  unfolding random_uuid
  new-IsWellFormed i k =
      let c : CanStore m a s = inr (k, rw (i) (w.fresh a m.sources.draws (omega arith))) in
      record {
        owns = with_row-owns m a s w c;
        names = with_row-names m a s w c;
        keys = with_row-keys m a s w;
        fresh = λ b n h. elim (get-set_cases m.by_id a b s.id (m.sources.uuids n) s) [
          | inr (_, r) ↦ r ∙ w.fresh b n (omega arith)
          | inl (p, q, r) ↦
              let e = w.distinct m.sources.draws n (sym i ∙ q) in absurd (omega (arith, e, h))
        ];
        distinct = w.distinct;
      }

pub store-IsWellFormed :
    (m : Memory) (a : Text) (o : ObservedComment) → IsWellFormed m → IsWellFormed (store a o m).1
store-IsWellFormed m a o w = elim (store_cases m a o) [
  | inl (s, e, k, r) ↦ rw (r) (known-IsWellFormed m a s w (rw (e) k))
  | inr (s, e, i, k, r) ↦ rw (r) (new-IsWellFormed m a s w i (rw (e) k))
]

-- A name that was given stays.
pub record KeepsNames (m m' : Memory) : Type 0 where
  pub kept :
      (a e id : Text) → get m.by_external_id a e ≡ some id → get m'.by_external_id a e ≡ some id

pub KeepsNames-refl : (m : Memory) → KeepsNames m m
KeepsNames-refl m = record { kept = λ a e id h. h }

pub KeepsNames-trans : (m n o : Memory) → KeepsNames m n → KeepsNames n o → KeepsNames m o
KeepsNames-trans m n o p q = record { kept = λ a e id h. q.kept a e id (p.kept a e id h) }

pub store-KeepsNames : (m : Memory) (a : Text) (o : ObservedComment) → KeepsNames m (store a o m).1
unfolding random_uuid
store-KeepsNames m a o = record {
  kept = λ b e id h. elim (store_cases m a o) [
    | inl (s, x, k, r) ↦ elim (get-set_cases m.by_external_id a b s.observed.external_id e s.id) [
      | inr (_, r') ↦ rw (r) (r' ∙ h)
      | inl (p, q, r') ↦ rw (r) (r' ∙ cc (k, x, p, q, h))
    ]
    | inr (s, x, i, k, r) ↦
        elim (get-set_cases m.by_external_id a b s.observed.external_id e s.id) [
          | inr (_, r') ↦ rw (r) (r' ∙ h)
          | inl (p, q, r') ↦ absurd (cc (k, x, p, q, h))
        ]
  ];
}

-- What a method of the comments does to the rows, whether it returns or throws.
pub record Grows {A : Type 0} (f : Exec Memory A) : Type 0 where
  pub well_formed : (m : Memory) → IsWellFormed m → IsWellFormed (f m).1
  pub keeps_names : (m : Memory) → KeepsNames m (f m).1

module _ {A : Type 0} where
  pub Grows-pure : (a : A) → Grows (pure a)
  unfolding pure
  Grows-pure a = record { well_formed = λ m w. w; keeps_names = KeepsNames-refl }

  pub Grows-read : (f : Memory → Result A) → Grows (λ m. (f m, m))
  Grows-read f = record { well_formed = λ m w. w; keeps_names = KeepsNames-refl }

  pub Grows-gets : (f : Memory → A) → Grows (gets f)
  unfolding gets
  Grows-gets f = record { well_formed = λ m w. w; keeps_names = KeepsNames-refl }

module _ {A B : Type 0} where
  continue-Grows :
      (r : Result A) (f : A → Exec Memory B) → ((a : A) → Grows (f a)) → Grows (continue r f)
  continue-Grows (ok a) f q = q a
  continue-Grows (err e) f q = record { well_formed = λ m w. w; keeps_names = KeepsNames-refl }

  pub Grows-bind :
      (f : Exec Memory A) (g : A → Exec Memory B)
      → Grows f
      → ((a : A) → Grows (g a))
      → Grows (f >>= g)
  unfolding ◌>>=◌
  Grows-bind f g p q = record {
    well_formed = λ m w. (continue-Grows (f m).0 g q).well_formed (f m).1 (p.well_formed m w);
    keeps_names = λ m.
        KeepsNames-trans m (f m).1 _ (p.keeps_names m)
          ((continue-Grows (f m).0 g q).keeps_names (f m).1);
  }

store-Grows : (a : Text) (o : ObservedComment) → Grows (store a o)
store-Grows a o = record {
  well_formed = λ m. store-IsWellFormed m a o;
  keeps_names = λ m. store-KeepsNames m a o;
}

store_all-Grows : (a : Text) (os : List ObservedComment) → Grows (store_all a os)
unfolding store_all
store_all-Grows a [] = Grows-pure _
store_all-Grows a (o ∷ os) =
    Grows-bind _ _ (store-Grows a o) λ s. Grows-bind _ _ (store_all-Grows a os) λ rest. Grows-pure _

module _ (c : TenantContext) where
  -- `upsertMany` keeps the rows well formed, and every external identifier that named a row still
  -- names it, whether the batch is returned or an answer throws.
  pub upsert_many-Grows : (os : List ObservedComment) → Grows (upsert_many c os)
  unfolding upsert_many
  upsert_many-Grows os = Grows-bind _ _ (store_all-Grows c.account_id os) λ s. Grows-read _

  store_unless-Grows : (o : ObservedComment) (known : Option Text) → Grows (store_unless c o known)
  unfolding store_unless
  store_unless-Grows o none = Grows-bind _ _ (store-Grows c.account_id o) λ s. Grows-read _
  store_unless-Grows o (some id) = Grows-read _

  -- `storePublishedReply` keeps the rows well formed, and every external identifier that named a
  -- row still names it, whether the reply is stored, found or refused.
  pub store_published_reply-Grows : (o : ObservedComment) → Grows (store_published_reply c o)
  unfolding store_published_reply
  store_published_reply-Grows o = Grows-bind _ _ (Grows-gets _) (store_unless-Grows o)
