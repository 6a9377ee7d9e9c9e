-- ===== src/Comments/Service/Hydration/Pages.antt =====
-- Ports of src/comments/contracts.ts with a count of the pages that are asked for, and the actions
-- that ask for so many at most.
use social_comments_service.Base.{Bool, arith, false, if◌then◌else◌, refl, true, ℕ, ◌+◌, ◌≡◌, ◌≤◌}
use social_comments_service.Comments.Contracts.{Ports, Provider}
use social_comments_service.Shared.Errors.{Thrown}
use social_comments_service.Shared.Exec.{
  Exec, Result, catch, err, handle, lift, ok, pure, throw, ◌>>=◌,
}

module _ {W : Type 0} where
  unfoldable pub beside : {A : Type 0} → Exec W A → Exec (W × ℕ) A
  beside m (w, n) = let (r, v) = m w in (r, (v, n))

  unfoldable pub asking : {A : Type 0} → Exec W A → Exec (W × ℕ) A
  asking m (w, n) = let (r, v) = m w in (r, (v, n + 1))

  abbrev pub paged_provider : Provider W → Provider (W × ℕ)
  paged_provider p = record {
    platform = p.platform;
    capabilities = p.capabilities;
    list_page = λ q. asking (p.list_page q);
    publish_reply = λ command. beside (p.publish_reply command);
  }

  abbrev pub paged_result : Result (Provider W) → Result (Provider (W × ℕ))
  paged_result (ok p) = ok (paged_provider p)
  paged_result (err e) = err e

  abbrev pub paged_ports : Ports W → Ports (W × ℕ)
  paged_ports ports = record {
    list_by_post = λ c q. beside (ports.list_by_post c q);
    find_by_id = λ c i. beside (ports.find_by_id c i);
    find_reply_by_external_id = λ c i e. beside (ports.find_reply_by_external_id c i e);
    resolve_external_id = λ c i. beside (ports.resolve_external_id c i);
    store_published_reply = λ c o. beside (ports.store_published_reply c o);
    upsert_many = λ c os. beside (ports.upsert_many c os);
    find_published_by_id = λ c i. beside (ports.find_published_by_id c i);
    save_snapshot_state = λ c i s e. beside (ports.save_snapshot_state c i s e);
    find_by_idempotency_key = λ c k. beside (ports.find_by_idempotency_key c k);
    claim = λ c o. beside (ports.claim c o);
    record_published = λ c i e. beside (ports.record_published c i e);
    complete = λ c i e. beside (ports.complete c i e);
    fail = λ c i e. beside (ports.fail c i e);
    mark_unknown = λ c i e. beside (ports.mark_unknown c i e);
    provider_of = λ p. paged_result (ports.provider_of p);
    now = beside ports.now;
    random_uuid = beside ports.random_uuid;
  }

  -- An action that asks for so many pages at most, whether it returns or throws.
  pub record Asks (n : ℕ) {A : Type 0} (m : Exec (W × ℕ) A) : Type 0 where
    pub at_most : (w : W × ℕ) → (m w).1.1 ≤ w.1 + n

  module _ {A : Type 0} where
    pub Asks-beside : (m : Exec W A) → Asks 0 (beside m)
    unfolding beside
    Asks-beside m = record { at_most = λ w. omega arith }

    pub Asks-asking : (m : Exec W A) → Asks 1 (asking m)
    unfolding asking
    Asks-asking m = record { at_most = λ w. omega arith }

    pub Asks-pure : (a : A) → Asks 0 (pure a)
    unfolding pure
    Asks-pure a = record { at_most = λ w. omega arith }

    pub Asks-throw : (e : Thrown) → Asks 0 (throw {A = A} e)
    unfolding throw
    Asks-throw e = record { at_most = λ w. omega arith }

    pub Asks-more : (n k : ℕ) (m : Exec (W × ℕ) A) → n ≤ k → Asks n m → Asks k m
    Asks-more n k m h p = record { at_most = λ w. omega (arith, p.at_most w) }

    -- The test may be used in its branches.
    pub Asks-if :
        (n : ℕ) (b : Bool) (m k : Exec (W × ℕ) A)
        → (b ≡ true → Asks n m)
        → (b ≡ false → Asks n k)
        → Asks n (if b then m else k)
    Asks-if n true m k p q = p refl
    Asks-if n false m k p q = q refl

    handle-Asks :
        (n : ℕ) (r : Result A) (h : Thrown → Exec (W × ℕ) A) (w : W × ℕ)
        → ((e : Thrown) → Asks n (h e))
        → (handle r h w).1.1 ≤ w.1 + n
    handle-Asks n (ok a) h w q = omega arith
    handle-Asks n (err e) h w q = (q e).at_most w

    pub Asks-catch :
        (n k : ℕ) (m : Exec (W × ℕ) A) (h : Thrown → Exec (W × ℕ) A)
        → Asks n m
        → ((e : Thrown) → Asks k (h e))
        → Asks (n + k) (catch m h)
    unfolding catch
    Asks-catch n k m h p q = record {
      at_most = λ w. omega (arith, p.at_most w, handle-Asks k (m w).0 h (m w).1 q);
    }

  module _ {A B : Type 0} where
    pub Asks-bind-lift :
        (n : ℕ) (r : Result A) (f : A → Exec (W × ℕ) B)
        → ((a : A) → r ≡ ok a → Asks n (f a))
        → Asks n (lift r >>= f)
    unfolding ◌>>=◌
    Asks-bind-lift n (ok a) f q = q a refl
    Asks-bind-lift n (err e) f q = record { at_most = λ w. omega arith }

    pub Asks-bind :
        (n k : ℕ) (m : Exec (W × ℕ) A) (f : A → Exec (W × ℕ) B)
        → Asks n m
        → ((a : A) → Asks k (f a))
        → Asks (n + k) (m >>= f)
    unfolding ◌>>=◌
    Asks-bind n k m f p q = record {
      at_most = λ w.
          omega (arith, p.at_most w, (Asks-bind-lift k (m w).0 f (λ a _. q a)).at_most (m w).1);
    }

    -- A first part that asks for none.
    pub Asks-after :
        (k : ℕ) (m : Exec (W × ℕ) A) (f : A → Exec (W × ℕ) B)
        → Asks 0 m
        → ((a : A) → Asks k (f a))
        → Asks k (m >>= f)
    Asks-after k m f p q = Asks-more (0 + k) k _ (omega arith) (Asks-bind 0 k m f p q)
