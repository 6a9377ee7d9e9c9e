-- ===== src/Composition/Keeping.antt =====
-- What the in-memory repositories keep, the composition keeps: providers do not reach the memory.
use social_comments_service.Base.{Option, Option-cases, inl, inr, ◌≡◌}
use social_comments_service.Comments.Contracts.{Provider}
use social_comments_service.Comments.Ensures.{Ensures}
use social_comments_service.Comments.Invariants.{Keeps, ProviderKeeps}
use social_comments_service.Composition.{
  World, ask_to_publish, in_world, on_client, on_memory, registered,
}
use social_comments_service.Repositories.InMemory.{Memory}
use social_comments_service.Shared.Exec.{Exec, ok}
use social_comments_service.Shared.Types.{Platform}

module _ {S A : Type 0} {P : Memory → Type 0} where
  pub on_memory-Keeps :
      (f : Exec Memory A) → Keeps P f → Keeps (λ (w : World S). P w.memory) (on_memory f)
  unfolding on_memory
  on_memory-Keeps f k = record { kept = λ w p. k.kept w.memory p }

  pub on_memory-Ensures :
      {R : A → Memory → Type 0} (f : Exec Memory A)
      → Ensures P R f
      → Ensures (λ (w : World S). P w.memory) (λ a w. R a w.memory) (on_memory f)
  unfolding on_memory
  on_memory-Ensures f r = record { leaves = λ w a p e. r.leaves w.memory a p e }

module _ {S : Type 0} (providers : Platform → Option (Provider S)) (P : Memory → Type 0) where
  pub registered-ProviderKeeps :
      (p : Platform) (r : Provider (World S))
      → registered providers p ≡ ok r
      → ProviderKeeps (λ w. P w.memory) r
  unfolding registered on_client ask_to_publish
  registered-ProviderKeeps p r h = elim (Option-cases (providers p)) [
    | inl e ↦ absurd (cc (rw (e, registered) at h))
    | inr (q, e) ↦
        let same : in_world q ≡ r = cc (rw (e, registered) at h) in
        rw (← same) (record {
          list_page = λ x. record { kept = λ w s. s };
          publish_reply = λ c. record { kept = λ w s. s };
        })
  ]
