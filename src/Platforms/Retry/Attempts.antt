-- ===== src/Platforms/Retry/Attempts.antt =====
-- How often a provider is called.
use social_comments_service.Base.{
  Bool-cases, Option-cases, arith, false, inl, inr, leb, ltb, none, refl, suc, true, zero, ℕ, ◌+◌,
  ◌-◌, ◌≡◌, ◌≤◌,
}
use social_comments_service.Platforms.Retry.{
  Operation, RetryPolicy, call_from, call_provider, provider_policies, retry_delay_for,
  with_timeout,
}
use social_comments_service.Shared.Errors.{Thrown}
use social_comments_service.Shared.Exec.{Result-cases, handle, ◌>>=◌}

never_delays :
    (e : Thrown) (attempt : ℕ) (policy : RetryPolicy)
    → ((e : Thrown) → policy.should_retry e ≡ false)
    → retry_delay_for e attempt policy ≡ none
unfolding retry_delay_for
never_delays e attempt policy never = elim (Bool-cases (leb policy.max_attempts attempt)) [
  | inl last ↦ rw (last)
  | inr more ↦ rw (more, never e)
]

last_attempt :
    (e : Thrown) (attempt : ℕ) (policy : RetryPolicy)
    → policy.max_attempts ≤ attempt
    → retry_delay_for e attempt policy ≡ none
unfolding retry_delay_for
last_attempt e attempt policy h =
    let last : leb policy.max_attempts attempt ≡ true = ground arith in rw last refl

module _ {S A : Type 0} where
  -- An operation that counts its runs beside its state.
  abbrev pub counted : Operation S A → Operation (S × ℕ) A
  counted operation = record {
    run = λ w. ((operation.run w.0).0, ((operation.run w.0).1, w.1 + 1));
    takes = λ w. operation.takes w.0;
  }

  pub counted_once :
      (operation : Operation S A) (t : ℕ) (w : S × ℕ)
      → (with_timeout (counted operation) t w).1.1 ≡ w.1 + 1
  unfolding with_timeout
  counted_once operation t w = elim (Bool-cases (ltb t (operation.takes w.0))) [
    | inl late ↦ rw (late)
    | inr in_time ↦ rw (in_time)
  ]

  -- Retries that are left when the attempts are used up are not used.
  call_from_same :
      (left attempt more : ℕ) (operation : Operation S A) (policy : RetryPolicy) (s : S)
      → policy.max_attempts ≤ attempt + left
      → call_from (left + more) attempt operation policy s
        ≡ call_from left attempt operation policy s
  unfolding call_from ◌>>=◌
  call_from_same zero attempt zero operation policy s h = refl
  call_from_same zero attempt (suc more) operation policy s h =
      let turns : 0 + suc more ≡ suc more = omega arith in
      rw turns (elim (Result-cases (with_timeout operation policy.timeout_ms s).0) [
        | inr (a, x) ↦ rw x refl
        | inl (e, x) ↦ rw (x, handle, last_attempt e attempt policy (omega (arith, h))) refl
      ])
  call_from_same (suc left) attempt more operation policy s h =
      let turns : suc left + more ≡ suc (left + more) = omega arith in
      rw turns (elim (Result-cases (with_timeout operation policy.timeout_ms s).0) [
        | inr (a, x) ↦ rw x refl
        | inl (e, x) ↦ elim (Option-cases (retry_delay_for e attempt policy)) [
          | inl last ↦ rw (x, handle, last) refl
          | inr (d, again) ↦
              rw (x, handle, again)
                (call_from_same left (attempt + 1) more operation policy
                  (with_timeout operation policy.timeout_ms s).1 (omega (arith, h)))
        ]
      ])

  call_from_bound :
      (left attempt : ℕ) (operation : Operation S A) (policy : RetryPolicy) (w : S × ℕ)
      → (call_from left attempt (counted operation) policy w).1.1 ≤ w.1 + (left + 1)
  unfolding call_from ◌>>=◌
  call_from_bound zero attempt operation policy w =
      omega (arith, counted_once operation policy.timeout_ms w)
  call_from_bound (suc left) attempt operation policy w =
      let first = counted_once operation policy.timeout_ms w in
      elim (Result-cases (with_timeout (counted operation) policy.timeout_ms w).0) [
        | inr (a, x) ↦ rw (x) (omega (arith, first))
        | inl (e, x) ↦ elim (Option-cases (retry_delay_for e attempt policy)) [
          | inl last ↦ rw (x, handle, last) (omega (arith, first))
          | inr (d, again) ↦
              rw (x, handle, again)
                (omega (
                  arith,
                  first,
                  call_from_bound left (attempt + 1) operation policy
                      (with_timeout (counted operation) policy.timeout_ms w).1,
                ))
        ]
      ]

  -- The loop ends: a provider is called at most as often as the policy has attempts, and once if it
  -- has none, however it answers; and with any more turns the loop would do the same.
  pub call_provider_bound :
      (operation : Operation S A) (policy : RetryPolicy) (w : S × ℕ) (more : ℕ) (s : S)
      → ((call_provider (counted operation) policy w).1.1 ≤ w.1 + (policy.max_attempts - 1 + 1))
        × (call_from (policy.max_attempts - 1 + more) 1 operation policy s
            ≡ call_provider operation policy s)
  unfolding call_provider
  call_provider_bound operation policy w more s = (
    call_from_bound (policy.max_attempts - 1) 1 operation policy w,
    call_from_same (policy.max_attempts - 1) 1 more operation policy s (omega arith),
  )

  call_from_once :
      (left attempt : ℕ) (operation : Operation S A) (policy : RetryPolicy) (s : S)
      → ((e : Thrown) → policy.should_retry e ≡ false)
      → call_from left attempt operation policy s ≡ with_timeout operation policy.timeout_ms s
  unfolding call_from ◌>>=◌
  call_from_once zero attempt operation policy s never = refl
  call_from_once (suc left) attempt operation policy s never =
      elim (Result-cases (with_timeout operation policy.timeout_ms s).0) [
        | inr (a, x) ↦ rw (x)
        | inl (e, x) ↦ rw (x, handle, never_delays e attempt policy never)
      ]

  -- Under the policy for writes a provider is called once: a call that fails or is late is not
  -- repeated, whatever policy it was made from.
  pub write_once :
      (operation : Operation S A) (read : RetryPolicy) (s : S)
      → call_provider operation (provider_policies read).write s
        ≡ with_timeout operation read.timeout_ms s
  unfolding call_provider provider_policies
  write_once operation read s =
      call_from_once (read.max_attempts - 1) 1 operation (record read { should_retry = λ e. false })
        s (λ e. refl)
