-- ===== src/Ssh/Reconnect/Retries.antt =====
-- What the supervisor answers to failures in a row, and how its delays grow.
use native.Mathlib.Nat.{two-pow-succ, mul-add}
use weftgrid.Base.{
  ℕ, zero, suc, ◌+◌, ◌-◌, ◌*◌, ◌^◌, ◌≤◌, ◌<◌, ◌≡◌, sym, ap, ◌∙◌, min, Bool, true, false, not,
  Option, none, some, List, [], ◌∷◌, arith, ltb, if◌then◌else◌, length,
}
use weftgrid.Ssh.Reconnect.{
  ConnectionStatus, connecting, connected, reconnecting, failed, disconnected, ReconnectPolicy,
  ReconnectSupervisor, checked_mul, unwrap_or, backoff_for, advance_to, advance_attempt,
  record_drop, record_attempt_failed,
}

-- A loss of the session, and a retry that did not work.
pub data Failure : Type 0 where
  drops attempt_fails : Failure

abbrev pub fail : ReconnectSupervisor → Failure → ReconnectSupervisor × Option ℕ
fail s drops = record_drop s
fail s attempt_fails = record_attempt_failed s

-- The supervisor after failures in a row, and its answers.
unfoldable pub fail_all : ReconnectSupervisor → List Failure → ReconnectSupervisor × List (Option ℕ)
fail_all s [] = (s, [])
fail_all s (f ∷ fs) = let now = fail s f in let rest = fail_all now.0 fs in (rest.0, now.1 ∷ rest.1)

-- The answers to `n` failures after the first `k`: a delay for each of the first `max_attempts`.
unfoldable pub retries : ReconnectPolicy → ℕ → ℕ → List (Option ℕ)
retries policy k zero = []
retries policy k (suc n) =
    (if ltb k policy.max_attempts then some (backoff_for policy (k + 1)) else none)
    ∷ retries policy (k + 1) n

abbrev pub is_failed : ConnectionStatus → Bool
is_failed (failed _) = true
is_failed connecting = false
is_failed connected = false
is_failed (reconnecting _ _) = false
is_failed disconnected = false

advance_lem :
    (s : ReconnectSupervisor) (f : Failure)
    → s.attempt + 1 < 2 ^ 32
    → ((fail s f).0.attempt ≡ s.attempt + 1)
      × ((fail s f).0.policy ≡ s.policy)
      × ((fail s f).1 ≡ (
          if ltb s.attempt s.policy.max_attempts
          then some (backoff_for s.policy (s.attempt + 1))
          else none))
      × (is_failed (fail s f).0.status ≡ not (ltb s.attempt s.policy.max_attempts))
unfolding record_drop record_attempt_failed advance_attempt advance_to
advance_lem s drops h = ground (arith, h)
advance_lem s attempt_fails h = ground (arith, h)

cons-eq : {A : Type 0} {x y : A} {xs ys : List A} → x ≡ y → xs ≡ ys → x ∷ xs ≡ y ∷ ys
cons-eq h k = cc

retries-eq :
    {p q : ReconnectPolicy} {k l : ℕ} → p ≡ q → k ≡ l → (n : ℕ) → retries p k n ≡ retries q l n
retries-eq h e n = cc

-- After failures in a row, with the counter below 2 ^ 32, the supervisor has answered with the delay of
-- each retry up to the last that the policy allows and with `none` from then on; it has counted all of
-- them, and it is failed if the last of them was past the limit.
pub fail_all-retries :
    (s : ReconnectSupervisor) (f : Failure) (fs : List Failure)
    → s.attempt + length (f ∷ fs) < 2 ^ 32
    → ((fail_all s (f ∷ fs)).1 ≡ retries s.policy s.attempt (length (f ∷ fs)))
      × ((fail_all s (f ∷ fs)).0.attempt ≡ s.attempt + length (f ∷ fs))
      × ((fail_all s (f ∷ fs)).0.policy ≡ s.policy)
      × (is_failed (fail_all s (f ∷ fs)).0.status
          ≡ ltb s.policy.max_attempts (s.attempt + length (f ∷ fs)))
unfolding fail_all retries
fail_all-retries s f [] h =
    let now = advance_lem s f (omega (arith, h)) in
    (ap (λ o. o ∷ []) now.2, ground (arith, now), now.1, ground (arith, now))
fail_all-retries s f (g ∷ fs) h =
    let now = advance_lem s f (omega (arith, h)) in
    let rest = fail_all-retries (fail s f).0 g fs (ground (arith, h, now)) in
    let seen = rest.0 ∙ retries-eq now.1 now.0 (length (g ∷ fs)) in
    let state = rw now.1 at rest.3 in
    (
      cons-eq now.2 seen,
      ground (arith, rest.1, now.0),
      rest.2 ∙ now.1,
      ground (arith, state, now.0),
    )

-- The formula that the delays follow.
delay : ReconnectPolicy → ℕ → ℕ
delay policy k = min (policy.base_delay * 2 ^ k) policy.max_delay

backoff_for-delay :
    (policy : ReconnectPolicy) (k : ℕ)
    → policy.max_delay < 2 ^ 64 * 1000000000
    → k ≤ 31
    → backoff_for policy (k + 1) ≡ delay policy k
unfolding backoff_for checked_mul unwrap_or delay
backoff_for-delay policy k hm hk =
    let shift : min (k + 1 - 1) 31 ≡ k = omega (arith, hk) in rw shift (ground (arith, hm))

delay-doubles :
    (policy : ReconnectPolicy) (k : ℕ)
    → delay policy (suc k) ≡ min (2 * delay policy k) policy.max_delay
unfolding delay
delay-doubles policy k =
    let twice : policy.base_delay * 2 ^ suc k ≡ 2 * (policy.base_delay * 2 ^ k) =
      ap (λ n. policy.base_delay * n) (two-pow-succ k)
      ∙ mul-add policy.base_delay (2 ^ k) (2 ^ k)
      ∙ omega arith in
    rw twice (omega arith)

-- The delays of the first 32 retries, for a policy whose limit is a duration: the first is
-- `base_delay`, each further one is twice the one before, and all are cut at `max_delay`.
pub backoff_for-doubles :
    (policy : ReconnectPolicy) (k : ℕ)
    → policy.max_delay < 2 ^ 64 * 1000000000
    → k < 31
    → (backoff_for policy 1 ≡ min policy.base_delay policy.max_delay)
      × (backoff_for policy (k + 2) ≡ min (2 * backoff_for policy (k + 1)) policy.max_delay)
unfolding delay
backoff_for-doubles policy k hm hk =
    let first = backoff_for-delay policy 0 hm (omega arith) in
    let now = backoff_for-delay policy k hm (omega (arith, hk)) in
    let index : k + 2 ≡ suc k + 1 = omega arith in
    let next =
      ap (backoff_for policy) index ∙ backoff_for-delay policy (suc k) hm (omega (arith, hk)) in
    (
      omega (arith, first),
      next ∙ delay-doubles policy k ∙ ap (λ d. min (2 * d) policy.max_delay) (sym now),
    )
