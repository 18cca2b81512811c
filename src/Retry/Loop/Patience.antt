-- ===== src/Retry/Loop/Patience.antt =====
-- A rate limit or a quota is waited out and uses no attempt.
use codex_shim.Prelude.{
  ℕ, zero, suc, ◌-◌, ◌<◌, ◌⊎◌, inl, inr, ◌≡◌, refl, ◌∙◌, Bool, true, false, ◌&&◌, Option, none,
  some, List, [], ◌∷◌, ◌++◌, min, arith, All, if◌then◌else◌, ap,
}
use codex_shim.Retry.Policy.{
  Kind, no_throttle, rate_limit, quota, transport, RetryPolicy, fresh_state, endless_kind,
  kind_for_policy, is_transport, inferred_retry_after, second,
}
use codex_shim.Retry.Loop.{
  naps, throttle_sleep, Failure, Outcome, raised, answered, refused, Loop, start, Step, again,
  unless_gone, kind_of, handle_endless_throttle, after_exception, after_refusal, raise_if,
  resets_of, post_once, post_from, retry_aiohttp_post,
}
use codex_shim.Retry.Throttle.{next_throttle_delay}
use codex_shim.Retry.Loop.Termination.{is_endless, post_from-again}

-- A rate limit or a quota.
abbrev pub IsLimit : Kind → Type 0
IsLimit kind = (kind ≡ quota) ⊎ (kind ≡ rate_limit)

-- The failure of a post that the loop names a rate limit or a quota.
abbrev pub IsLimited : Outcome → Type 0
IsLimited (raised f) = IsLimit f.classified
IsLimited (answered status) = ⊥
IsLimited (refused status hinted body_error f) = IsLimit f.classified

-- Nobody disconnects in the wait after the outcome.
abbrev pub Stays : Outcome → Type 0
Stays (raised f) = (n : ℕ) → f.gone n ≡ false
Stays (answered status) = Unit
Stays (refused status hinted body_error f) = (n : ℕ) → f.gone n ≡ false

naps-stays :
    (rounds remaining : ℕ) (gone : ℕ → Bool)
    → ((n : ℕ) → gone n ≡ false)
    → (naps rounds remaining gone).gone ≡ false
unfolding naps
naps-stays zero remaining gone h = refl
naps-stays (suc rounds) zero gone h = refl
naps-stays (suc rounds) (suc remaining) gone h = rw (h 0) (
    naps-stays rounds (suc remaining - min (suc remaining) second) (λ n. gone (suc n))
      (λ n. h (suc n)))

throttle_sleep-stays :
    (delay : ℕ) (gone : ℕ → Bool)
    → ((n : ℕ) → gone n ≡ false)
    → (throttle_sleep delay gone).gone ≡ false
unfolding throttle_sleep
throttle_sleep-stays delay gone h =
    rw (h 0) (naps-stays delay delay (λ n. gone (suc n)) (λ n. h (suc n)))

-- The step goes on with the attempts and the budget as they were.
abbrev pub GoesOn : Loop → Step → Type 0
GoesOn l s = (next : Loop) × (s ≡ again next) × (next.state ≡ l.state)

handle-GoesOn :
    (policy : RetryPolicy) (l : Loop) (kind : Kind) (retry_after : Option ℕ) (f : Failure)
    → ((n : ℕ) → f.gone n ≡ false)
    → GoesOn l (handle_endless_throttle policy l kind retry_after f)
unfolding handle_endless_throttle
handle-GoesOn policy l kind retry_after f h =
    let throttle =
      next_throttle_delay l.throttle kind policy retry_after (resets_of kind f.resets) in
    let next = record l { throttle = throttle } in
    (next, ap (λ b. unless_gone b next) (throttle_sleep-stays throttle.last_delay f.gone h), refl)

not_transport :
    (kind : Kind) (policy : RetryPolicy) (b : Bool)
    → endless_kind kind policy ≡ true
    → (b && is_transport kind) ≡ false
unfolding endless_kind
not_transport rate_limit policy b e = ground arith
not_transport quota policy b e = ground arith
not_transport no_throttle policy b e = cc
not_transport transport policy b e = cc

raise_if-GoesOn :
    {b : Bool} (l : Loop) {s : Step} → b ≡ false → GoesOn l s → GoesOn l (raise_if b s)
raise_if-GoesOn {b = false} l e (next, h, kept) = (next, h, kept)
raise_if-GoesOn {b = true} l e (next, h, kept) = cc

if_true : {b : Bool} (l : Loop) (x y : Step) → b ≡ true → GoesOn l x → GoesOn l (if b then x else y)
if_true {b = true} l x y e g = g
if_true {b = false} l x y e g = cc

post_once-GoesOn :
    (policy : RetryPolicy) (l : Loop) (o : Outcome)
    → is_endless policy o ≡ true
    → Stays o
    → GoesOn l (post_once policy l o)
unfolding is_endless post_once after_exception after_refusal
post_once-GoesOn policy l (answered status) e h = cc
post_once-GoesOn policy l (raised f) e h =
    if_true l _ _ e (handle-GoesOn policy l (kind_of f) none f h)
post_once-GoesOn policy l (refused status hinted body_error f) e h = if_true l _ _ e (
    raise_if-GoesOn l (not_transport (kind_of f) policy body_error e)
      (handle-GoesOn policy l (kind_of f) (inferred_retry_after (some status) hinted) f h))

post_from-patient :
    (policy : RetryPolicy) (l : Loop) (throttled rest : List Outcome)
    → All (λ o. (is_endless policy o ≡ true) × Stays o) throttled
    → (next : Loop) × (post_from policy l (throttled ++ rest) ≡ post_from policy next rest)
      × (next.state ≡ l.state)
post_from-patient policy l [] rest all = (l, refl, refl)
post_from-patient policy l (o ∷ os) rest ((e, h), all) =
    let (next, step, kept) = post_once-GoesOn policy l o e h in
    let (last, same, kept') = post_from-patient policy next os rest all in
    (last, post_from-again policy l o (os ++ rest) next step ∙ same, kept' ∙ kept)

IsLimit-endless :
    (policy : RetryPolicy) (f : Failure)
    → 1 < policy.attempts
    → IsLimit f.classified
    → endless_kind (kind_of f) policy ≡ true
unfolding kind_of kind_for_policy endless_kind
IsLimit-endless policy f many limit = elim limit [
  | inl e ↦ rw e (ground arith)
  | inr e ↦ rw e (ground arith)
]

IsLimited-endless :
    (policy : RetryPolicy) (o : Outcome)
    → 1 < policy.attempts
    → IsLimited o
    → is_endless policy o ≡ true
unfolding is_endless
IsLimited-endless policy (raised f) many limit = IsLimit-endless policy f many limit
IsLimited-endless policy (answered status) many limit = absurd limit
IsLimited-endless policy (refused status hinted body_error f) many limit =
    IsLimit-endless policy f many limit

each_limited :
    (policy : RetryPolicy) (os : List Outcome)
    → 1 < policy.attempts
    → All (λ o. IsLimited o × Stays o) os
    → All (λ o. (is_endless policy o ≡ true) × Stays o) os
each_limited policy [] many all = tt
each_limited policy (o ∷ os) many ((limit, stays), all) =
    ((IsLimited-endless policy o many limit, stays), each_limited policy os many all)

-- With more than one attempt, however many failures that are rate limits or quotas come first, if nobody
-- disconnects the loop goes on to the posts that follow, with all its attempts and its whole budget still
-- to use.
pub retry_aiohttp_post-patient :
    (policy : RetryPolicy) (throttled rest : List Outcome)
    → 1 < policy.attempts
    → All (λ o. IsLimited o × Stays o) throttled
    → (next : Loop) × (retry_aiohttp_post policy (throttled ++ rest) ≡ post_from policy next rest)
      × (next.state ≡ fresh_state)
unfolding retry_aiohttp_post
retry_aiohttp_post-patient policy throttled rest many all =
    post_from-patient policy start throttled rest (each_limited policy throttled many all)
