-- ===== src/Scheduler/Consume.antt =====
-- What `ConsumeTokens` does on each branch, and which accounts a call leaves alone.
use webmail_engine.Base.{
  ℕ, ◌≡◌, ◌≢◌, refl, ◌∙◌, inl, inr, true, false, some, String, Bool-cases, if◌then◌else◌,
}
use webmail_engine.Base.Int.{ℤ, pos, sub64, add64, leb_ℤ}
use webmail_engine.Base.Dict.{lookup, lookup-insert_self, lookup-insert_ne}
use webmail_engine.Scheduler.Bucket.{TokenBucket, try_consume, release}
use webmail_engine.Scheduler.{
  FairUsePolicy, FairUseScheduler, returned, or_default, operation_cost, consume_from,
  consume_registered, consume_tokens, release_tokens,
}

-- The account has a bucket, and this policy is in force for it.
pub record Registered (s : FairUseScheduler) (a : String) (b : TokenBucket) (p : FairUsePolicy)
    : Type 0 where
  pub has_bucket : lookup a s.buckets ≡ some b
  pub has_policy : or_default (lookup a s.policies) s.default_policy ≡ p

consume_tokens-consume_from :
    (s : FairUseScheduler) (a operation : String) (now : ℕ) {b : TokenBucket} {p : FairUsePolicy}
    → Registered s a b p
    → consume_tokens s a operation now
      ≡ ((consume_from s a operation b p).0, returned (consume_from s a operation b p).1)
unfolding consume_tokens consume_registered
consume_tokens-consume_from s a operation now r =
    rw (r.has_bucket, consume_tokens) (rw (r.has_bucket, consume_registered) (rw r.has_policy refl))

-- For an account with a bucket and an enabled policy the call succeeds exactly when the bucket
-- holds the cost. A success takes the cost from this bucket and counts one operation; a refusal
-- leaves every bucket as it was and counts one throttled request. Buckets of other accounts stay,
-- whatever the result.
pub consume_tokens_lem :
    (s : FairUseScheduler) (a operation : String) (now : ℕ) (b : TokenBucket) (p : FairUsePolicy)
    → Registered s a b p
    → p.enabled ≡ true
    → let c = operation_cost p operation in
      let s' = (consume_tokens s a operation now).0 in
      let enough = leb_ℤ c b.tokens in
      ((consume_tokens s a operation now).1 ≡ returned (record { success = enough; cost = c }))
      × (lookup a s'.buckets ≡ some (if enough then record b { tokens = sub64 b.tokens c } else b))
      × (s'.stats.total_operations
          ≡ (if enough then add64 s.stats.total_operations (pos 1) else s.stats.total_operations))
      × (s'.stats.throttled_requests ≡ (
          if enough then s.stats.throttled_requests else add64 s.stats.throttled_requests (pos 1)))
      × ((j : String) → j ≢ a → lookup j s'.buckets ≡ lookup j s.buckets)
unfolding consume_from try_consume
consume_tokens_lem s a operation now b p r on =
    let b' : TokenBucket = record b { tokens = sub64 b.tokens (operation_cost p operation) } in
    rw (consume_tokens-consume_from s a operation now r)
      (elim (Bool-cases (leb_ℤ (operation_cost p operation) b.tokens)) [
        | inl e ↦
            rw (on, e)
              (
                refl,
                lookup-insert_self a b' s.buckets,
                refl,
                refl,
                λ j ne. lookup-insert_ne a j b' s.buckets ne,
              )
        | inr e ↦ rw (on, e) (refl, r.has_bucket, refl, refl, λ j ne. refl)
      ])

consume_from-policies :
    (s : FairUseScheduler) (a operation : String) (b : TokenBucket) (p : FairUsePolicy)
    → let s' = (consume_from s a operation b p).0 in
      (s'.policies ≡ s.policies) × (s'.default_policy ≡ s.default_policy)
unfolding consume_from
consume_from-policies s a operation b p = elim (Bool-cases p.enabled) [
  | inr e ↦ rw e (refl, refl)
  | inl e ↦ elim (Bool-cases (try_consume b (operation_cost p operation)).1) [
    | inl t ↦ rw (e, t) (refl, refl)
    | inr t ↦ rw (e, t) (refl, refl)
  ]
]

-- A successful charge leaves the account registered, with what is left in its bucket.
pub consume_tokens-Registered :
    (s : FairUseScheduler) (a operation : String) (now : ℕ) (b : TokenBucket) (p : FairUsePolicy)
    → Registered s a b p
    → p.enabled ≡ true
    → leb_ℤ (operation_cost p operation) b.tokens ≡ true
    → Registered
        (consume_tokens s a operation now).0
        a
        (record b { tokens = sub64 b.tokens (operation_cost p operation) })
        p
consume_tokens-Registered s a operation now b p r on enough =
    let l = consume_tokens_lem s a operation now b p r on in
    let q = consume_from-policies s a operation b p in
    record {
      has_bucket = l.1 ∙ (rw enough refl);
      has_policy =
          rw (consume_tokens-consume_from s a operation now r) (rw (q.0, q.1) r.has_policy);
    }

pub consume_tokens_charged :
    (s : FairUseScheduler) (a operation : String) (now : ℕ) (b : TokenBucket) (p : FairUsePolicy)
    → Registered s a b p
    → p.enabled ≡ true
    → leb_ℤ (operation_cost p operation) b.tokens ≡ true
    → (consume_tokens s a operation now).1
      ≡ returned (record { success = true; cost = operation_cost p operation })
consume_tokens_charged s a operation now b p r on enough =
    (consume_tokens_lem s a operation now b p r on).0 ∙ (rw enough refl)

-- Under a disabled policy the call succeeds at cost 0 and changes nothing.
pub consume_tokens_free :
    (s : FairUseScheduler) (a operation : String) (now : ℕ) (b : TokenBucket) (p : FairUsePolicy)
    → Registered s a b p
    → p.enabled ≡ false
    → consume_tokens s a operation now ≡ (s, returned (record { success = true; cost = pos 0 }))
unfolding consume_from
consume_tokens_free s a operation now b p r off =
    rw (consume_tokens-consume_from s a operation now r) (rw off refl)

pub release_tokens-Registered :
    (s : FairUseScheduler) (a : String) (n : ℤ) (b : TokenBucket) (p : FairUsePolicy)
    → Registered s a b p
    → Registered (release_tokens s a n) a (release b n) p
unfolding release_tokens
release_tokens-Registered s a n b p r = record {
  has_bucket = rw (r.has_bucket, release_tokens) (lookup-insert_self a (release b n) s.buckets);
  has_policy = rw (r.has_bucket, release_tokens) r.has_policy;
}
