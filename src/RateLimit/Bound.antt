-- ===== src/RateLimit/Bound.antt =====
-- What the token bucket grants over any stretch of time.
use go_cmms.Base.{
  refl, ap, ◌∙◌, ℕ, ◌+◌, ◌*◌, ◌≤◌, ◌≡◌, true, none, some, List, [], ◌∷◌, arith, Bool-cases,
  Option-cases, Option, sym, inl, inr,
}
use mathlib.Core.Path.{subst}
use go_cmms.Base.Int.{ℤ, pos_part, neg_part}
use go_cmms.Base.Maps.{lookup, lookup-insert}
use go_cmms.Text.{Text, text_eq, text_eq_iff, text_key}
use go_cmms.Models.{Time}
use go_cmms.RateLimit.{
  Bucket, Limiter, one_token, bucket_of, refill, take, allow, rate_of, burst_of, new_limiter,
}
use go_cmms.RateLimit.Calls.{
  cost, refill-le, take_balance, run, Ordered, allow-other, call-solvent, scaled, grants_self,
  grants_other, bucket_of-known, bucket_of-new, paced, call_again, run_known,
}

-- A bucket that the key may have before an instant: none, or one without debt that was filled
-- before it.
abbrev Solvent : Time → Option Bucket → Type 0
Solvent lo none = Unit
Solvent lo (some b) = (neg_part b.tokens ≡ 0) × (b.last_refill ≤ lo)

Solvent-later : (lo t : Time) (o : Option Bucket) → lo ≤ t → Solvent lo o → Solvent t o
Solvent-later lo t none h s = tt
Solvent-later lo t (some b) h (n, k) = (n, omega arith)

bucket_of-Solvent :
    (key : Text) (lo t : Time) (l : Limiter)
    → lo ≤ t
    → Solvent lo (lookup key l.buckets)
    → (neg_part (bucket_of key t l).tokens ≡ 0) × ((bucket_of key t l).last_refill ≤ t)
bucket_of-Solvent key lo t l h s = elim (Option-cases (lookup key l.buckets)) [
  | inl e ↦ rw (bucket_of-new key t l e) (refl, omega arith)
  | inr (b, e) ↦
      rw (bucket_of-known key t l b e)
        ((subst (Solvent lo) e s).0, omega (arith, (subst (Solvent lo) e s).1))
]

-- A call keeps the settings, and every key's bucket without debt.
allow-Solvent :
    (k key : Text) (lo t : Time) (l : Limiter)
    → lo ≤ t
    → Solvent lo (lookup key l.buckets)
    → Solvent t (lookup key (allow k t l).1.buckets)
allow-Solvent k key lo t l h s = elim (Bool-cases (text_eq k key)) [
  | inl same ↦ rw ((text_eq_iff k key).0 same) (
      let (n, last) = bucket_of-Solvent key lo t l h s in
      let (c, found, pays, solvent) = call_again key t l (bucket_of key t l) refl n last in
      subst (Solvent t) (sym found) (solvent, omega (arith, pays.1)))
  | inr other ↦
      subst (Solvent t) (sym ((allow-other k key t l).2 other))
        (Solvent-later lo t (lookup key l.buckets) h s)
]

run-Solvent :
    (key : Text) (lo hi : Time) (calls : List (Text × Time)) (l : Limiter)
    → Ordered lo hi calls
    → Solvent lo (lookup key l.buckets)
    → ((run key calls l).1.rate ≡ l.rate)
      × ((run key calls l).1.capacity ≡ l.capacity)
      × Solvent hi (lookup key (run key calls l).1.buckets)
unfolding run
run-Solvent key lo hi [] l o s = (refl, refl, Solvent-later lo hi (lookup key l.buckets) o s)
run-Solvent key lo hi ((k, t) ∷ calls) l (o, p) s =
    let (rate, cap, _) = allow-other k key t l in
    let (rates, caps, later) =
      run-Solvent key t hi calls (allow k t l).1 p (allow-Solvent k key lo t l o s) in
    (rates ∙ rate, caps ∙ cap, later)

-- The cap on the refill: whatever time has passed before, a call leaves and grants at most the
-- capacity.
call_capped :
    (l : Limiter) (t : Time) (b : Bucket)
    → neg_part b.tokens ≡ 0
    → b.last_refill ≤ t
    → pos_part (take (refill l t b) t).1.tokens + cost (take (refill l t b) t).0 ≤ l.capacity
call_capped l t b n h = omega (
  arith,
  refill-le l t b,
  take_balance (refill l t b) t,
  call-solvent l t b n (scaled b.last_refill t l.rate h),
)

-- The bucket that a call leaves for its key.
call_filled :
    (key : Text) (lo t : Time) (l : Limiter)
    → lo ≤ t
    → Solvent lo (lookup key l.buckets)
    → (c : Bucket) × (lookup key (allow key t l).1.buckets ≡ some c)
      × (c.last_refill ≡ t)
      × (neg_part c.tokens ≡ 0)
      × (pos_part c.tokens + cost (allow key t l).0 ≤ l.capacity)
unfolding allow
call_filled key lo t l h s =
    let b = bucket_of key t l in
    let (n, last) = bucket_of-Solvent key lo t l h s in
    (
      (take (refill l t b) t).1,
      ground
          (arith, lookup-insert key key (take (refill l t b) t).1 l.buckets, text_eq_iff key key),
      (take_balance (refill l t b) t).1,
      call-solvent l t b n (scaled b.last_refill t l.rate last),
      call_capped l t b n last,
    )

run_capped :
    (key : Text) (lo hi : Time) (calls : List (Text × Time)) (l : Limiter)
    → Solvent lo (lookup key l.buckets)
    → Ordered lo hi calls
    → (run key calls l).0 * one_token + lo * l.rate ≤ l.capacity + hi * l.rate
unfolding run
run_capped key lo hi [] l s o = omega (arith, scaled lo hi l.rate o)
run_capped key lo hi ((k, t) ∷ calls) l s (o, p) = elim (Bool-cases (text_eq k key)) [
  | inl same ↦ rw ((text_eq_iff k key).0 same) (
      let (c, found, last, solvent, capped) = call_filled key lo t l o s in
      let h =
        rw (allow-other key key t l).0 at
          (run_known key t hi calls (allow key t l).1 c found (omega (arith, last)) solvent p) in
      omega (
        arith,
        h,
        capped,
        ap (λ (x : ℕ). x * l.rate) last,
        scaled lo t l.rate o,
        grants_self key (allow key t l).0,
      ))
  | inr other ↦
      let (rate, cap, _) = allow-other k key t l in
      let h = run_capped key t hi calls (allow k t l).1 (allow-Solvent k key lo t l o s) p in
      omega
        (arith, rw (rate, cap) at h, grants_other k key other (allow k t l).0, scaled lo t l.rate o)
]

-- Between two instants, whatever calls came before the first and however long the client was idle
-- then, a client is granted at most the burst and the rate times the time between them, whatever
-- calls other clients make in between, when the clock readings reach the lock in order (in units:
-- 6·10¹⁶ to a token).
pub run-le :
    (rpm burst : ℤ) (ttl : ℕ) (key : Text) (start lo hi : Time) (before calls : List (Text × Time))
    → Ordered start lo before
    → Ordered lo hi calls
    → (run key calls (run key before (new_limiter rpm burst ttl)).1).0 * one_token
        + lo * rate_of rpm
      ≤ burst_of burst * one_token + hi * rate_of rpm
unfolding new_limiter lookup
run-le rpm burst ttl key start lo hi before calls o p =
    let l = new_limiter rpm burst ttl in
    let (rate, cap, s) = run-Solvent key start lo before l o tt in
    rw (rate, cap) at (run_capped key lo hi calls (run key before l).1 s p)

-- A client is granted its first call, and each call that comes at least a token's worth of time
-- after the last refill of a bucket without debt, when the capacity is at least one token.
pub allow_paced :
    (key : Text) (t : Time) (l : Limiter)
    → one_token ≤ l.capacity
    → (lookup key l.buckets ≡ none → (allow key t l).0 ≡ true)
      × ((b : Bucket)
          → lookup key l.buckets ≡ some b
          → neg_part b.tokens ≡ 0
          → b.last_refill * l.rate + one_token ≤ t * l.rate
          → (allow key t l).0 ≡ true)
unfolding allow
allow_paced key t l cap = (
  λ e. rw (bucket_of-new key t l e) (paced l t _ cap (omega arith)),
  λ b e n h. rw (bucket_of-known key t l b e) (paced l t b cap (omega arith)),
)
