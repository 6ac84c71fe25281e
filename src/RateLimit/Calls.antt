-- ===== src/RateLimit/Calls.antt =====
-- What one call of the token bucket grants and leaves, and a run of calls.
use go_cmms.Base.{
  refl, ap, ◌∙◌, ℕ, ◌+◌, ◌*◌, ◌≤◌, ◌≡◌, Bool, true, false, none, some, List, [], ◌∷◌, arith,
  if◌then◌else◌, Bool-cases, inl, inr,
}
use go_cmms.Base.Int.{ℤ, pos, pos_part, neg_part, ◌≤ℤ◌, +ℤ_parts, -ℤ_parts, sub_ℕ}
use go_cmms.Base.Maps.{lookup, lookup-insert}
use go_cmms.Text.{Text, text_eq, text_eq_iff, text_key}
use go_cmms.Models.{Time}
use go_cmms.RateLimit.{Bucket, Limiter, one_token, min, bucket_of, refill, take, allow}

-- The tokens in units that a decision costs.
abbrev pub cost : Bool → ℕ
cost true = one_token
cost false = 0

-- One call on a bucket: it never holds more than the capacity, and what it holds and grants comes
-- from what it held and the refill.
pub refill-le :
    (l : Limiter) (now : Time) (b : Bucket)
    → (refill l now b ≤ℤ pos l.capacity)
      × (pos_part (refill l now b) + neg_part b.tokens + b.last_refill * l.rate
          ≤ neg_part (refill l now b) + pos_part b.tokens + now * l.rate)
unfolding refill min
refill-le l now b =
    ground (arith, +ℤ_parts b.tokens (sub_ℕ (now * l.rate) (b.last_refill * l.rate)))

pub take_balance :
    (t : ℤ) (now : Time)
    → (pos_part (take t now).1.tokens + cost (take t now).0 + neg_part t
        ≡ neg_part (take t now).1.tokens + pos_part t)
      × ((take t now).1.last_refill ≡ now)
unfolding take
take_balance t now = ground (arith, -ℤ_parts t (pos one_token))

-- The bucket after a call: at most full, and what it holds and grants is paid for.
abbrev pub Pays : Limiter → Bucket → Time → Bool → Bucket → Type 0
Pays l b now ok c =
    (c.tokens ≤ℤ pos l.capacity)
    × (c.last_refill ≡ now)
    × (pos_part c.tokens + cost ok + neg_part b.tokens + b.last_refill * l.rate
        ≤ neg_part c.tokens + pos_part b.tokens + now * l.rate)

call-Pays :
    (l : Limiter) (now : Time) (b : Bucket)
    → Pays l b now (take (refill l now b) now).0 (take (refill l now b) now).1
call-Pays l now b = omega (arith, refill-le l now b, take_balance (refill l now b) now)

-- The calls, each a key and a reading of the clock, in the order in which they take the lock; how
-- many of the calls for one key are granted, and the limiter that they leave.
abbrev pub grants : Text → Text → Bool → ℕ
grants key k true = if text_eq k key then 1 else 0
grants key k false = 0

unfoldable pub run : Text → List (Text × Time) → Limiter → ℕ × Limiter
run key [] l = (0, l)
run key ((k, t) ∷ calls) l =
    let (ok, l') = allow k t l in let (n, end) = run key calls l' in (grants key k ok + n, end)

-- The readings do not go back, and lie between two instants.
abbrev pub Ordered : Time → Time → List (Text × Time) → Type 0
Ordered lo hi [] = lo ≤ hi
Ordered lo hi ((k, t) ∷ calls) = (lo ≤ t) × Ordered t hi calls

-- A call leaves the settings and every other key's bucket alone.
pub allow-other :
    (k key : Text) (t : Time) (l : Limiter)
    → ((allow k t l).1.rate ≡ l.rate)
      × ((allow k t l).1.capacity ≡ l.capacity)
      × (text_eq k key ≡ false → lookup key (allow k t l).1.buckets ≡ lookup key l.buckets)
unfolding allow
allow-other k key t l = (
  refl,
  refl,
  λ h. ground (arith, lookup-insert k key (take (refill l t (bucket_of k t l)) t).1 l.buckets),
)

allow_self :
    (key : Text) (t : Time) (l : Limiter)
    → (c : Bucket) × (lookup key (allow key t l).1.buckets ≡ some c)
      × Pays l (bucket_of key t l) t (allow key t l).0 c
unfolding allow
allow_self key t l = (
  (take (refill l t (bucket_of key t l)) t).1,
  ground (
    arith,
    lookup-insert key key (take (refill l t (bucket_of key t l)) t).1 l.buckets,
    text_eq_iff key key,
  ),
  call-Pays l t (bucket_of key t l),
)

-- A bucket without debt stays without debt when the clock does not go back.
pub call-solvent :
    (l : Limiter) (now : Time) (b : Bucket)
    → neg_part b.tokens ≡ 0
    → b.last_refill * l.rate ≤ now * l.rate
    → neg_part (take (refill l now b) now).1.tokens ≡ 0
unfolding take refill min
call-solvent l now b n h = ground (
  arith,
  +ℤ_parts b.tokens (sub_ℕ (now * l.rate) (b.last_refill * l.rate)),
  -ℤ_parts (refill l now b) (pos one_token),
)

pub scaled : (a b r : ℕ) → a ≤ b → a * r ≤ b * r
scaled a b r h = grind arith

pub grants_self : (key : Text) (ok : Bool) → grants key key ok * one_token ≡ cost ok
grants_self key true = ground (arith, text_eq_iff key key)
grants_self key false = refl

pub grants_other : (k key : Text) → text_eq k key ≡ false → (ok : Bool) → grants key k ok ≡ 0
grants_other k key h true = rw h
grants_other k key h false = refl

-- The calls that follow a call for the key, put together with it.
run_after :
    (l : Limiter) (t hi : Time) (b c : Bucket) (ok : Bool) (g n : ℕ)
    → Pays l b t ok c
    → neg_part b.tokens ≡ 0
    → g * one_token ≡ cost ok
    → n * one_token + c.last_refill * l.rate ≤ pos_part c.tokens + hi * l.rate
    → neg_part c.tokens ≡ 0
    → (g + n) * one_token + b.last_refill * l.rate ≤ pos_part b.tokens + hi * l.rate
run_after l t hi b c ok g n p nb e h nc = omega (arith, ap (λ (x : ℕ). x * l.rate) p.1)

pub bucket_of-known :
    (key : Text) (t : Time) (l : Limiter) (b : Bucket)
    → lookup key l.buckets ≡ some b
    → bucket_of key t l ≡ b
unfolding bucket_of
bucket_of-known key t l b e = rw (e, bucket_of) refl

pub bucket_of-new :
    (key : Text) (t : Time) (l : Limiter)
    → lookup key l.buckets ≡ none
    → bucket_of key t l ≡ record { tokens = pos l.capacity; last_refill = t }
unfolding bucket_of
bucket_of-new key t l e = rw (e, bucket_of) refl

pub paced :
    (l : Limiter) (t : Time) (b : Bucket)
    → one_token ≤ l.capacity
    → neg_part b.tokens + b.last_refill * l.rate + one_token ≤ pos_part b.tokens + t * l.rate
    → (take (refill l t b) t).0 ≡ true
unfolding take refill min
paced l t b cap h = ground (arith, +ℤ_parts b.tokens (sub_ℕ (t * l.rate) (b.last_refill * l.rate)))

-- The bucket of the key after a call for it, seen from any bucket without debt that it had.
pub call_again :
    (key : Text) (t : Time) (l : Limiter) (b : Bucket)
    → bucket_of key t l ≡ b
    → neg_part b.tokens ≡ 0
    → b.last_refill ≤ t
    → (c : Bucket) × (lookup key (allow key t l).1.buckets ≡ some c)
      × Pays l b t (allow key t l).0 c
      × (neg_part c.tokens ≡ 0)
unfolding allow
call_again key t l b e n h = (
  (take (refill l t b) t).1,
  rw e (
      ground
        (arith, lookup-insert key key (take (refill l t b) t).1 l.buckets, text_eq_iff key key)),
  rw e (call-Pays l t b),
  call-solvent l t b n (scaled b.last_refill t l.rate h),
)

-- From a bucket that holds no debt, the grants over ordered calls are paid by what it holds and
-- the refill.
pub run_known :
    (key : Text) (lo hi : Time) (calls : List (Text × Time)) (l : Limiter) (b : Bucket)
    → lookup key l.buckets ≡ some b
    → b.last_refill ≤ lo
    → neg_part b.tokens ≡ 0
    → Ordered lo hi calls
    → (run key calls l).0 * one_token + b.last_refill * l.rate ≤ pos_part b.tokens + hi * l.rate
unfolding run
run_known key lo hi [] l b e h n o = omega (arith, scaled b.last_refill hi l.rate (omega arith))
run_known key lo hi ((k, t) ∷ calls) l b e h n (o, p) = elim (Bool-cases (text_eq k key)) [
  | inl same ↦ rw ((text_eq_iff k key).0 same) (
      let (c, found, pays, solvent) =
        call_again key t l b (bucket_of-known key t l b e) n (omega arith) in
      run_after l t hi b c (allow key t l).0 (grants key key (allow key t l).0) _ pays n
        (grants_self key (allow key t l).0)
        (rw (allow-other key key t l).0 at
          (run_known key t hi calls (allow key t l).1 c found (omega arith) solvent p))
        solvent)
  | inr other ↦
      let (rate, _, lookup_same) = allow-other k key t l in
      let h =
        rw rate at
          (run_known key t hi calls (allow k t l).1 b (lookup_same other ∙ e) (omega arith) n p) in
      omega (arith, h, grants_other k key other (allow k t l).0)
]
