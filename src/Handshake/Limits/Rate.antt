-- ===== src/Handshake/Limits/Rate.antt =====
-- What `allow` of internal/protocol/handshake.go grants over time.
use quantumcat.Base.{
  ℕ, suc, ◌+◌, ◌-◌, ◌*◌, ◌≤◌, ◌<◌, ◌≡◌, ◌≢◌, Bool, true, false, if◌then◌else◌, List, [], ◌∷◌, All,
  arith,
}
use quantumcat.Handshake.Limits.{Bucket, allow, refill, second, zero_bucket}

span : (a b k : ℕ) → a ≤ b → (b - a) * k + a * k ≡ b * k
span a b k h = grind arith

abbrev pub cost : Bool → ℕ
cost true = second
cost false = 0

-- One call: what it spends and keeps was there, or came in with the time that passed.
pub allow_spends :
    (b : Bucket) (now limit : ℕ)
    → b.start ≢ 0
    → let (b', granted) = allow b now limit in
      (b'.tokens + cost granted + b.start * limit ≤ b.tokens + b'.start * limit)
      × (b.start ≤ b'.start)
unfolding allow refill
allow_spends b now limit h = ground (arith, span b.start now limit)

allow_start :
    (b : Bucket) (now limit latest : ℕ)
    → b.start ≤ latest
    → now ≤ latest
    → (allow b now limit).0.start ≤ latest
unfolding allow refill
allow_start b now limit latest h k = ground arith

-- A run of calls on one bucket: the last state, and how many were granted.
unfoldable pub grants : Bucket → ℕ → List ℕ → Bucket × ℕ
grants b limit [] = (b, 0)
grants b limit (now ∷ rest) =
    let (b', granted) = allow b now limit in
    let (last, n) = grants b' limit rest in (last, if granted then suc n else n)

abbrev Spent : Bucket → ℕ → Bucket × ℕ → Type 0
Spent b limit (last, n) = last.tokens + n * second + b.start * limit ≤ b.tokens + last.start * limit

grants_spend :
    (b : Bucket) (limit : ℕ) (times : List ℕ) → b.start ≢ 0 → Spent b limit (grants b limit times)
unfolding grants
grants_spend b limit [] h = omega arith
grants_spend b limit (now ∷ rest) h =
    let a = allow_spends b now limit h in
    let ih = grants_spend (allow b now limit).0 limit rest (omega arith) in ground arith

grants_start :
    (b : Bucket) (limit latest : ℕ) (times : List ℕ)
    → b.start ≤ latest
    → All (λ t. t ≤ latest) times
    → (grants b limit times).0.start ≤ latest
unfolding grants
grants_start b limit latest [] h k = h
grants_start b limit latest (now ∷ rest) h k =
    grants_start (allow b now limit).0 limit latest rest (allow_start b now limit latest h k.0) k.1

allow_fresh :
    (first limit : ℕ)
    → 0 < first
    → let (b, granted) = allow zero_bucket first limit in
      (b.tokens + cost granted ≡ limit * second) × (b.start ≡ first)
unfolding allow refill
allow_fresh first limit h = ground arith

mul_mono : (a b k : ℕ) → a ≤ b → a * k ≤ b * k
mul_mono a b k h = grind arith

-- From a new bucket on, whatever the calls and their order, at most `limit` are granted at once and
-- `limit` more for each second between the first call and the latest.
pub grants_rate :
    (first limit latest : ℕ) (times : List ℕ)
    → 0 < first
    → first ≤ latest
    → All (λ t. t ≤ latest) times
    → (grants zero_bucket limit (first ∷ times)).1 * second
      ≤ limit * second + (latest - first) * limit
unfolding grants
grants_rate first limit latest times h le k =
    let b = (allow zero_bucket first limit).0 in
    let f = allow_fresh first limit h in
    ground (
      arith,
      f,
      grants_spend b limit times (omega arith),
      mul_mono (grants b limit times).0.start latest limit
          (grants_start b limit latest times (omega arith) k),
      span first latest limit le,
    )

refill_idle :
    (b : Bucket) (now limit : ℕ)
    → b.start ≢ 0
    → b.start + second ≤ now
    → refill b now limit ≡ refill zero_bucket now limit
unfolding refill
refill_idle b now limit h idle = ground (arith, mul_mono second (now - b.start) limit (omega arith))

-- A bucket that has been idle for more than a second decides as a new one: `Expire` may drop it.
pub allow_idle :
    (b : Bucket) (now limit : ℕ)
    → b.start ≢ 0
    → b.start + second ≤ now
    → allow b now limit ≡ allow zero_bucket now limit
unfolding allow
allow_idle b now limit h idle = rw (refill_idle b now limit h idle)
