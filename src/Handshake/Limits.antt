-- ===== src/Handshake/Limits.antt =====
-- internal/protocol/handshake.go: the token buckets, `allow` and `evictOldest`.
-- A time is a number of nanoseconds since Go's zero time, which is 0. The `float64` tokens are
-- counted in exact billionths of a token, so that a nanosecond at rate `limit` adds `limit` of them;
-- rounding of floats is not modelled.
pub mod Rate
pub mod Evict
use quantumcat.Base.{
  ℕ, ◌+◌, ◌-◌, ◌*◌, min, Bytes, Bool, true, false, not, ◌||◌, ◌==◌, ltb, if◌then◌else◌, List, [],
  ◌∷◌, replicate,
}
use quantumcat.Base.Assoc.{erase, bytes_key}

abbrev pub second : ℕ
second = 1000000000

pub record Bucket : Type 0 where
  pub start : ℕ
  pub tokens : ℕ

-- The zero value, which a lookup of a missing key returns.
abbrev pub zero_bucket : Bucket
zero_bucket = record { start = 0; tokens = 0 }

unfoldable pub refill : Bucket → ℕ → ℕ → Bucket
refill b now limit =
    if b.start == 0
    then record { start = now; tokens = limit * second }
    else if ltb b.start now
    then record { start = now; tokens = min (limit * second) (b.tokens + (now - b.start) * limit) }
    else b

unfoldable pub allow : Bucket → ℕ → ℕ → Bucket × Bool
allow b now limit =
    let b' = refill b now limit in
    if ltb b'.tokens second then (b', false) else (record b' { tokens = b'.tokens - second }, true)

abbrev pub Table : Type 0
Table = List (Bytes × Bucket)

-- The loop of `evictOldest` over the entries that are left, with its two variables.
unfoldable pub oldest_entry : Table → Bytes → ℕ → Bytes × ℕ
oldest_entry [] key oldest = (key, oldest)
oldest_entry ((k, b) ∷ rest) key oldest =
    if oldest == 0 || ltb b.start oldest
    then oldest_entry rest k b.start
    else oldest_entry rest key oldest

unfoldable pub evict_oldest : Table → Table
evict_oldest table =
    let (key, oldest) = oldest_entry table (replicate 32 0) 0 in
    if not (oldest == 0) then erase key table else table
