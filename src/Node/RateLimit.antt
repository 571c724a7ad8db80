-- ===== src/Node/RateLimit.antt =====
-- crates/waku-node/src/ratelimit.rs: a bucket of tokens for each peer. A token is `period` units, with the
-- period in nanoseconds, so that a nanosecond refills `capacity` units and all is exact; the rounding of
-- `f64` is not modelled. Times are nanoseconds since some start.
use mathlib.Core.Option
use rs_waku.Prelude.{
  ℕ, ◌+◌, ◌-◌, ◌*◌, List, [], ◌∷◌, Bool, true, false, if◌then◌else◌, leb, min, max,
}
use rs_waku.Prelude.Eq.{Eq, ◌==◌}
use rs_waku.Prelude.Assoc.{Assoc, lookup, insert}

pub record Bucket : Type 0 where
  pub tokens : ℕ
  pub last : ℕ

pub record RateLimiter (Peer : Type 0) : Type 0 where
  pub capacity : ℕ
  pub period : ℕ
  pub buckets : Assoc Peer Bucket

-- `RateLimiter::new`
abbrev pub new : {Peer : Type 0} → ℕ → ℕ → RateLimiter Peer
new capacity period = record { capacity = max capacity 1; period = max period 1; buckets = [] }

-- The refill of a bucket, and the token that a request takes if there is one.
unfoldable pub consume : ℕ → ℕ → ℕ → Bucket → Bucket × Bool
consume capacity period now b =
    let tokens = min (b.tokens + (now - b.last) * capacity) (capacity * period) in
    if leb period tokens
    then (record { tokens = tokens - period; last = now }, true)
    else (record { tokens = tokens; last = now }, false)

module _ {Peer : Type 0} ⦃e : Eq Peer⦄ where
  -- `entry(peer).or_insert`
  abbrev pub bucket_of : RateLimiter Peer → Peer → ℕ → Bucket
  bucket_of l peer now =
      Option.get_or (lookup peer l.buckets) (record { tokens = l.capacity * l.period; last = now })

  unfoldable pub allow : RateLimiter Peer → Peer → ℕ → RateLimiter Peer × Bool
  unfolding consume
  allow l peer now =
      let (b, allowed) = consume l.capacity l.period now (bucket_of l peer now) in
      (record l { buckets = insert peer b l.buckets }, allowed)

  -- The requests of a list of peers and times: how many of one peer's are allowed, and what is left.
  unfoldable pub serve : RateLimiter Peer → Peer → List (Peer × ℕ) → RateLimiter Peer × ℕ
  unfolding allow
  serve l p [] = (l, 0)
  serve l p ((peer, now) ∷ rest) =
      let (next, allowed) = allow l peer now in
      let (left, n) = serve next p rest in
      (left, if peer == p then (if allowed then n + 1 else n) else n)
