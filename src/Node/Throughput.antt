-- ===== src/Node/Throughput.antt =====
-- How many requests of a peer the rate limiter allows.
use native.Mathlib.Nat.{mul-le-mul_right}
use rs_waku.Prelude.{
  ℕ, ◌+◌, ◌-◌, ◌*◌, ◌≤◌, ◌≡◌, refl, ap, ◌∙◌, List, [], ◌∷◌, Bool, true, false, some, if◌then◌else◌,
  arith, leb, min, Bool-cases, inl, inr,
}
use rs_waku.Prelude.Eq.{Eq, ◌==◌}
use rs_waku.Prelude.Assoc.{lookup, lookup-insert}
use rs_waku.Node.RateLimit.{Bucket, RateLimiter, consume, bucket_of, allow, serve}

-- The times do not go back, and end at `end` or before.
abbrev pub IsOrdered {ℓ} : {Peer : Type ℓ} → ℕ → List (Peer × ℕ) → ℕ → Type 0
IsOrdered start [] end = start ≤ end
IsOrdered start ((peer, now) ∷ rest) end = (start ≤ now) × IsOrdered now rest end

-- What one request of a bucket takes and leaves is at most a full bucket, and at most what it held and
-- the refill of the time that passed.
consume-tokens :
    (capacity period now : ℕ) (b : Bucket)
    → ((consume capacity period now b).0.last ≡ now)
      × ((consume capacity period now b).0.tokens
            + (if (consume capacity period now b).1 then period else 0)
          ≤ capacity * period)
      × ((consume capacity period now b).0.tokens
            + (if (consume capacity period now b).1 then period else 0)
          ≤ b.tokens + (now - b.last) * capacity)
unfolding consume
consume-tokens capacity period now b =
    elim (Bool-cases
      (leb period (min (b.tokens + (now - b.last) * capacity) (capacity * period)))) [
        | inl h ↦ rw (consume, h) (refl, ground (arith, h), ground (arith, h))
        | inr h ↦ rw (consume, h) (refl, omega arith, omega arith)
      ]

-- The time up to now and the time from now.
refill_sum :
    (last now end c : ℕ)
    → last ≤ now
    → now ≤ end
    → (now - last) * c + (end - now) * c ≡ (end - last) * c
refill_sum last now end c h k = grind arith

less_time : (start now end c : ℕ) → start ≤ now → (end - now) * c ≤ (end - start) * c
less_time start now end c h = mul-le-mul_right c (omega arith)

ordered_end :
    {Peer : Type 0} (start end : ℕ) (reqs : List (Peer × ℕ))
    → IsOrdered start reqs end
    → start ≤ end
ordered_end start end [] h = h
ordered_end start end ((p, now) ∷ rest) h =
    let k = ordered_end now end rest h.1 in omega (arith, h.0, k)

module _ {Peer : Type 0} ⦃e : Eq Peer⦄ where
  -- A request changes no bucket but its peer's.
  lookup-allow :
      (l : RateLimiter Peer) (peer p : Peer) (now : ℕ)
      → lookup p (allow l peer now).0.buckets ≡ (
          if peer == p
          then some (consume l.capacity l.period now (bucket_of l peer now)).0
          else lookup p l.buckets)
  unfolding allow
  lookup-allow l peer p now =
      lookup-insert peer p (consume l.capacity l.period now (bucket_of l peer now)).0 l.buckets

  -- The period of each request that is allowed.
  cost : RateLimiter Peer → Bucket → ℕ → ℕ
  cost l b now = if (consume l.capacity l.period now b).1 then l.period else 0

  serve-own :
      (l : RateLimiter Peer) (p : Peer) (now : ℕ) (rest : List (Peer × ℕ))
      → (serve l p ((p, now) ∷ rest)).1 * l.period
        ≡ (serve (allow l p now).0 p rest).1 * l.period + cost l (bucket_of l p now) now
  unfolding serve allow cost
  serve-own l p now rest = rw ((e.beq_iff p p).1 refl) (
      by_allowed (consume l.capacity l.period now (bucket_of l p now)).1
        (serve (allow l p now).0 p rest).1)
    where
      by_allowed :
          (b : Bool) (n : ℕ)
          → (if b then n + 1 else n) * l.period ≡ n * l.period + (if b then l.period else 0)
      by_allowed true n = grind arith
      by_allowed false n = grind arith

  serve-other :
      (l : RateLimiter Peer) (peer p : Peer) (now : ℕ) (rest : List (Peer × ℕ))
      → (peer == p) ≡ false
      → (serve l p ((peer, now) ∷ rest)).1 ≡ (serve (allow l peer now).0 p rest).1
  unfolding serve allow
  serve-other l peer p now rest q = rw q refl

  lookup-allow_own :
      (l : RateLimiter Peer) (p : Peer) (now : ℕ) (b : Bucket)
      → bucket_of l p now ≡ b
      → lookup p (allow l p now).0.buckets ≡ some (consume l.capacity l.period now b).0
  lookup-allow_own l p now b h = lookup-allow l p p now ∙ rw ((e.beq_iff p p).1 refl, h) refl

  lookup-allow_other :
      (l : RateLimiter Peer) (peer p : Peer) (now : ℕ)
      → (peer == p) ≡ false
      → lookup p (allow l peer now).0.buckets ≡ lookup p l.buckets
  lookup-allow_other l peer p now q = lookup-allow l peer p now ∙ rw q refl

  -- A request of the peer, before others that its bucket pays for.
  own_step :
      (l : RateLimiter Peer) (p : Peer) (b : Bucket) (now end : ℕ) (rest : List (Peer × ℕ))
      → bucket_of l p now ≡ b
      → (serve (allow l p now).0 p rest).1 * l.period
        ≤ (consume l.capacity l.period now b).0.tokens
          + (end - (consume l.capacity l.period now b).0.last) * l.capacity
      → (serve l p ((p, now) ∷ rest)).1 * l.period
        ≤ (consume l.capacity l.period now b).0.tokens + cost l b now + (end - now) * l.capacity
  own_step l p b now end rest h ih =
      let paid = ap (λ c. cost l c now) h in
      let stamp = ap (λ n. (end - n) * l.capacity) (consume-tokens l.capacity l.period now b).0 in
      omega (arith, serve-own l p now rest, paid, stamp, ih)

  -- What the bucket of a peer pays for.
  serve-bucket :
      (l : RateLimiter Peer) (p : Peer) (b : Bucket) (start end : ℕ) (reqs : List (Peer × ℕ))
      → lookup p l.buckets ≡ some b
      → b.last ≤ start
      → IsOrdered start reqs end
      → (serve l p reqs).1 * l.period ≤ b.tokens + (end - b.last) * l.capacity
  unfolding serve cost
  serve-bucket l p b start end [] h k o = omega arith
  serve-bucket l p b start end ((peer, now) ∷ rest) h k o = elim (Bool-cases (peer == p)) [
    | inl q ↦
        let step = own_step l p b now end rest (rw h refl) (
          serve-bucket (allow l p now).0 p (consume l.capacity l.period now b).0 now end rest
            (lookup-allow_own l p now b (rw h refl))
            (omega (arith, (consume-tokens l.capacity l.period now b).0)) o.1) in
        let time =
          refill_sum b.last now end l.capacity (omega (arith, k, o.0))
            (ordered_end now end rest o.1) in
        rw ((e.beq_iff peer p).0 q)
          (omega (arith, step, time, (consume-tokens l.capacity l.period now b).2))
    | inr q ↦ rw (serve-other l peer p now rest q) (
        serve-bucket (allow l peer now).0 p b now end rest (lookup-allow_other l peer p now q ∙ h)
          (omega (arith, k, o.0)) o.1)
  ]

  -- Of any requests at times that do not go back, whatever the other peers ask for and whatever was
  -- served before, those of one peer that are allowed are at most the capacity and what the time
  -- between refills: their number times the period is at most the capacity times the period and the
  -- time.
  pub serve_bound :
      (l : RateLimiter Peer) (p : Peer) (start end : ℕ) (reqs : List (Peer × ℕ))
      → IsOrdered start reqs end
      → (serve l p reqs).1 * l.period ≤ l.capacity * l.period + (end - start) * l.capacity
  unfolding serve cost
  serve_bound l p start end [] o = omega arith
  serve_bound l p start end ((peer, now) ∷ rest) o = elim (Bool-cases (peer == p)) [
    | inl q ↦
        let b = bucket_of l p now in
        let step = own_step l p b now end rest refl (
          serve-bucket (allow l p now).0 p (consume l.capacity l.period now b).0 now end rest
            (lookup-allow_own l p now b refl)
            (omega (arith, (consume-tokens l.capacity l.period now b).0)) o.1) in
        let later = less_time start now end l.capacity o.0 in
        rw ((e.beq_iff peer p).0 q)
          (omega (arith, step, later, (consume-tokens l.capacity l.period now b).1))
    | inr q ↦
        let rest_bound = serve_bound (allow l peer now).0 p now end rest o.1 in
        let later = less_time start now end l.capacity o.0 in
        rw (serve-other l peer p now rest q) (omega (arith, rest_bound, later))
  ]
