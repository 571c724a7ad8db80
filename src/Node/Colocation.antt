-- ===== src/Node/Colocation.antt =====
-- The limit of connections per IP address.
use rs_waku.Prelude.{
  ℕ, ◌+◌, ◌-◌, ◌<◌, ◌≤◌, ◌≡◌, refl, ap, ◌∙◌, List, [], ◌∷◌, Bool, true, false, ◌&&◌, Option, none,
  some, if◌then◌else◌, arith, ltb, lt→ltb, Bool-cases, Option-cases, inl, inr,
}
use mathlib.Core.Option
use rs_waku.Prelude.Eq.{Eq, ◌==◌, contains}
use rs_waku.Prelude.Assoc.{Assoc, lookup, insert, remove, lookup-insert, lookup-remove}
use rs_waku.Node.Connections.{
  Connections, ConnectionEvent, established, closed, disconnect, count_of, admit, on_established,
  release, on_closed, on_connection, run, add_peer,
}

module _ {Ip : Type 0} ⦃f : Eq Ip⦄ where
  count_of-insert :
      (ip j : Ip) (n : ℕ) (counts : Assoc Ip ℕ)
      → count_of j (insert ip n counts) ≡ (if ip == j then n else count_of j counts)
  count_of-insert ip j n counts = rw (lookup-insert ip j n counts) (by_test (ip == j))
    where
      by_test :
          (b : Bool)
          → Option.get_or (if b then some n else lookup j counts) 0
            ≡ (if b then n else count_of j counts)
      by_test true = refl
      by_test false = refl

  count_of-remove :
      (ip j : Ip) (counts : Assoc Ip ℕ)
      → count_of j (remove ip counts) ≡ (if ip == j then 0 else count_of j counts)
  count_of-remove ip j counts = rw (lookup-remove ip j counts) (by_test (ip == j))
    where
      by_test :
          (b : Bool)
          → Option.get_or (if b then none else lookup j counts) 0
            ≡ (if b then 0 else count_of j counts)
      by_test true = refl
      by_test false = refl

  -- What a close does to the counts.
  count_of-release :
      (ip j : Ip) (counts : Assoc Ip ℕ)
      → count_of j (release (some ip) counts)
        ≡ (if ip == j then count_of j counts - 1 else count_of j counts)
  unfolding release
  count_of-release ip j counts = elim (Option-cases (lookup ip counts)) [
    | inl n ↦ ground (arith, n, f.beq_iff ip j)
    | inr (c, s) ↦
        ground (
          arith,
          s,
          f.beq_iff ip j,
          count_of-insert ip j (c - 1) counts,
          count_of-remove ip j counts,
        )
  ]

  -- What an established connection does to the counts.
  count_of-admit :
      (limit : ℕ) (ip j : Ip) (counts : Assoc Ip ℕ)
      → 0 < limit
      → count_of j (admit limit (some ip) counts).1 ≡ (
          if (ip == j) && ltb (count_of j counts) limit
          then count_of j counts + 1
          else count_of j counts)
  unfolding admit
  count_of-admit limit ip j counts h = ground (
    arith,
    f.beq_iff ip j,
    count_of-insert ip j (count_of ip counts) counts,
    count_of-insert ip j (count_of ip counts + 1) counts,
    count_of-insert ip j (count_of ip counts + 1 - 1) counts,
  )

  admit_lem :
      (limit : ℕ) (ip : Ip) (counts : Assoc Ip ℕ)
      → 0 < limit
      → (admit limit (some ip) counts).0 ≡ ltb (count_of ip counts) limit
  unfolding admit
  admit_lem limit ip counts h = ground arith

  -- No count is above the limit.
  abbrev pub IsWithin : ℕ → Assoc Ip ℕ → Type 0
  IsWithin limit counts = (j : Ip) → count_of j counts ≤ limit

  admit-IsWithin :
      (limit : ℕ) (ip : Option Ip) (counts : Assoc Ip ℕ)
      → 0 < limit
      → IsWithin limit counts
      → IsWithin limit (admit limit ip counts).1
  unfolding admit
  admit-IsWithin limit none counts h k j = k j
  admit-IsWithin limit (some ip) counts h k j =
      ground (arith, k j, count_of-admit limit ip j counts h)

  release-IsWithin :
      (limit : ℕ) (ip : Option Ip) (counts : Assoc Ip ℕ)
      → IsWithin limit counts
      → IsWithin limit (release ip counts)
  unfolding release
  release-IsWithin limit none counts k j = k j
  release-IsWithin limit (some ip) counts k j = ground (arith, k j, count_of-release ip j counts)

contains-add_peer :
    {Peer : Type 0} ⦃e : Eq Peer⦄ (peer : Peer) (peers : List Peer)
    → contains (add_peer peer peers) peer ≡ true
contains-add_peer ⦃e⦄ peer peers = elim (Bool-cases (contains peers peer)) [
  | inl b ↦ rw b b
  | inr b ↦ ground (arith, b, e.beq_iff peer peer)
]

module _ {Peer Ip : Type 0} ⦃e : Eq Peer⦄ ⦃f : Eq Ip⦄ where
  counts_left :
      (limit : ℕ) (peer : Peer) (ip : Option Ip) (s : Connections Peer Ip)
      → (on_established limit peer ip s).0.ip_counts ≡ (admit limit ip s.ip_counts).1
  unfolding on_established
  counts_left limit peer ip s = elim (Bool-cases (admit limit ip s.ip_counts).0) [
    | inl b ↦ rw (on_established, b) refl
    | inr b ↦ rw (on_established, b) refl
  ]

  -- No sequence of connections that open and close brings the count of an address above the limit,
  -- which is at least one.
  pub run-IsWithin :
      (limit : ℕ) (events : List (ConnectionEvent Peer Ip)) (s : Connections Peer Ip)
      → 0 < limit
      → IsWithin limit s.ip_counts
      → IsWithin limit (run limit events s).ip_counts
  unfolding run on_connection on_established on_closed
  run-IsWithin limit [] s h k = k
  run-IsWithin limit (established peer ip ∷ rest) s h k =
      run-IsWithin limit rest (on_established limit peer ip s).0 h
        (rw (counts_left limit peer ip s) (admit-IsWithin limit ip s.ip_counts h k))
  run-IsWithin limit (closed peer ip ∷ rest) s h k =
      run-IsWithin limit rest (on_closed peer ip s).0 h (release-IsWithin limit ip s.ip_counts k)

  -- A connection from an address below the limit is admitted, and its close gives back the count.
  pub on_closed-on_established :
      (limit : ℕ) (peer : Peer) (ip j : Ip) (s : Connections Peer Ip)
      → count_of ip s.ip_counts < limit
      → (contains (on_established limit peer (some ip) s).0.connected peer ≡ true)
        × (count_of j
              (on_closed peer (some ip) (on_established limit peer (some ip) s).0).0.ip_counts
            ≡ count_of j s.ip_counts)
  unfolding on_established on_closed
  on_closed-on_established limit peer ip j s h = (
    rw
        (
          on_established,
          admit_lem limit ip s.ip_counts (omega arith),
          lt→ltb (count_of ip s.ip_counts) limit h,
        )
        (contains-add_peer peer s.connected),
    ap (λ c. count_of j (release (some ip) c)) (counts_left limit peer (some ip) s)
        ∙ ground (
          arith,
          count_of-release ip j (admit limit (some ip) s.ip_counts).1,
          count_of-admit limit ip j s.ip_counts (omega arith),
          f.beq_iff ip j,
        ),
  )

  -- A connection from an address at the limit is refused, and when it has closed the address counts one
  -- connection less, though none of those that were admitted has closed.
  pub on_closed-refused :
      (limit : ℕ) (peer : Peer) (ip : Ip) (s : Connections Peer Ip)
      → 0 < limit
      → count_of ip s.ip_counts ≡ limit
      → ((on_established limit peer (some ip) s).1 ≡ disconnect peer ∷ [])
        × (count_of ip
                (on_closed peer (some ip) (on_established limit peer (some ip) s).0).0.ip_counts
              + 1
            ≡ limit)
  unfolding on_established on_closed
  on_closed-refused limit peer ip s h k = (
    rw (on_established, refused) refl,
    ap (λ c. count_of ip (release (some ip) c) + 1) (counts_left limit peer (some ip) s)
        ∙ ground (
          arith,
          count_of-release ip ip (admit limit (some ip) s.ip_counts).1,
          count_of-admit limit ip ip s.ip_counts h,
          f.beq_iff ip ip,
          k,
        ),
  )
    where
      refused : (admit limit (some ip) s.ip_counts).0 ≡ false
      refused = ground (arith, admit_lem limit ip s.ip_counts h)
