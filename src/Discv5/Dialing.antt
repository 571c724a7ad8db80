-- ===== src/Discv5/Dialing.antt =====
-- Which peers the discovery task dials, and how often.
use mathlib.Core.Option
use rs_waku.Prelude.{
  ℕ, ◌+◌, ◌≡◌, ◌≤◌, refl, ap, sym, List, [], ◌∷◌, ◌++◌, Bool, false, ◌||◌, Option, none, some,
  if◌then◌else◌, any, length, arith, Bool-cases, Option-cases, inl, inr,
}
use rs_waku.Prelude.Eq.{Eq, ◌==◌, contains}
use rs_waku.Node.PeerBook.{HasUniqueNodes, peer_book_cap, remember_enr, remember_enr_lem}
use rs_waku.Enr.{RelayShards}
use rs_waku.Discv5.{
  EnrCalls, Protocol, p2p, Multiaddr, DiscoveredPeer, enr_to_dialable, dialable, Discovered,
  dial_discovered, bootstrap_one, discovered_one, bootstrap_all, discovered_all, discovery_loop,
  nothing_known,
}

abbrev pub one_of : Bool → ℕ
one_of b = if b then 1 else 0

module _ {Peer : Type 0} ⦃e : Eq Peer⦄ where
  -- Whether an address ends at a peer, and how many of a list do.
  abbrev pub is_for : Peer → Protocol Peer → Bool
  is_for p (p2p q) = q == p
  is_for p part = false

  abbrev pub dials_of : Peer → List (Multiaddr Peer) → ℕ
  dials_of p [] = 0
  dials_of p (address ∷ rest) = one_of (any (is_for p) address) + dials_of p rest

  dials_of-append :
      (p : Peer) (xs ys : List (Multiaddr Peer))
      → dials_of p (xs ++ ys) ≡ dials_of p xs + dials_of p ys
  dials_of-append p [] ys = omega arith
  dials_of-append p (x ∷ xs) ys = omega (arith, dials_of-append p xs ys)

module _ {Enr Key Peer NodeId : Type 0} ⦃e : Eq Peer⦄ ⦃f : Eq NodeId⦄ (c : EnrCalls Enr Key Peer)
    (node_id : Enr → NodeId) where
  -- An ENR that is dialed as a peer.
  unfoldable pub yields : Peer → Enr → Bool
  yields p enr = elim (enr_to_dialable c enr) [ none ↦ false | some d ↦ d.peer_id == p ]

  -- Of each peer there is one address to dial.
  abbrev IsSingle : DiscoveredPeer Enr Peer → Type 0
  IsSingle d = (p : Peer) → dials_of p d.addrs ≡ one_of (d.peer_id == p)

  dialable-IsSingle :
      (o : Option Peer) (r : Option RelayShards) (i t : Option ℕ) (enr : Enr)
      (d : DiscoveredPeer Enr Peer)
      → dialable c o r i t enr ≡ some d
      → IsSingle d
  dialable-IsSingle (some q) (some r) (some i) (some t) enr d h p =
      rw (sym (ap (λ x. Option.get_or x d) h)) (ground arith)
  dialable-IsSingle none r i t enr d h p = cc
  dialable-IsSingle (some q) none i t enr d h p = cc
  dialable-IsSingle (some q) (some r) none t enr d h p = cc
  dialable-IsSingle (some q) (some r) (some i) none enr d h p = cc

  enr_to_dialable-IsSingle :
      (enr : Enr) (d : DiscoveredPeer Enr Peer) → enr_to_dialable c enr ≡ some d → IsSingle d
  unfolding enr_to_dialable
  enr_to_dialable-IsSingle enr d h = dialable-IsSingle _ _ _ _ enr d h

  -- Each known peer has been dialed once and no other peer has, and the book is in order.
  abbrev pub IsInOrder : Discovered Enr Peer → Type 0
  IsInOrder s =
      ((p : Peer) → dials_of p s.dials ≡ one_of (contains s.known p))
      × HasUniqueNodes node_id s.peer_book
      × (length s.peer_book ≤ peer_book_cap)

  -- A step that makes a peer known, or not.
  abbrev Step : Discovered Enr Peer → Discovered Enr Peer → (Peer → Bool) → Type 0
  Step s t adds = IsInOrder t × ((p : Peer) → contains t.known p ≡ (contains s.known p || adds p))

  dial_discovered_lem :
      (s : Discovered Enr Peer) (d : DiscoveredPeer Enr Peer)
      → IsSingle d
      → IsInOrder s
      → Step s (dial_discovered c node_id s d) (λ p. d.peer_id == p)
  unfolding dial_discovered
  dial_discovered_lem s d single h =
      let book = remember_enr_lem node_id s.peer_book d.enr h.1 h.2 in
      elim (Bool-cases (contains s.known d.peer_id)) [
        | inl k ↦
            rw (dial_discovered, k)
              ((h.0, book.0, book.1), λ p. ground (arith, k, e.beq_iff d.peer_id p))
        | inr k ↦
            rw (dial_discovered, k)
              (
                (
                  (λ p. ground (
                    arith,
                    k,
                    e.beq_iff d.peer_id p,
                    dials_of-append p s.dials d.addrs,
                    single p,
                    h.0 p,
                  )),
                  book.0,
                  book.1,
                ),
                λ p. ground arith,
              )
      ]

  discovered_one_lem :
      (s : Discovered Enr Peer) (enr : Enr)
      → IsInOrder s
      → Step s (discovered_one c node_id s enr) (λ p. yields p enr)
  unfolding discovered_one yields
  discovered_one_lem s enr h = elim (Option-cases (enr_to_dialable c enr)) [
    | inl n ↦ rw (discovered_one, yields, n) (h, λ p. ground arith)
    | inr (d, q) ↦
        rw (discovered_one, yields, q)
          (dial_discovered_lem s d (enr_to_dialable-IsSingle enr d q) h)
  ]

  bootstrap_one_lem :
      (s : Discovered Enr Peer) (enr : Enr)
      → IsInOrder s
      → Step s (bootstrap_one c node_id s enr) (λ p. yields p enr)
  unfolding bootstrap_one yields
  bootstrap_one_lem s enr h =
      let book = remember_enr_lem node_id s.peer_book enr h.1 h.2 in
      elim (Option-cases (enr_to_dialable c enr)) [
        | inl n ↦ rw (bootstrap_one, yields, n) ((h.0, book.0, book.1), λ p. ground arith)
        | inr (d, q) ↦
            rw (bootstrap_one, yields, q)
              (dial_discovered_lem (record s { peer_book = remember_enr node_id s.peer_book enr }) d
                (enr_to_dialable-IsSingle enr d q) (h.0, book.0, book.1))
      ]

  discovered_all_lem :
      (s : Discovered Enr Peer) (enrs : List Enr)
      → IsInOrder s
      → Step s (discovered_all c node_id s enrs) (λ p. any (yields p) enrs)
  unfolding discovered_all
  discovered_all_lem s [] h = (h, λ p. ground arith)
  discovered_all_lem s (enr ∷ rest) h =
      let (now, more) = discovered_one_lem s enr h in
      let (later, most) = discovered_all_lem (discovered_one c node_id s enr) rest now in
      (later, λ p. ground (arith, more p, most p))

  bootstrap_all_lem :
      (s : Discovered Enr Peer) (enrs : List Enr)
      → IsInOrder s
      → Step s (bootstrap_all c node_id s enrs) (λ p. any (yields p) enrs)
  unfolding bootstrap_all
  bootstrap_all_lem s [] h = (h, λ p. ground arith)
  bootstrap_all_lem s (enr ∷ rest) h =
      let (now, more) = bootstrap_one_lem s enr h in
      let (later, most) = bootstrap_all_lem (bootstrap_one c node_id s enr) rest now in
      (later, λ p. ground (arith, more p, most p))

  -- The discovery task dials each peer of the bootstrap list or of a query once, if one of its ENRs can be
  -- dialed, and no other peer; and the peer book that it leaves has one ENR of each node and at most 200.
  pub discovery_loop_lem :
      (bootstrap found : List Enr) (p : Peer)
      → (dials_of p (discovery_loop c node_id bootstrap found).dials
          ≡ one_of (any (yields p) bootstrap || any (yields p) found))
        × HasUniqueNodes node_id (discovery_loop c node_id bootstrap found).peer_book
        × (length (discovery_loop c node_id bootstrap found).peer_book ≤ peer_book_cap)
  unfolding discovery_loop
  discovery_loop_lem bootstrap found p =
      let (first, added) =
        bootstrap_all_lem nothing_known bootstrap ((λ q. refl), tt, omega arith) in
      let (last, more) =
        discovered_all_lem (bootstrap_all c node_id nothing_known bootstrap) found first in
      (ground (arith, last.0 p, more p, added p), last.1, last.2)
