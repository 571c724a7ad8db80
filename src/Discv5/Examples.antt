-- ===== src/Discv5/Examples.antt =====
-- The theorems on discovery at concrete records: an ENR is its builder, and a peer is a number.
use mathlib.Core.Option
use rs_waku.Prelude.{ℕ, ◌≡◌, ◌≤◌, ◌||◌, refl, [], ◌∷◌, true, some, any, length, arith}
use rs_waku.Prelude.Bytes.{to_be_bytes, from_be_bytes}
use rs_waku.Prelude.Eq.{nat_eq, list_eq}
use rs_waku.Prelude.Assoc.{lookup}
use rs_waku.Prelude.Outcome.{ok, ok-injective}
use rs_waku.Node.PeerBook.{HasUniqueNodes, peer_book_cap}
use rs_waku.Enr.{new, to_indices_list, from_indices_list}
use rs_waku.Discv5.{
  Builder, EnrCalls, DiscoveryConfig, ip4, tcp, p2p, build_waku_enr, is_in_cluster, enr_to_dialable,
  discovery_loop,
}
use mathlib.Core.Path.{subst}
use rs_waku.Prelude.{List, Bool, All, filter, Bool-cases, inl, inr}
use rs_waku.Discv5.{DiscoveredPeer}
use rs_waku.Discv5.Service.{
  ServiceCalls, Discovery, new_discovery, start, discover, discover_dialable, IsOfCluster,
  discover_dialable-IsOfCluster,
}
use rs_waku.Discv5.LocalEnr.{IsFaithful, build_waku_enr-enr_to_dialable}
use rs_waku.Discv5.Dialing.{one_of, dials_of, yields, discovery_loop_lem}

abbrev calls : EnrCalls Builder ℕ ℕ
calls = record {
  build = λ key b. ok b;
  ip4 = λ b. b.ip4;
  tcp4 = λ b. b.tcp4;
  get_decodable = λ b name. Option.map ok (lookup name b.values);
  peer_id = λ b. b.ip4;
  describe = λ e. [];
}

calls-IsFaithful : IsFaithful calls
calls-IsFaithful = record {
  built = λ key b enr h. rw (ok-injective h) (refl, refl, λ name free. refl);
}

abbrev config : DiscoveryConfig Builder ℕ
config = record {
  listen_ip = 1;
  udp_port = 9000;
  tcp_port = some 60000;
  external_ip = some 5;
  cluster_id = 1;
  shards = 2 ∷ 0 ∷ 2 ∷ [];
  bootstrap = [];
  key = some 7;
}

abbrev enr_at : ℕ → Builder
enr_at ip = record {
  ip4 = some ip;
  udp4 = some 9000;
  tcp4 = some 60000;
  values = (114 ∷ 115 ∷ [], 0 ∷ 1 ∷ 2 ∷ 0 ∷ 0 ∷ 0 ∷ 2 ∷ []) ∷ [];
}

own : build_waku_enr calls 7 config ≡ ok (enr_at 5)
unfolding build_waku_enr to_indices_list new to_be_bytes
own = refl

build_waku_enr-enr_to_dialable_example :
    (is_in_cluster calls 1 (enr_at 5) ≡ true)
    × (enr_to_dialable calls (enr_at 5)
        ≡ some (record {
          peer_id = 5;
          addrs = (ip4 5 ∷ tcp 60000 ∷ p2p 5 ∷ []) ∷ [];
          shards = new 1 (2 ∷ 0 ∷ 2 ∷ []);
          enr = enr_at 5;
        }))
build_waku_enr-enr_to_dialable_example =
    build_waku_enr-enr_to_dialable calls calls-IsFaithful 7 config (enr_at 5) 60000 5 own refl refl
      (omega arith) (omega arith)

abbrev node_of : Builder → ℕ
node_of b = Option.get_or b.ip4 0

discovery_loop_lem_example :
    (dials_of 5 (discovery_loop calls node_of (enr_at 5 ∷ []) (enr_at 6 ∷ enr_at 5 ∷ [])).dials
      ≡ one_of (
          any (yields calls node_of 5) (enr_at 5 ∷ [])
          || any (yields calls node_of 5) (enr_at 6 ∷ enr_at 5 ∷ [])))
    × HasUniqueNodes node_of
        (discovery_loop calls node_of (enr_at 5 ∷ []) (enr_at 6 ∷ enr_at 5 ∷ [])).peer_book
    × (length (discovery_loop calls node_of (enr_at 5 ∷ []) (enr_at 6 ∷ enr_at 5 ∷ [])).peer_book
        ≤ peer_book_cap)
discovery_loop_lem_example =
    discovery_loop_lem calls node_of (enr_at 5 ∷ []) (enr_at 6 ∷ enr_at 5 ∷ []) 5

-- A service that finds the records it was fed.
abbrev service : ServiceCalls Builder ℕ (List Builder)
service = record {
  generate = 3;
  create = λ enr key ip port. ok [];
  add_enr = λ known enr. enr ∷ known;
  start = λ known. ok known;
  local_enr = λ known. enr_at 5;
  find_node = λ known p n. ok (filter p known);
}

finds_what_satisfies :
    (known : List Builder) (p : Builder → Bool) (n : ℕ) (found : List Builder)
    → service.find_node known p n ≡ ok found
    → All (λ enr. p enr ≡ true) found
finds_what_satisfies known p n found h =
    subst (All (λ enr. p enr ≡ true)) (ok-injective h) (filter_all p known)
  where
    filter_all : (p : Builder → Bool) (xs : List Builder) → All (λ enr. p enr ≡ true) (filter p xs)
    filter_all p [] = tt
    filter_all p (x ∷ xs) = elim (Bool-cases (p x)) [
      | inl y ↦ rw y (y, filter_all p xs)
      | inr n ↦ rw n (filter_all p xs)
    ]

abbrev fed : DiscoveryConfig Builder ℕ
fed = record config { bootstrap = enr_at 6 ∷ [] }

abbrev discovery : Discovery (List Builder)
discovery = record { discv5 = enr_at 6 ∷ []; cluster_id = 1 }

abbrev found_peer : DiscoveredPeer Builder ℕ
found_peer = record {
  peer_id = 6;
  addrs = (ip4 6 ∷ tcp 60000 ∷ p2p 6 ∷ []) ∷ [];
  shards = new 1 (2 ∷ 0 ∷ 2 ∷ []);
  enr = enr_at 6;
}

is_made : new_discovery calls service fed ≡ ok discovery
unfolding new_discovery build_waku_enr to_indices_list new to_be_bytes
is_made = refl

is_started : start calls service discovery ≡ ok discovery
unfolding start
is_started = refl

is_found : discover_dialable calls service discovery ≡ ok (found_peer ∷ [])
unfolding discover_dialable discover is_in_cluster enr_to_dialable new lookup from_indices_list
    from_be_bytes
is_found = refl

discover_dialable-IsOfCluster_example : All (IsOfCluster calls 1) (found_peer ∷ [])
discover_dialable-IsOfCluster_example =
    discover_dialable-IsOfCluster calls service fed discovery discovery (found_peer ∷ [])
      finds_what_satisfies is_made is_started is_found
