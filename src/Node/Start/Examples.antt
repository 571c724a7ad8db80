-- ===== src/Node/Start/Examples.antt =====
-- The theorems on starting a node at a concrete configuration: no discovery, an empty store, and one address
-- to listen on. Keys, addresses, ENRs and peers are numbers.
use rs_waku.Prelude.{ℕ, ◌≡◌, refl, [], ◌∷◌, true, none, some, arith}
use rs_waku.Prelude.Bytes.{codes}
use rs_waku.Prelude.Eq.{nat_eq}
use rs_waku.Prelude.Outcome.{ok, err}
use rs_waku.Discv5.{EnrCalls}
use rs_waku.Discv5.Service.{ServiceCalls}
use rs_waku.Node.Connections.{established}
use rs_waku.Node.Loop.{LoopState}
use rs_waku.Node.Loop
use rs_waku.Node.LoopExamples.{setting}
use rs_waku.Node.Machine.{Machine, Steps, done, then_step, take_event, on_event}
use rs_waku.Node.Machine.Invariant.{IsSound}
use rs_waku.Node.Start.{
  NodeConfig, SpawnCalls, Node, new, with_listen_addr, with_cluster, new_loop, listen_all, spawn,
  setting_of,
}
use rs_waku.Node.Start.Sound.{spawn-IsSound}

abbrev config : NodeConfig ℕ ℕ ℕ
config = record (with_cluster 1 (0 ∷ []) (with_listen_addr 30303 (new 7))) { store = some [] }

abbrev spawn_calls : SpawnCalls ℕ ℕ ℕ ℕ ℕ
spawn_calls = record {
  build_swarm = λ c. ok 42;
  listen_on = λ address. ok tt;
  secp256k1_key = λ key. ok key;
  has_resolver = true;
  resolve_enrtree = λ url. err (codes "no");
}

abbrev enr_calls : EnrCalls ℕ ℕ ℕ
enr_calls = record {
  build = λ key b. ok key;
  ip4 = λ enr. none;
  tcp4 = λ enr. none;
  get_decodable = λ enr name. none;
  peer_id = λ enr. some enr;
  describe = λ e. [];
}

abbrev service : ServiceCalls ℕ ℕ ℕ
service = record {
  generate = 3;
  create = λ enr key ip port. ok enr;
  add_enr = λ s enr. s;
  start = λ s. ok s;
  local_enr = λ s. s;
  find_node = λ s p n. ok [];
}

abbrev node : Node ℕ ℕ ℕ ℕ ℕ ℕ ℕ
node = record {
  peer_id = 42;
  machine = record {
    loop = new_loop;
    table = some [];
    tasks = [];
    is_running = true;
    has_consumer = true;
    sent = [];
  };
  discovery = none;
  discv5_enr = none;
}

is_spawned : spawn spawn_calls enr_calls service config ≡ ok node
unfolding spawn listen_all
is_spawned = refl

abbrev connected : Machine ℕ ℕ ℕ ℕ ℕ ℕ
connected =
    on_event (setting_of config setting) node.machine (Loop.connection (established 9 (some 4)))

abbrev steps : Steps (setting_of config setting) (λ enr. enr) node.machine connected
steps = then_step done (take_event (Loop.connection (established 9 (some 4))) refl)

spawn-IsSound_example :
    IsSound (setting_of config setting) (λ enr. enr) connected.loop connected.table
spawn-IsSound_example =
    spawn-IsSound spawn_calls enr_calls service setting (λ enr. enr) config node connected
      is_spawned (omega arith) tt steps

abbrev elsewhere : NodeConfig ℕ ℕ ℕ
elsewhere = with_cluster 2 (0 ∷ []) config

abbrev nothing_yet : LoopState ℕ ℕ ℕ ℕ ℕ ℕ
nothing_yet = new_loop
