-- ===== src/Node/Start/Sound.antt =====
-- That a node which `spawn` starts is sound, whatever it takes in afterwards.
use rs_waku.Prelude.{◌≡◌, ◌<◌, sym, arith}
use rs_waku.Prelude.Eq.{Eq}
use rs_waku.Prelude.Assoc.{lookup}
use rs_waku.Prelude.Outcome.{ok, map_err, >>=-eq-ok, ok-injective}
use rs_waku.Discv5.{EnrCalls}
use rs_waku.Discv5.Service.{ServiceCalls}
use rs_waku.Node.Handle.{build}
use rs_waku.Node.Loop.{Setting}
use rs_waku.Node.Machine.{Machine, Steps}
use rs_waku.Node.Machine.Invariant.{TableIsSound, IsSound, Steps-IsSound}
use rs_waku.Node.Start.{
  NodeConfig, SpawnCalls, Node, new_loop, listen_all, start_optional, spawn, setting_of,
}

module _ {Keypair Ip Addr Enr Key Peer RequestId Reply NodeId S : Type 0} ⦃e : Eq Peer⦄ ⦃f : Eq Ip⦄
    ⦃g : Eq RequestId⦄ ⦃h : Eq NodeId⦄ (calls : SpawnCalls Keypair Addr Enr Key Peer)
    (c : EnrCalls Enr Key Peer) (d : ServiceCalls Enr Key S) (base : Setting Addr Enr)
    (node_id : Enr → NodeId) where
  new_loop-IsSound :
      (config : NodeConfig Keypair Addr Enr)
      → TableIsSound config.store
      → IsSound {Peer = Peer} {Ip = Ip} {RequestId = RequestId} {Reply = Reply}
          (setting_of config base)
          node_id
          new_loop
          config.store
  unfolding lookup
  new_loop-IsSound config t = record {
    loop_sound = (λ ip. omega arith, tt, (tt, tt, tt, tt));
    one_per_node = tt;
    book_bounded = omega arith;
    table_sound = t;
  }

  spawned_parts :
      (config : NodeConfig Keypair Addr Enr) (node : Node Peer Ip Addr Enr RequestId Reply S)
      → spawn calls c d config ≡ ok node
      → (node.machine.loop ≡ new_loop) × (node.machine.table ≡ config.store)
  unfolding spawn
  spawned_parts config node made =
      let (peer_id, b, m2) = >>=-eq-ok (map_err build (calls.build_swarm config)) _ made in
      let (listening, b2, m3) = >>=-eq-ok (listen_all calls config.listen_addrs) _ m2 in
      let (discovery, b3, m4) = >>=-eq-ok (start_optional calls c d config config.discovery) _ m3 in
      let same = ok-injective m4 in
      (λ i. (sym same i).machine.loop, λ i. (sym same i).machine.table)

  -- A node that `spawn` returns is sound in every state that it reaches, however the steps of its loop, of its
  -- tasks and of the application follow one another: no address is counted with more connections than the
  -- configured limit, which is at least one, no peer has two entries of filters, no request id waits
  -- twice, the peer book has one ENR of each node and at most 200, and no two rows of the store have the
  -- same hash, if the store that it was configured with has none.
  pub spawn-IsSound :
      (config : NodeConfig Keypair Addr Enr) (node : Node Peer Ip Addr Enr RequestId Reply S)
      (n : Machine Peer Ip Addr Enr RequestId Reply)
      → spawn calls c d config ≡ ok node
      → 0 < config.ip_colocation_limit
      → TableIsSound config.store
      → Steps (setting_of config base) node_id node.machine n
      → IsSound (setting_of config base) node_id n.loop n.table
  spawn-IsSound config node n made l t steps =
      let (loop, table) = spawned_parts config node made in
      Steps-IsSound (setting_of config base) node_id steps l
        (rw (loop, table) (new_loop-IsSound config t))
