-- ===== src/Node/Handle.antt =====
-- crates/waku-node/src/runtime.rs: what a method of `NodeHandle` returns, from what comes back of the
-- channel to the node's loop. A closed channel is `none`.
use rs_waku.Prelude.{◌++◌, Option, none, some}
use rs_waku.Prelude.Bytes.{Bytes, codes}
use rs_waku.Prelude.Outcome.{Result, ok, err}

pub data NodeError : Type 0 where
  build : Bytes → NodeError
  listen : Bytes → NodeError
  node_stopped : NodeError
  command_failed : Bytes → NodeError

-- `to_string`
unfoldable pub node_error_text : NodeError → Bytes
node_error_text (build e) = codes "transport/build error: " ++ e
node_error_text (listen e) = codes "listen failed: " ++ e
node_error_text node_stopped = codes "the node task has stopped"
node_error_text (command_failed e) = codes "command failed: " ++ e

-- The end of `subscribe`, `publish` and the others: `.await.map_err(..)?.map_err(NodeError::Command)`.
unfoldable pub awaited : {A : Type 0} → Option (Result Bytes A) → Result NodeError A
awaited none = err node_stopped
awaited (some (ok a)) = ok a
awaited (some (err e)) = err (command_failed e)
