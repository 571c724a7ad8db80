-- ===== src/Node/Start/Handshake.antt =====
-- The metadata handshake of two nodes, 66/WAKU2-METADATA.
use rs_waku.Prelude.Eq.{Eq}
use rs_waku.Node.Loop.{Output}
use rs_waku.Node.Loop
