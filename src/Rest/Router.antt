-- ===== src/Rest/Router.antt =====
-- `router` of crates/waku-rest/src/lib.rs: the routes that it gives to axum, in their order, with the handlers
-- of `GET` and of `POST`. How axum matches a request against them is axum's.
use rs_waku.Prelude.{List, [], ◌∷◌, Option, none, some}
use rs_waku.Prelude.Bytes.{Bytes, codes}

pub data Endpoint : Type 0 where
  version info health relay_subscribe relay_publish relay_messages lightpush store_query : Endpoint
  admin_peers metrics : Endpoint

pub record Route : Type 0 where
  pub path : Bytes
  pub get : Option Endpoint
  pub post : Option Endpoint

abbrev pub get_route : Bytes → Endpoint → Route
get_route path e = record { path = path; get = some e; post = none }

abbrev pub post_route : Bytes → Endpoint → Route
post_route path e = record { path = path; get = none; post = some e }

abbrev pub router : List Route
router =
    get_route (codes "/debug/v1/version") version
    ∷ get_route (codes "/debug/v1/info") info
    ∷ get_route (codes "/health") health
    ∷ post_route (codes "/relay/v1/auto/subscriptions") relay_subscribe
    ∷ record {
      path = codes "/relay/v1/auto/messages/{content_topic}";
      get = some relay_messages;
      post = some relay_publish;
    }
    ∷ post_route (codes "/lightpush/v1/message") lightpush
    ∷ get_route (codes "/store/v3/messages") store_query
    ∷ get_route (codes "/admin/v1/peers") admin_peers
    ∷ get_route (codes "/metrics") metrics
    ∷ []
