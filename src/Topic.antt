-- ===== src/Topic.antt =====
-- crates/waku-core/src/content_topic.rs: content topics `/<app>/<version>/<name>/<encoding>`.
-- A `&str` is the list of its UTF-8 bytes; `strip_prefix` and `split` are Rust's, on bytes, since
-- both patterns are ASCII.
pub mod RoundTrip
mod Examples
use rs_waku.Prelude.{
  ◌++◌, [], ◌∷◌, List, Bool, any, is_empty, if◌then◌else◌, none, some, Option, ◌||◌,
}
use rs_waku.Prelude.Bytes.{Bytes, codes}
use rs_waku.Prelude.Outcome.{Result, ok, err}
use rs_waku.Prelude.Text.{strip_prefix, split, slash}

pub data CoreError : Type 0 where
  invalid_content_topic : Bytes → CoreError
  invalid_pubsub_topic : Bytes → CoreError

pub record ContentTopic : Type 0 where
  pub application : Bytes
  pub version : Bytes
  pub name : Bytes
  pub encoding : Bytes

-- The tests on `parts.len()` are the patterns.
parse_parts : Bytes → List Bytes → Result CoreError ContentTopic
parse_parts s (a ∷ v ∷ n ∷ e ∷ []) =
    if any is_empty (a ∷ v ∷ n ∷ e ∷ [])
    then err (invalid_content_topic s)
    else ok (record { application = a; version = v; name = n; encoding = e })
parse_parts s _ = err (invalid_content_topic s)

unfoldable pub parse : Bytes → Result CoreError ContentTopic
unfolding parse_parts
parse s = elim (strip_prefix (codes "/") s) [
  | none ↦ err (invalid_content_topic s)
  | some rest ↦ parse_parts s (split slash rest)
]

-- `Display`
unfoldable pub display : ContentTopic → Bytes
display t =
    codes "/"
    ++ (t.application
        ++ (codes "/" ++ (t.version ++ (codes "/" ++ (t.name ++ (codes "/" ++ t.encoding))))))
