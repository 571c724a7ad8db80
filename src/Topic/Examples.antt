-- ===== src/Topic/Examples.antt =====
-- Content topics at concrete inputs.
use rs_waku.Prelude.{◌≡◌, ◌↔◌, refl}
use rs_waku.Prelude.Bytes.{codes}
use rs_waku.Prelude.Outcome.{ok, err}
use rs_waku.Prelude.Text.{strip_prefix, split}
use rs_waku.Topic.{ContentTopic, invalid_content_topic, parse, display}
use rs_waku.Topic.RoundTrip.{IsValid, parse_iff}

abbrev toychat : ContentTopic
toychat = record {
  application = codes "toychat";
  version = codes "2";
  name = codes "huilong";
  encoding = codes "proto";
}

toychat_text : parse (codes "/toychat/2/huilong/proto") ≡ ok toychat
unfolding parse strip_prefix split
toychat_text = refl

parse_empty_segment : parse (codes "/a//c/d") ≡ err (invalid_content_topic (codes "/a//c/d"))
unfolding parse strip_prefix split
parse_empty_segment = refl

parse_iff_example :
    (parse (codes "/toychat/2/huilong/proto") ≡ ok toychat)
    ↔ (IsValid toychat × (display toychat ≡ codes "/toychat/2/huilong/proto"))
parse_iff_example = parse_iff (codes "/toychat/2/huilong/proto") toychat
