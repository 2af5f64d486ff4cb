-- ===== src/Http/Examples.antt =====
-- Instances for src/transport/HttpServer.ts: a schema that takes any text as the event of a
-- broadcast.
use live_r.Base.{
  ◌+◌, ◌≡◌, refl, true, false, ◌&&◌, not, List, [], Option, none, some, if◌then◌else◌, is_some,
}
use live_r.Base.Text.{Str, codes}
use live_r.Protocol.Values.{Json, text, null}
use live_r.Types.{Effect}
use live_r.Connections
use live_r.Limiter.{RateLimitResult}
use live_r.Metrics
use live_r.Metrics.{MetricsCollector}
use live_r.Rooms
use live_r.Router.{Router, RouteResult, broadcast}
use live_r.Http.{arrived, Parsed, valid, invalid, post}
use live_r.Http.Post.{has_key, within_limit, asked, calls_of, delivered_of, post_outcome}

abbrev as_text : Str → Option Json
as_text body = some (text body)

abbrev schema : Json → Parsed Str
schema (text event) = valid event
schema j = invalid null

abbrev router : Router
router = record {
  connections = Connections.create 3;
  rooms = Rooms.create 100;
  redis = true;
  now = 5;
  iso_now = codes "1970";
}

abbrev to_all : Str → List Effect × RouteResult
to_all event = broadcast router event none

abbrev allowance : Option RateLimitResult
allowance = some record { allowed = true; remaining = 4; limit = 5; reset_in = 1000 }

abbrev metrics : MetricsCollector
metrics = Metrics.create 0

abbrev header : Str
header = codes "Bearer key"

post_outcome_example :
    let r =
      post as_text schema to_all
        (codes "key")
        header
        allowance
        false
        (arrived (codes "e"))
        metrics in
    let admitted = has_key (codes "key") header && within_limit allowance in
    let a = asked as_text schema (arrived (codes "e")) in
    (r.effects ≡ (if admitted then calls_of to_all a else []))
    × (r.metrics.messages_sent
        ≡ metrics.messages_sent + (if admitted then delivered_of to_all a else 0))
    × (is_some r.response ≡ not (has_key (codes "key") header && false))
post_outcome_example =
    post_outcome as_text schema to_all (codes "key") header allowance false (arrived (codes "e"))
      metrics refl
