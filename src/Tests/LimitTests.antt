-- ===== src/Tests/LimitTests.antt =====
-- Requests and bodies at the limits, with one tick to the second.
use codegraph_mcp.Base.{
  List, Str-discrete, [], arith, if◌then◌else◌, length, ltb, nat_key, none, pair_key, refl, some,
  str, str_key, ℕ, ◌∷◌, ◌≡◌, ◌≤◌,
}
use codegraph_mcp.RateLimit.{
  check_window, Request, Counts, refused_413, replayed, limit_body, max_body_bytes, expire,
}
use codegraph_mcp.RateLimit.Window.{served, IsOrdered, count_from, served_bounded}
use codegraph_mcp.RateLimit.Bodies.{stream, whole, limit_body-stream}

abbrev times : List ℕ
times = 0 ∷ 10 ∷ 20 ∷ 61 ∷ 62 ∷ []

window_run : served 1 2 times [] ≡ 0 ∷ 10 ∷ 61 ∷ []
unfolding served check_window expire
window_run = ground arith

times-IsOrdered : IsOrdered 0 times
times-IsOrdered = (omega arith, (omega arith, (omega arith, (omega arith, (omega arith, tt)))))

served_bounded_example : count_from 1 5 (served 1 2 times []) ≤ 2
served_bounded_example = served_bounded 1 2 5 0 times times-IsOrdered

abbrev rebuild : Request
rebuild = record {
  method = str "POST";
  path = str "/api/index/semantic/rebuild";
  client = some (str "10.0.0.1");
  content_length = none;
}

abbrev counts : Counts
counts = (str "default:10.0.0.1", 3 ∷ []) ∷ []

limit_body-stream_example :
    limit_body (str "http") (str "POST") (stream ((1 ∷ 2 ∷ []) ∷ []) (3 ∷ [])) ≡ (
      if ltb max_body_bytes (length (whole ((1 ∷ 2 ∷ []) ∷ []) (3 ∷ [])))
      then refused_413
      else replayed (whole ((1 ∷ 2 ∷ []) ∷ []) (3 ∷ [])))
unfolding Str-discrete
limit_body-stream_example = limit_body-stream (str "POST") ((1 ∷ 2 ∷ []) ∷ []) (3 ∷ []) refl
