-- ===== src/Tests/Requests.antt =====
-- The requests, modules and pipelines that the tests share.
use rust_waf.Common.{ℕ, ◌+◌, true, false, List, [], none, some, codes}
use rust_waf.Core.Decision.{Decision, Phase, FailMode, WafMode, SeverityScores}
use rust_waf.Core.Context.{IpAddr, ParsedBody, Normalized, RequestContext}
use rust_waf.Pipeline.{Pipeline, WafModule, Outcome}

abbrev pub peer : IpAddr
peer = IpAddr.v4 0x0A00_0001

abbrev pub normalized : Normalized
normalized = record {
  path = codes "/";
  query = none;
  query_params = [];
  cookies = [];
  headers = [];
  body = ParsedBody.no_body;
  double_encoding_detected = false;
  derived_decoded = [];
}

abbrev pub request : RequestContext
request = record {
  client_ip = peer;
  request_id = codes "r1";
  timestamp = 0;
  method = codes "GET";
  path = codes "/";
  raw_path = codes "/";
  query = none;
  http_version = codes "HTTP/1.1";
  headers = [];
  cookies = [];
  body = [];
  normalized = normalized;
  score = 0;
  score_contributions = [];
}

abbrev pub weights : SeverityScores
weights = record { critical = 6; error = 4; warning = 3; notice = 2 }

-- Scores five points for each request, and counts the requests.
abbrev pub scorer : WafModule ℕ
scorer = record {
  id = codes "scorer";
  phase = Phase.headers;
  structural = false;
  inspect = λ a w. (Outcome.decided (Decision.score (codes "r-5") 5), w + 1);
}

-- Refuses every request.
abbrev pub refuser : WafModule ℕ
refuser = record {
  id = codes "refuser";
  phase = Phase.body;
  structural = true;
  inspect =
      λ a w. (Outcome.decided (Decision.reject (codes "no") (codes "refused") 429 (some 1)), w);
}

abbrev pub allower : WafModule ℕ
allower = record {
  id = codes "allower";
  phase = Phase.headers;
  structural = false;
  inspect = λ a w. (Outcome.decided Decision.allow, w);
}

abbrev pub breaker : WafModule ℕ
breaker = record {
  id = codes "breaker";
  phase = Phase.body;
  structural = true;
  inspect = λ a w. (Outcome.panicked, w);
}

abbrev pub pipeline : List (WafModule ℕ) → WafMode → FailMode → Pipeline ℕ
pipeline ms mode policy = record {
  modules = ms;
  block_threshold = 10;
  mode = mode;
  severity_scores = weights;
  on_internal_error = policy;
}
