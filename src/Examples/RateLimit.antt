-- ===== src/Examples/RateLimit.antt =====
-- Requests without a bearer token.
use stellara.Prelude.{ℕ, ◌≤◌, max, List, [], ◌∷◌, none, String, arith}
use stellara.Dict.{get}
use stellara.Auth.{Request}
use stellara.RateLimit.{Limits, Counters}
use stellara.RateLimit.Window.{passed_of}
use stellara.RateLimit.Window.{passed_of-window}

abbrev limits : Limits
limits = record { max_hits = 1; window_ms = 60000 }

abbrev ip : String
ip = "::1"

abbrev start : ℕ
start = 5

abbrev request : Request
request = record { route_url = none; url = "/mcp"; ip = ip; authorization = none }

abbrev history : List (Request × ℕ)
history = (request, 5) ∷ (record request { ip = "::2" }, 6) ∷ (request, 7) ∷ []

abbrev counters : Counters
counters = []

passed_of-window_example : passed_of limits ip history counters ≤ max limits.max_hits 1
unfolding get
passed_of-window_example = passed_of-window limits ip start history counters tt (ground arith)
