-- ===== src/Tests/Sampling.antt =====
-- A policy that logs every third request, over four that succeed and one that fails.
use aelora.Prelude.{◌≡◌, refl, [], ◌∷◌, arith}
use aelora.Http.Logging.{debug_level, info_level, RequestLogPolicy, decide}
use aelora.Http.Logging.Sampling.{Requests, asked, logged, IsCeiling, logged-IsCeiling}

abbrev policy : RequestLogPolicy
policy = record {
  default_success_level = info_level;
  default_sample_every = 3;
  health_success_level = debug_level;
  health_sample_every = 25;
  metrics_success_level = debug_level;
  metrics_sample_every = 50;
  message_post_level = info_level;
  message_post_every = 1;
  counters = λ route status. 0;
}

abbrev requests : Requests
requests =
    ("/livez", 200)
    ∷ ("/v1/rooms", 201)
    ∷ ("/livez", 200)
    ∷ ("/livez", 503)
    ∷ ("/livez", 200)
    ∷ ("/livez", 200)
    ∷ []

two_logged : logged "/livez" 200 policy requests ≡ 2
unfolding logged decide
two_logged = refl

logged-IsCeiling_example :
    IsCeiling 3 (asked "/livez" 200 requests) (logged "/livez" 200 policy requests)
logged-IsCeiling_example =
    logged-IsCeiling "/livez" 200 requests policy (refl, (refl, (refl, (refl, (refl, (refl, tt))))))
      (omega arith) (omega arith) refl (omega arith)
