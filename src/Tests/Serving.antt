-- ===== src/Tests/Serving.antt =====
-- A ranking service with one ranker.
use shooting_star.Base.{true, [], ◌∷◌, none, some, ◌≡◌, ◌≢◌, refl, returned}
use shooting_star.Base.Int.{ℤ, pos}
use shooting_star.Messages.Status.{status_ok}
use shooting_star.Messages.Ranking.{RankRequest}
use shooting_star.Ranking.Service.{
  Ranker, RankingServiceImpl, find_ranker, register_ranker, register_all, register_rankers,
  register_default_ranker, construct, validate_rank_request,
}
use shooting_star.Tests.Data as Data

abbrev ranker : Ranker ℤ
ranker = record {
  name = "heuristic_v1";
  create_task = λ request. some (λ response. (returned status_ok, response));
}

abbrev service : RankingServiceImpl ℤ
service = record { rankers = ("heuristic_v1", ranker) ∷ []; default_ranker_name = "heuristic_v1" }

service-made : construct true (some ranker ∷ []) "heuristic_v1" ≡ returned service
unfolding construct register_rankers register_all register_ranker register_default_ranker
    find_ranker
service-made = refl

valid : validate_rank_request Data.rank_request ≡ none
unfolding validate_rank_request
valid = refl

abbrev anonymous : RankRequest ℤ
anonymous = record Data.rank_request { user_id = pos 0 }

not_valid : validate_rank_request anonymous ≢ none
unfolding validate_rank_request
not_valid = λ e. cc
