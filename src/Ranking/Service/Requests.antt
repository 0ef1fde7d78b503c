-- ===== src/Ranking/Service/Requests.antt =====
-- Which requests a ranking service hands to a ranker, and what it replies to the others.
use shooting_star.Base.{
  String, Bool, true, List, Option, none, some, ◌≡◌, ◌≢◌, arith, returned, length, Option-cases,
  Attempt-cases, inl, inr, ◌⊎◌,
}
use shooting_star.Base.Int.{pos}
use shooting_star.Base.Text.{is_empty}
use shooting_star.Messages.Status.{StatusCode, ranking_invalid_request}
use shooting_star.Messages.Ranking.{RankRequest, RankResponse}
use shooting_star.Ranking.Service.{
  Ranker, RankingServiceImpl, find_ranker, register_rankers, register_default_ranker, construct,
  resolve_ranker_name, validate_rank_request, reply_with, run_ranker, rank,
}

module _ {R : Type 0} where
  register_default_ranker-found :
      (name : String) (rankers : List (String × Ranker R)) (service : RankingServiceImpl R)
      → register_default_ranker name rankers ≡ returned service
      → find_ranker service.default_ranker_name service.rankers ≢ none
  unfolding register_default_ranker
  register_default_ranker-found name rankers service h = λ e. ground arith

  construct-found :
      (has_store : Bool) (rankers : List (Option (Ranker R))) (name : String)
      (service : RankingServiceImpl R)
      → construct has_store rankers name ≡ returned service
      → find_ranker service.default_ranker_name service.rankers ≢ none
  unfolding construct
  construct-found has_store rankers name service h =
      elim (Attempt-cases (register_rankers rankers)) [
        | inl (message, e) ↦ absurd (ground arith)
        | inr (registered, e) ↦ register_default_ranker-found name registered service (ground arith)
      ]

  -- A service that the constructor has made hands every valid request that names no ranker to its
  -- default ranker.
  pub rank_default :
      (has_store : Bool) (rankers : List (Option (Ranker R))) (name : String)
      (service : RankingServiceImpl R) (request : RankRequest R) (given : RankResponse R)
      → construct has_store rankers name ≡ returned service
      → validate_rank_request request ≡ none
      → is_empty request.options.ranker ≡ true
      → (ranker : Ranker R) × (find_ranker service.default_ranker_name service.rankers
          ≡ some ranker)
        × (rank service request given
            ≡ run_ranker service.default_ranker_name ranker request (record given {
              msg = "";
              input_candidate_count = pos (length request.candidates);
              ranked_candidate_count = pos 0;
            }))
  unfolding rank resolve_ranker_name
  rank_default has_store rankers name service request given made valid unnamed =
      elim (Option-cases (find_ranker service.default_ranker_name service.rankers)) [
        | inl e ↦ absurd (construct-found has_store rankers name service made e)
        | inr (ranker, e) ↦ (ranker, e, ground arith)
      ]

  -- A request that is not valid, or that names a ranker that is not registered, is an invalid
  -- argument; the candidates are counted and the ranked candidates left alone.
  pub rank_refused :
      (service : RankingServiceImpl R) (request : RankRequest R) (given : RankResponse R)
      → (validate_rank_request request ≢ none)
        ⊎ (find_ranker (resolve_ranker_name service request) service.rankers ≡ none)
      → let (status, response) = rank service request given in
        (status.code ≡ StatusCode.invalid_argument)
        × (response.status ≡ ranking_invalid_request)
        × (response.input_candidate_count ≡ pos (length request.candidates))
        × (response.ranked_candidates ≡ given.ranked_candidates)
  unfolding rank reply_with
  rank_refused service request given h = ground arith
