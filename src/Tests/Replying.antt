-- ===== src/Tests/Replying.antt =====
-- The replies of the orchestrator, of the retrievers' base class and of the gateway.
use shooting_star.Base.{
  false, arith, [], ◌∷◌, ◌++◌, none, some, ◌≡◌, ◌≢◌, refl, take, map, length, All, if◌then◌else◌,
}
use shooting_star.Base.Int.{ℤ, pos, leb_ℤ}
use shooting_star.Base.Floats.{milli}
use shooting_star.Messages.Status.{
  StatusCode, status_ok, failure, is_ok, retrieval_success, retrieval_system_error, profile_success,
}
use shooting_star.Messages.Services.{RetrieverRequest, RetrieveResponse}
use shooting_star.Retrieval.Orchestrator.Merge.Normal.{IsNormal}
use shooting_star.Retrieval.Orchestrator.Rounds.Schedule.{round_robin}
use shooting_star.Retrieval.Orchestrator.Rounds.Index.{item_ids}
use shooting_star.Retrieval.Orchestrator.Rounds.Items.{distinct_ids}
use shooting_star.Retrieval.Orchestrator.Dispatch.{
  RetrieverStub, RetrievalOrchestrator, fetch_candidates_from_retriever, candidates_of, Reply,
  retriever_request, retrieve,
}
use shooting_star.Retrieval.Orchestrator.Dispatch.Replies.{
  downstream, any_answered, IsComplete, retrieve_answered, retrieve_unanswered,
}
use shooting_star.Retrieval.Orchestrator.Dispatch.Replies as Replies
use shooting_star.Retrieval.Retrievers.Base.{Handler, empty_response, normalize_request}
use shooting_star.Retrieval.Retrievers.Base as Base
use shooting_star.Retrieval.Retrievers.Base.Replies.{
  given_profile, IsConsistent, IsHandled, retrieve-IsConsistent,
}
use shooting_star.Gateway.{ProfileStub, RetrievalStub, RankingStub, Guids, recommend}
use shooting_star.Gateway.Replies.{
  gateway_of, all_succeeded, ranking_answer, code_of, recommend_answered, recommend_consistent,
}
use shooting_star.Tests.Data as Data

-- One retriever answers, and one does not.
abbrev answering : RetrieverStub ℤ
answering request = (
  status_ok,
  Data.retriever_response (
      Data.candidate 1 "item_cf" 700
      ∷ Data.candidate 2 "item_cf" 300
      ∷ Data.candidate 3 "item_cf" 90
      ∷ []),
)

abbrev failing : RetrieverStub ℤ
failing request = (failure StatusCode.unavailable "down", Data.retriever_response [])

abbrev half : RetrievalOrchestrator ℤ
half = record {
  retriever_stubs = ("item_cf", some answering) ∷ ("user_cf", some failing) ∷ [];
  recall_candidate_expand_ratio = pos 1500;
}

abbrev down : RetrievalOrchestrator ℤ
down = record half { retriever_stubs = ("user_cf", some failing) ∷ [] }

complete : (leb_ℤ (pos 7) (pos 0) ≡ false) × (Data.retrieve_request.profile ≢ none)
complete = (refl, λ e. cc)

half-answers : Replies.answers half.retriever_stubs (downstream half "g" Data.retrieve_request) ≢ []
unfolding Replies.answers
half-answers = λ e. cc

down-any_answered :
    any_answered down.retriever_stubs (retriever_request down "g" Data.retrieve_request) ≡ false
unfolding any_answered fetch_candidates_from_retriever
down-any_answered = refl

retrieve_answered_example :
    (response : RetrieveResponse ℤ) × (retrieve half "g" Data.retrieve_request
      ≡ some (status_ok, response))
    × (response.status ≡ retrieval_success)
    × (response.candidate_count ≡ pos (length response.candidates))
    × (item_ids response.candidates
        ≡ take 2 (
            distinct_ids [] (
              item_ids (
                round_robin (
                  candidates_of (
                    Replies.answers half.retriever_stubs
                      (downstream half "g" Data.retrieve_request)))))))
    × All IsNormal response.candidates
retrieve_answered_example = retrieve_answered half "g" Data.retrieve_request complete half-answers

retrieve_unanswered_example :
    (reply : Reply ℤ) × (retrieve down "g" Data.retrieve_request ≡ some reply)
    × (reply.0.code ≡ StatusCode.internal)
    × (reply.1.status ≡ retrieval_system_error)
    × (reply.1.candidates ≡ [])
retrieve_unanswered_example =
    retrieve_unanswered down "g" Data.retrieve_request complete down-any_answered

abbrev handler : Handler ℤ
handler request profile response =
    (status_ok, record response { candidates = Data.candidate 1 "item_cf" 700 ∷ [] })

abbrev anonymous : RetrieverRequest ℤ
anonymous = record Data.retriever_request { user_id = pos 0 }

abbrev unlimited : RetrieverRequest ℤ
unlimited = record Data.retriever_request { max_candidate_count = pos 0 }

retrieve-IsConsistent_example :
    IsConsistent (pos 50) handler (Base.retrieve (pos 50) handler unlimited)
    × IsHandled
        (pos 50)
        handler
        (some Data.profile)
        unlimited
        (Base.retrieve (pos 50) handler unlimited)
unfolding given_profile
retrieve-IsConsistent_example =
    retrieve-IsConsistent (pos 50) handler (λ request profile e. absurd (ground (arith, e)))
      unlimited

abbrev profile_stub : ProfileStub ℤ
profile_stub request =
    (status_ok, record { status = profile_success; msg = ""; profile = Data.profile })

abbrev retrieval_stub : RetrievalStub ℤ
retrieval_stub request = (status_ok, Data.retrieve_response (Data.candidate 1 "item_cf" 700 ∷ []))

abbrev ranking_stub : RankingStub ℤ
ranking_stub request = (
  status_ok,
  record Data.rank_response {
    ranked_candidates =
        record {
          candidate = Data.candidate 1 "item_cf" 700;
          rank_score = pos 700;
          rank_position = pos 1;
          ranker = "heuristic_v1";
          score_factors = [];
          item_features = none;
          retrieval_signals = [];
        }
        ∷ [];
  },
)

abbrev guids : Guids
guids = record { profile = "p"; retrieval = "v"; ranking = "k" }

recommend_answered_example :
    let (status, response) =
      recommend
        (gateway_of profile_stub retrieval_stub ranking_stub guids Data.recommend_request)
        guids
        Data.profile
        (Data.retrieve_response [])
        Data.recommend_request
        Data.recommend_response in
    (is_ok status
      ≡ all_succeeded profile_stub retrieval_stub ranking_stub guids Data.recommend_request)
    × (response.candidates ≡ (
        if all_succeeded profile_stub retrieval_stub ranking_stub guids Data.recommend_request
        then []
          ++ map
              (λ c. c.candidate)
              (ranking_answer profile_stub retrieval_stub ranking_stub guids
                Data.recommend_request).1.ranked_candidates
        else []))
recommend_answered_example =
    recommend_answered profile_stub retrieval_stub ranking_stub guids Data.recommend_request
      Data.profile (Data.retrieve_response []) Data.recommend_response

recommend_consistent_example :
    let (status, response) =
      recommend
        (gateway_of profile_stub retrieval_stub ranking_stub guids Data.recommend_request)
        guids
        Data.profile
        (Data.retrieve_response [])
        Data.recommend_request
        Data.recommend_response in
    (status.code ≡ code_of response.status) × (response.msg ≡ status.error_message)
recommend_consistent_example =
    recommend_consistent guids Data.recommend_request
      (gateway_of profile_stub retrieval_stub ranking_stub guids Data.recommend_request)
      Data.profile (Data.retrieve_response []) Data.recommend_response
