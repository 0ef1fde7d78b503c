-- ===== src/Tests/Retrieving.antt =====
-- The two retrievers on a small catalogue.
use shooting_star.Base.{
  ℕ, true, List, [], ◌∷◌, some, ◌≡◌, ◌≢◌, refl, ap, take, map, returned, arith, ◌||◌,
}
use mathlib.Core.List.{Permᴰ}
use shooting_star.Base.Int.{ℤ, pos, pos_part}
use shooting_star.Base.Floats.{milli, milli-IsOrdered}
use shooting_star.Base.Sets.{contains, Distinct, lookup}
use shooting_star.Messages.Status.{status_ok, is_ok, profile_success, retriever_success}
use shooting_star.Messages.Services.{UserCfProfileResult, BatchGetUserCfProfilesRequest}
use shooting_star.Retrieval.Retrievers.Scores.{
  Scored, CandidateScore, Pool, sort_candidates, response_candidate, append_ranked,
  append_weighted_items, behavior_score, add_candidate_contribution, upsert, contribute,
  empty_candidate,
}
use shooting_star.Retrieval.Retrievers.Scores.Pool.{
  Edge, add_edges, edges_to, contribute_all, candidate_of, lookup-add_edges,
}
use shooting_star.Retrieval.Retrievers.Scores.Strongest.{
  IsStrongest, AnyEdge, IsExplainedBy, reason-IsStrongest,
}
use shooting_star.Retrieval.Retrievers.Scores.Ranking.{IsKeyed, NumberScores}
use shooting_star.Retrieval.Retrievers.Base.{collect_item_ids_to_filter_out, empty_response}
use shooting_star.Retrieval.Retrievers.Base.Filter.{
  has_id, has_item, contains-collect_item_ids_to_filter_out,
}
use shooting_star.Retrieval.Retrievers.ItemCf as ItemCf
use shooting_star.Retrieval.Retrievers.ItemCf.Seeds.{collect_trigger_seeds_lem}
use shooting_star.Retrieval.Retrievers.ItemCf.Batches as Batches
use shooting_star.Retrieval.Retrievers.ItemCf.Results as ItemCfResults
use shooting_star.Retrieval.Retrievers.UserCf as UserCf
use shooting_star.Retrieval.Retrievers.UserCf.Alignment as Alignment
use shooting_star.Retrieval.Retrievers.UserCf.Results as UserCfResults
use shooting_star.Tests.Data as Data

abbrev edges : List (Edge ℤ)
edges =
    (Data.scored 11 1000, Data.scored 21 400)
    ∷ (Data.scored 12 500, Data.scored 22 900)
    ∷ (Data.scored 12 500, Data.scored 21 900)
    ∷ (Data.scored 12 500, Data.scored 0 900)
    ∷ []

lookup-add_edges_example : lookup 21 (add_edges [] edges) ≡ candidate_of 21 (edges_to 21 edges)
lookup-add_edges_example = lookup-add_edges 21 edges

best : CandidateScore ℤ
best =
    contribute_all (contribute (Data.scored 11 1000) (Data.scored 21 400) true (empty_candidate 21))
      ((Data.scored 12 500, Data.scored 21 900) ∷ [])

best-pooled : lookup 21 (add_edges [] edges) ≡ some best
unfolding best add_edges add_candidate_contribution upsert contribute contribute_all empty_candidate
best-pooled = refl

reason-IsStrongest_example :
    IsStrongest best (edges_to 21 edges) × AnyEdge (IsExplainedBy best) (edges_to 21 edges)
reason-IsStrongest_example = reason-IsStrongest milli-IsOrdered 21 edges best best-pooled

abbrev pool : Pool ℤ
unfolding add_edges add_candidate_contribution upsert contribute empty_candidate
pool = add_edges [] edges

pool-IsKeyed : IsKeyed pool
unfolding pool add_edges add_candidate_contribution upsert contribute empty_candidate
pool-IsKeyed = record { distinct = (refl, (refl, tt)); own = refl; real = refl }

pool-NumberScores : NumberScores pool
unfolding pool add_edges add_candidate_contribution upsert contribute empty_candidate
pool-NumberScores = (refl, (refl, tt))

-- The same edges with the first one later: the hash map lists the items the other way round.
abbrev other : Pool ℤ
unfolding add_edges add_candidate_contribution upsert contribute empty_candidate
other = add_edges [] (
    (Data.scored 12 500, Data.scored 22 900)
    ∷ (Data.scored 11 1000, Data.scored 21 400)
    ∷ (Data.scored 12 500, Data.scored 21 900)
    ∷ [])

pool-other : Permᴰ pool other
unfolding pool other add_edges add_candidate_contribution upsert contribute empty_candidate
pool-other = Permᴰ.swap refl refl

contains-collect_item_ids_to_filter_out_example :
    contains 13 (collect_item_ids_to_filter_out Data.profile) ≡ (
      has_item 13 Data.profile.behaviors.recent_liked_items
      || has_item 13 Data.profile.behaviors.liked_items
      || has_item 13 Data.profile.behaviors.interested_items
      || has_id 13 Data.profile.behaviors.rated_items
      || has_item 13 Data.profile.negative_feedbacks.items)
contains-collect_item_ids_to_filter_out_example =
    contains-collect_item_ids_to_filter_out 13 Data.profile

-- Every item has the same two neighbours, one of them filtered out.
abbrev find : ℕ → List (Scored ℤ)
find id = Data.scored 13 900 ∷ Data.scored 21 400 ∷ []

abbrev item_cf : ItemCf.RetrieverItemCf ℤ
item_cf = record {
  store = λ ids max_count. returned (map find ids);
  default_max_candidate_count = pos 10;
  max_trigger_seed_count = pos 5;
  redis_command_batch_size = pos 1;
  score_multiplier = pos 1000;
}

collect_trigger_seeds_lem_example :
    Distinct (ItemCf.seed_ids (ItemCf.collect_trigger_seeds Data.profile))
    × ((a : ℕ)
        → contains a (ItemCf.seed_ids (ItemCf.collect_trigger_seeds Data.profile)) ≡ (
            has_item a Data.profile.behaviors.recent_liked_items
            || has_item a Data.profile.behaviors.liked_items
            || has_item a Data.profile.behaviors.interested_items))
collect_trigger_seeds_lem_example = collect_trigger_seeds_lem Data.profile

abbrev seeds : List (Scored ℤ)
seeds = Data.scored 11 300 ∷ Data.scored 12 800 ∷ []

abbrev session : ItemCf.SessionData ℤ
session = record {
  item_ids_to_filter_out = 13 ∷ [];
  trigger_seeds = seeds;
  candidates = [];
  total_neighbors_fetched = 0;
  total_neighbors_filtered_out = 0;
}

aggregate_similarity_candidates-edges_example :
    (s' : ItemCf.SessionData ℤ) × (ItemCf.aggregate_similarity_candidates item_cf
        Data.retriever_request session
      ≡ returned s')
    × (s'.candidates ≡ add_edges [] (Batches.edges_from (13 ∷ []) find seeds))
aggregate_similarity_candidates-edges_example =
    Batches.aggregate_similarity_candidates-edges find item_cf Data.retriever_request session
      (omega arith) (λ ids. refl)

do_retrieve-IsAcceptable_example :
    ItemCfResults.IsAcceptable item_cf Data.retriever_request Data.profile
      (ItemCf.do_retrieve item_cf Data.retriever_request Data.profile empty_response).1.candidates
do_retrieve-IsAcceptable_example =
    ItemCfResults.do_retrieve-IsAcceptable item_cf Data.retriever_request Data.profile

some_seeds : (ItemCf.build_session item_cf Data.profile).trigger_seeds ≢ []
unfolding ItemCf.build_session ItemCf.collect_trigger_seeds ItemCf.select_top_trigger_seeds
    append_weighted_items append_ranked behavior_score
some_seeds = λ e. cc

do_retrieve_ranked_example :
    let session = ItemCf.build_session item_cf Data.profile in
    let (status, response) =
      ItemCf.do_retrieve item_cf Data.retriever_request Data.profile empty_response in
    (status ≡ status_ok)
    × (response.status ≡ retriever_success)
    × (response.candidates
        ≡ map (response_candidate ItemCf.item_cf_labels (pos 1000)) (
            take 2 (
              sort_candidates (
                add_edges []
                  (Batches.edges_from session.item_ids_to_filter_out find session.trigger_seeds)))))
do_retrieve_ranked_example =
    ItemCfResults.do_retrieve_ranked item_cf Data.retriever_request Data.profile find (omega arith)
      (λ ids. refl) some_seeds

-- Each user's answer, in the order of the request.
abbrev answer : ℕ → UserCfProfileResult ℤ
answer id = record {
  status = profile_success;
  user_id = pos id;
  profile = record {
    user_id = pos id;
    recent_liked_items = Data.weighted 31 1000 ∷ Data.weighted 12 1000 ∷ [];
    liked_items = [];
    interested_items = [];
  };
}

abbrev profile_stub : UserCf.ProfileStub ℤ
profile_stub request = (
  status_ok,
  record {
    status = profile_success;
    msg = "";
    results = map (λ id. answer (pos_part id)) request.user_ids;
  },
)

aligned_stub :
    (request : BatchGetUserCfProfilesRequest)
    → request.user_ids ≡ UserCf.valid_user_ids (8 ∷ 0 ∷ 9 ∷ [])
    → (is_ok (profile_stub request).0 ≡ true)
      × ((profile_stub request).1.status ≡ profile_success)
      × ((profile_stub request).1.results ≡ Alignment.results answer (8 ∷ 0 ∷ 9 ∷ []))
unfolding UserCf.valid_user_ids Alignment.results
aligned_stub request e = (refl, refl, ap (map (λ (id : ℤ). answer (pos_part id))) e)

load_trigger_user_profiles-aligned_example :
    UserCf.load_trigger_user_profiles profile_stub "t" "g" (8 ∷ 0 ∷ 9 ∷ [])
    ≡ returned (map (Alignment.profile_of answer) (8 ∷ 0 ∷ 9 ∷ []))
load_trigger_user_profiles-aligned_example =
    Alignment.load_trigger_user_profiles-aligned answer profile_stub "t" "g" (8 ∷ 0 ∷ 9 ∷ [])
      aligned_stub

abbrev similar : List (Scored ℤ)
similar = Data.scored 8 600 ∷ Data.scored 7 900 ∷ Data.scored 8 500 ∷ Data.scored 9 300 ∷ []

abbrev user_cf : UserCf.RetrieverUserCf ℤ
user_cf = record {
  store = λ user_id count. returned similar;
  profile_stub = profile_stub;
  default_max_candidate_count = pos 10;
  trigger_seed_user_count = pos 4;
  score_multiplier = pos 1000;
}

abbrev users : List (Scored ℤ)
users = Data.scored 8 600 ∷ Data.scored 9 300 ∷ []

users-loaded : UserCf.load_trigger_seeds user_cf "g" Data.retriever_request ≡ returned users
unfolding UserCf.load_trigger_seeds UserCf.collect_trigger_seeds UserCf.collect_seeds_from
users-loaded = refl

profiles-loaded :
    UserCf.load_trigger_user_profiles profile_stub "t" "g" (8 ∷ 9 ∷ [])
    ≡ returned (some (answer 8).profile ∷ some (answer 9).profile ∷ [])
unfolding UserCf.load_trigger_user_profiles UserCf.valid_user_ids UserCf.valid_indexes
    UserCf.assign_results UserCf.no_profiles
profiles-loaded = refl

do_retrieve_best_example :
    let (status, response) =
      UserCf.do_retrieve user_cf "g" Data.retriever_request Data.profile empty_response in
    (status ≡ status_ok)
    × (response.status ≡ retriever_success)
    × (response.candidates
        ≡ map (response_candidate UserCf.user_cf_labels (pos 1000)) (
            take 2 (
              sort_candidates (
                add_edges [] (
                  UserCfResults.edges_from
                    (collect_item_ids_to_filter_out Data.profile)
                    users
                    (some (answer 8).profile ∷ some (answer 9).profile ∷ []))))))
do_retrieve_best_example =
    UserCfResults.do_retrieve_best user_cf "g" Data.retriever_request Data.profile users
      (some (answer 8).profile ∷ some (answer 9).profile ∷ []) users-loaded (λ e. cc)
      profiles-loaded
