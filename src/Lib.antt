-- ===== src/Lib.antt =====
-- ShootingStar is a recommendation engine: a gateway asks a profile service for the user's profile,
-- a retrieval service for candidate items and a ranking service for their order. The retrieval
-- service is an orchestrator that asks several retrievers and merges their answers; a retriever
-- looks for neighbours of what the user liked (item_cf) or of users like him (user_cf). All speak
-- gRPC, and every answer carries a gRPC status beside a status of its own.
--
-- The files, with the code under src/recommendation_engine (or src/utilities, where a path says so)
-- that each models:
--   Base        booleans, lists and integers over the native numbers, texts, exceptions as values
--               (Attempt), identifier sets, sorting, and `double` as an interface (Base/Floats)
--               Base/Decimal is std::from_chars for uint64_t
--   Cache       utilities/lru_cache/lru_cache.h: Lru has the list of entries, each at the address
--               that an iterator stands for, the index of iterators, Get and Put; Recency says what
--               they are meant to do; Stores has profile/caching_profile_store.cpp and
--               ranking/caching_item_index_store.cpp, which put the cache in front of a store
--   Messages    protos/recommendation_engine/*.proto and grpc::Status
--   ProfileService
--               profile/profile_service.cpp: GetProfile and BatchGetUserCfProfiles
--   Redis       utilities/redis_client/redis_client.cpp: Client has validation, the commands and
--               their retry loop, Keys BuildRedisKey; Stores has redis_item_similarity_store.cpp
--               and redis_user_similarity_store.cpp of retrieval/retrievers
--   LocalFiles  retrieval/retrievers/base/local_file_similarity_jsonl_parser.cpp, and the stores over a
--               file, local_file_item_similarity_store.cpp and local_file_user_similarity_store.cpp
--   Utilities   Base64Encode of utilities/runtime_utilities/runtime_utilities.cpp
--   Pool        utilities/resource_pool/resource_pool.h: the pool with its Lease objects, and their
--               operations as steps (data Step, data Reachable)
--   Retrieval/Orchestrator
--               retrieval/orchestrator/retrieval_orchestrator.cpp: Merge has NormalizeCandidate and
--               MergeCandidate, Rounds the loop that takes one candidate of each answer in turn
--               (record Merged: the response's candidates and the index of positions), Dispatch the
--               constructor, Retrieve, FetchCandidatesFromRetriever and DispatchToRetrievers
--   Retrieval/Retrievers
--               retrieval/retrievers: Base has retriever_base.cpp, Scores the candidate pool that
--               retriever_item_cf.cpp and retriever_user_cf.cpp keep alike, ItemCf and UserCf the rest
--   Gateway     gateway/gateway_service.cpp: Recommend and its three fetching steps
--   Ranking     ranking/heuristic_ranker.cpp: Weights has the weights of a profile, Scoring the
--               score and its factors, Heuristic the merge and `Run`; ranking/ranking_service.cpp:
--               Service has the registry of rankers and Rank
--   Tests       runs on concrete inputs
--
-- State is passed explicitly: a response pointer is an argument and part of the result, an out
-- parameter is a component of a pair, a thrown exception is `thrown` of Attempt. A hash map is an
-- association list with the newest or the first entry in front; what the order of a hash map could
-- change is a theorem (Scores/Ranking). std::sort, std::stable_sort and the prefix of
-- std::partial_sort are one stable insertion sort; with a NaN score C++ leaves their result undefined,
-- and the model takes one. uint64_t identifiers are natural numbers and
-- int32/int64 fields integers: nothing of what is modelled adds to them but counters.
--
-- `double` is a parameter R with the operations of the record Double; theorems that need an order
-- ask for the laws of IsOrdered, which hold for IEEE comparison with NaN and two zeros, and for no
-- law of addition or multiplication. The instance `milli`, thousandths, satisfies them.
--
-- How the parts meet: the profile service answers the batches of the user-CF retriever; a Redis
-- store answers the batches of the item-CF retriever; a caching store stands for the item index of
-- the ranker and for the profile store of the profile service.
--
-- The gRPC stubs of other services, the innermost stores, the generated GUIDs, the Redis library
-- (what it does in each attempt at a command, and the reading of a score) and the JSON reader of
-- protobuf are arguments. The clock of the cache is an argument of each call. The mutexes of the
-- cache and of the pool are held throughout an operation, so threads are a sequence of calls or
-- steps; waiting for a resource is the steps of others before the step that gets it. To follow an
-- iterator of an erased node is undefined behaviour, and gives no result in the model.
--
-- The merging loop runs on fuel: one round more than the longest answer has candidates, with a
-- theorem that this is enough. Slicing the seeds into batches runs on the number of seeds, eviction
-- on the length of the list, the retry loop on the attempts allowed, and a number is printed with
-- itself as fuel, which each has more of than it needs.
--
-- Not modelled: logging; configuration and the Create functions, which only read it and open
-- channels; the clients of Elasticsearch and HTTP, which are input and output; the loaders of
-- profiles and of the item index from files; the other helpers of runtime_utilities.cpp; the
-- command-line clients; the weather forecast demonstration.
pub mod Base
pub mod Cache
pub mod Messages
pub mod ProfileService
pub mod Redis
pub mod Pool
pub mod LocalFiles
pub mod Utilities
pub mod Retrieval
pub mod Gateway
pub mod Ranking
pub mod Tests
