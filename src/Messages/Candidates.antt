-- ===== src/Messages/Candidates.antt =====
-- retrieval.proto: a candidate item with its reasons and retrieval signals.
use shooting_star.Base.{ℕ, List, String}

pub data ItemType : Type 0 where
  item_type_unspecified item_type_video item_type_image_text : ItemType

pub data EntityType : Type 0 where
  entity_type_unspecified entity_type_item entity_type_author entity_type_query : EntityType
  entity_type_tag entity_type_topic entity_type_user : EntityType

pub data ReasonType : Type 0 where
  reason_type_unspecified reason_type_user_cf reason_type_item_cf reason_type_embedding : ReasonType
  reason_type_hot reason_type_follow : ReasonType

pub record TriggerEntity : Type 0 where
  pub entity_type : EntityType
  pub entity_id : ℕ

pub record RetrievalReason (R : Type 0) : Type 0 where
  pub reason_type : ReasonType
  pub trigger : TriggerEntity
  pub reason_score : R
  pub description : String

pub record RetrievalSignal (R : Type 0) : Type 0 where
  pub retriever : String
  pub retrieve_score : R
  pub reasons : List (RetrievalReason R)

pub record CandidateItem (R : Type 0) : Type 0 where
  pub item_id : ℕ
  pub item_type : ItemType
  pub author_id : ℕ
  pub retriever : String
  pub retrieve_score : R
  pub reasons : List (RetrievalReason R)
  pub retrieval_signals : List (RetrievalSignal R)
