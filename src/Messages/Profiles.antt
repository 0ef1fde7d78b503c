-- ===== src/Messages/Profiles.antt =====
-- profile.proto: the parts of a profile that retrieval and ranking read. `R` stands for `double`;
-- a `float` weight is its exact conversion to `double`.
use shooting_star.Base.{List, [], String}
use shooting_star.Base.Int.{ℤ, pos}

pub record WeightedItem (R : Type 0) : Type 0 where
  pub item_id : ℤ
  pub weight : R

pub record GenreInterest (R : Type 0) : Type 0 where
  pub genre : String
  pub weight : R

pub record TagInterest (R : Type 0) : Type 0 where
  pub tag : String
  pub weight : R

pub record Interests (R : Type 0) : Type 0 where
  pub genres : List (GenreInterest R)
  pub tags : List (TagInterest R)

pub record NegativeFeedback (R : Type 0) : Type 0 where
  pub items : List (WeightedItem R)
  pub genres : List (GenreInterest R)
  pub tags : List (TagInterest R)

pub record Behaviors (R : Type 0) : Type 0 where
  pub liked_items : List (WeightedItem R)
  pub recent_liked_items : List (WeightedItem R)
  pub interested_items : List (WeightedItem R)
  pub rated_items : List ℤ

pub record Profile (R : Type 0) : Type 0 where
  pub user_id : ℤ
  pub interests : Interests R
  pub negative_feedbacks : NegativeFeedback R
  pub behaviors : Behaviors R

pub record UserCfProfile (R : Type 0) : Type 0 where
  pub user_id : ℤ
  pub recent_liked_items : List (WeightedItem R)
  pub liked_items : List (WeightedItem R)
  pub interested_items : List (WeightedItem R)

-- The default of a Profile.
abbrev pub empty_profile : {R : Type 0} → Profile R
empty_profile = record {
  user_id = pos 0;
  interests = record { genres = []; tags = [] };
  negative_feedbacks = record { items = []; genres = []; tags = [] };
  behaviors = record {
    liked_items = [];
    recent_liked_items = [];
    interested_items = [];
    rated_items = [];
  };
}
