-- ===== src/Policy.antt =====
-- policy/: the policies of the commands, and bin.rs's selector of bins.
-- A duration is a number of milliseconds. The type of filter expressions is a parameter.
use aerospike_client_rust.Base.{ℕ, Bool, List, Option}

pub data Priority : Type 0 where
  default low medium high : Priority

pub data ConsistencyLevel : Type 0 where
  consistency_one consistency_all : ConsistencyLevel

pub data CommitLevel : Type 0 where
  commit_all commit_master : CommitLevel

pub data GenerationPolicy : Type 0 where
  none expect_gen_equal expect_gen_greater : GenerationPolicy

pub data RecordExistsAction : Type 0 where
  update update_only replace replace_only create_only : RecordExistsAction

pub data Expiration : Type 0 where
  seconds : ℕ → Expiration
  namespace_default never dont_update : Expiration

-- `u32::from(Expiration)`
unfoldable pub ttl : Expiration → ℕ
ttl (Expiration.seconds secs) = secs
ttl Expiration.namespace_default = 0
ttl Expiration.never = 0xffff_ffff
ttl Expiration.dont_update = 0xffff_fffe

pub record BasePolicy (F : Type 0) : Type 0 where
  pub priority : Priority
  pub consistency_level : ConsistencyLevel
  pub timeout : Option ℕ
  pub max_retries : Option ℕ
  pub sleep_between_retries : Option ℕ
  pub filter_expression : Option F

abbrev pub ReadPolicy : Type 0 → Type 0
ReadPolicy F = BasePolicy F

pub record WritePolicy (F : Type 0) : Type 0 where
  pub base_policy : BasePolicy F
  pub record_exists_action : RecordExistsAction
  pub generation_policy : GenerationPolicy
  pub commit_level : CommitLevel
  pub generation : ℕ
  pub expiration : Expiration
  pub send_key : Bool
  pub respond_per_each_op : Bool
  pub durable_delete : Bool
  pub filter_expression : Option F

pub data Bins : Type 0 where
  all none : Bins
  names : List (List ℕ) → Bins
