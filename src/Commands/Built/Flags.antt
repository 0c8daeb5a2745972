-- ===== src/Commands/Built/Flags.antt =====
-- The attributes of a message, as the wire format has them: which number stands for each flag of a
-- policy. A description that is independent of the two header writers of commands/buffer.rs.
use aerospike_client_rust.Base.{ℕ, ◌+◌, Bool, true, false}
use aerospike_client_rust.Policy.{
  ConsistencyLevel, CommitLevel, GenerationPolicy, RecordExistsAction, Expiration, WritePolicy,
  Bins,
}

-- The attributes of a read that has to be consistent, or need not.
unfoldable pub consistent : ConsistencyLevel → ℕ → ℕ
consistent ConsistencyLevel.consistency_one attr = attr
consistent ConsistencyLevel.consistency_all attr = attr + 64

-- What the flags of a write add to its attributes.
unfoldable pub create_bit : RecordExistsAction → ℕ
create_bit RecordExistsAction.create_only = 32
create_bit _ = 0

unfoldable pub generation_bit : GenerationPolicy → ℕ
generation_bit GenerationPolicy.none = 0
generation_bit GenerationPolicy.expect_gen_equal = 4
generation_bit GenerationPolicy.expect_gen_greater = 8

unfoldable pub durable_bit : Bool → ℕ
durable_bit true = 16
durable_bit false = 0

-- The third byte of attributes.
unfoldable pub exists_bit : RecordExistsAction → ℕ
exists_bit RecordExistsAction.update = 0
exists_bit RecordExistsAction.update_only = 8
exists_bit RecordExistsAction.replace = 16
exists_bit RecordExistsAction.replace_only = 32
exists_bit RecordExistsAction.create_only = 0

unfoldable pub commit_bit : CommitLevel → ℕ
commit_bit CommitLevel.commit_all = 0
commit_bit CommitLevel.commit_master = 2

-- The generation that is expected, and the time to live: two numbers of it are reserved.
unfoldable pub generation_word : GenerationPolicy → ℕ → ℕ
generation_word GenerationPolicy.none generation = 0
generation_word _ generation = generation

unfoldable pub expiration_word : Expiration → ℕ
expiration_word (Expiration.seconds secs) = secs
expiration_word Expiration.namespace_default = 0
expiration_word Expiration.never = 4294967295
expiration_word Expiration.dont_update = 4294967294

module _ {F : Type 0} where
  unfoldable pub write_bits : WritePolicy F → ℕ → ℕ
  write_bits policy attr =
      attr
      + create_bit policy.record_exists_action
      + generation_bit policy.generation_policy
      + durable_bit policy.durable_delete

  unfoldable pub info_bits : WritePolicy F → ℕ
  info_bits policy = commit_bit policy.commit_level + exists_bit policy.record_exists_action

-- What a scan or a query asks for: without bins no data of them.
unfoldable pub scan_flags : Bins → ℕ
scan_flags Bins.all = 1
scan_flags Bins.none = 33
scan_flags (Bins.names names) = 1
