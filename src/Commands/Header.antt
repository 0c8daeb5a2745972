-- ===== src/Commands/Header.antt =====
-- commands/buffer.rs: the flags of a message and the two writers of its header.
use aerospike_client_rust.Base.{ℕ, zero, suc, Bool, length, set, if◌then◌else◌, ltb, bit_or}
use aerospike_client_rust.Outcome.{ok, panic, pure, ◌>>◌}
use aerospike_client_rust.Buffer.{M}
use aerospike_client_rust.Buffer.Endian.{Endian}
use aerospike_client_rust.Buffer.Sizing.{msg_total_header_size}
use aerospike_client_rust.Buffer.Writes.{write_u8, write_u16, write_u32}
use aerospike_client_rust.Policy
use aerospike_client_rust.Policy.{
  ConsistencyLevel, CommitLevel, GenerationPolicy, RecordExistsAction, BasePolicy, WritePolicy,
}

abbrev pub info1_read : ℕ
info1_read = 1

abbrev pub info1_get_all : ℕ
info1_get_all = 2

abbrev pub info1_batch : ℕ
info1_batch = 8

abbrev pub info1_nobindata : ℕ
info1_nobindata = 32

abbrev pub info1_consistency_all : ℕ
info1_consistency_all = 64

abbrev pub info2_write : ℕ
info2_write = 1

abbrev pub info2_delete : ℕ
info2_delete = 2

abbrev pub info2_generation : ℕ
info2_generation = 4

abbrev pub info2_generation_gt : ℕ
info2_generation_gt = 8

abbrev pub info2_durable_delete : ℕ
info2_durable_delete = 16

abbrev pub info2_create_only : ℕ
info2_create_only = 32

abbrev pub info2_respond_all_ops : ℕ
info2_respond_all_ops = 128

abbrev pub info3_commit_master : ℕ
info3_commit_master = 2

abbrev pub info3_update_only : ℕ
info3_update_only = 8

abbrev pub info3_create_or_replace : ℕ
info3_create_or_replace = 16

abbrev pub info3_replace_only : ℕ
info3_replace_only = 32

abbrev pub msg_remaining_header_size : ℕ
msg_remaining_header_size = 22

-- `data_buffer[i] = v`
unfoldable pub put_at : ℕ → ℕ → M (Unit {0})
put_at i v b =
    if ltb i (length b.data_buffer)
    then ok (tt, record b { data_buffer = set b.data_buffer i v })
    else panic

-- `for i in from..from + n { data_buffer[i] = 0; }`
unfoldable pub clear_from : ℕ → ℕ → M (Unit {0})
clear_from from zero = pure tt
clear_from from (suc n) = do put_at from 0; clear_from (suc from) n

-- `self.data_offset = offset`
unfoldable pub set_offset : ℕ → M (Unit {0})
set_offset offset b = ok (tt, record b { data_offset = offset })

-- `if consistency_level == ConsistencyAll { read_attr |= INFO1_CONSISTENCY_ALL }`
unfoldable pub with_consistency : ConsistencyLevel → ℕ → ℕ
with_consistency ConsistencyLevel.consistency_one read_attr = read_attr
with_consistency ConsistencyLevel.consistency_all read_attr = bit_or read_attr info1_consistency_all

-- The arms of `match policy.record_exists_action`, on `info_attr` and on `write_attr`.
unfoldable pub exists_info : RecordExistsAction → ℕ → ℕ
exists_info RecordExistsAction.update info_attr = info_attr
exists_info RecordExistsAction.update_only info_attr = bit_or info_attr info3_update_only
exists_info RecordExistsAction.replace info_attr = bit_or info_attr info3_create_or_replace
exists_info RecordExistsAction.replace_only info_attr = bit_or info_attr info3_replace_only
exists_info RecordExistsAction.create_only info_attr = info_attr

unfoldable pub exists_write : RecordExistsAction → ℕ → ℕ
exists_write RecordExistsAction.create_only write_attr = bit_or write_attr info2_create_only
exists_write _ write_attr = write_attr

-- The arms of `match policy.generation_policy`, on `generation` and on `write_attr`.
unfoldable pub sent_generation : GenerationPolicy → ℕ → ℕ
sent_generation GenerationPolicy.none generation = 0
sent_generation GenerationPolicy.expect_gen_equal generation = generation
sent_generation GenerationPolicy.expect_gen_greater generation = generation

unfoldable pub generation_write : GenerationPolicy → ℕ → ℕ
generation_write GenerationPolicy.none write_attr = write_attr
generation_write GenerationPolicy.expect_gen_equal write_attr = bit_or write_attr info2_generation
generation_write GenerationPolicy.expect_gen_greater write_attr =
    bit_or write_attr info2_generation_gt

unfoldable pub commit_info : CommitLevel → ℕ → ℕ
commit_info CommitLevel.commit_all info_attr = info_attr
commit_info CommitLevel.commit_master info_attr = bit_or info_attr info3_commit_master

unfoldable pub durable_write : Bool → ℕ → ℕ
durable_write durable_delete write_attr =
    if durable_delete then bit_or write_attr info2_durable_delete else write_attr

module _ ⦃endian : Endian⦄ {F : Type 0} where
  unfoldable pub write_header : BasePolicy F → ℕ → ℕ → ℕ → ℕ → M (Unit {0})
  write_header policy read_attr write_attr field_count operation_count = do
    put_at 8 msg_remaining_header_size
    put_at 9 (with_consistency policy.consistency_level read_attr)
    put_at 10 write_attr
    clear_from 11 15
    set_offset 26
    write_u16 field_count
    write_u16 operation_count
    set_offset msg_total_header_size

  -- The attributes of a write, as the flags of the policy are added to them.
  unfoldable pub info_attr_of : WritePolicy F → ℕ
  info_attr_of policy = commit_info policy.commit_level (exists_info policy.record_exists_action 0)

  unfoldable pub write_attr_of : WritePolicy F → ℕ → ℕ
  write_attr_of policy write_attr = durable_write policy.durable_delete (
      generation_write policy.generation_policy
        (exists_write policy.record_exists_action write_attr))

  unfoldable pub write_header_with_policy : WritePolicy F → ℕ → ℕ → ℕ → ℕ → M (Unit {0})
  write_header_with_policy policy read_attr write_attr field_count operation_count = do
    set_offset 8
    write_u8 msg_remaining_header_size
    write_u8 (with_consistency policy.base_policy.consistency_level read_attr)
    write_u8 (write_attr_of policy write_attr)
    write_u8 (info_attr_of policy)
    write_u8 0
    write_u8 0
    write_u32 (sent_generation policy.generation_policy policy.generation)
    write_u32 (Policy.ttl policy.expiration)
    write_u8 0
    write_u8 0
    write_u8 0
    write_u8 0
    write_u16 field_count
    write_u16 operation_count
    set_offset msg_total_header_size
