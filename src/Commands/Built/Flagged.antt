-- ===== src/Commands/Built/Flagged.antt =====
-- commands/buffer.rs: the flags that the two header writers set, against the wire format's numbers.
use aerospike_client_rust.Base.{
  ℕ, ◌+◌, ◌*◌, ◌%◌, ◌<◌, ◌≡◌, refl, ap, ◌∙◌, Bool, true, false, ltb, lt→ltb, if◌then◌else◌, bit_or,
  same_below, agree_below, arith,
}
use aerospike_client_rust.Buffer.Endian.{Endian}
use aerospike_client_rust.Policy
use aerospike_client_rust.Policy.{
  ConsistencyLevel, CommitLevel, GenerationPolicy, RecordExistsAction, Expiration, WritePolicy,
  Bins,
}
use aerospike_client_rust.Commands.Header.{
  with_consistency, exists_info, exists_write, sent_generation, generation_write, commit_info,
  durable_write, info_attr_of, write_attr_of,
}
use aerospike_client_rust.Commands.Built.Flags.{
  consistent, create_bit, generation_bit, durable_bit, exists_bit, commit_bit, generation_word,
  expiration_word, write_bits, info_bits,
}

-- A bit that is not set is set by addition. The table is checked by evaluation.
abbrev when_clear : ℕ → (ℕ → ℕ) → ℕ → ℕ
when_clear bit f x = if ltb (x % (bit * 2)) bit then f x else 0

branch : {x y : ℕ} (c : Bool) → c ≡ true → (if c then x else 0) ≡ (if c then y else 0) → x ≡ y
branch true h e = e
branch false h e = cc

set_bit :
    (bit n : ℕ)
    → same_below (when_clear bit (λ x. bit_or x bit)) (when_clear bit (λ x. x + bit)) 256 ≡ true
    → n < 256
    → n % (bit * 2) < bit
    → bit_or n bit ≡ n + bit
set_bit bit n table below clear =
    branch (ltb (n % (bit * 2)) bit) (lt→ltb (n % (bit * 2)) bit clear) (
      agree_below (when_clear bit (λ x. bit_or x bit)) (when_clear bit (λ x. x + bit)) 256 n table
        below)

-- The flags of the code are these numbers.
pub with_consistency-consistent :
    (level : ConsistencyLevel) (attr : ℕ)
    → attr < 64
    → with_consistency level attr ≡ consistent level attr
unfolding with_consistency consistent same_below
with_consistency-consistent ConsistencyLevel.consistency_one attr h = refl
with_consistency-consistent ConsistencyLevel.consistency_all attr h =
    set_bit 64 attr refl (omega arith) (omega arith)

exists_write-bit :
    (action : RecordExistsAction) (attr : ℕ)
    → attr < 256
    → attr % 64 < 32
    → exists_write action attr ≡ attr + create_bit action
unfolding exists_write create_bit same_below
exists_write-bit RecordExistsAction.update attr h k = omega arith
exists_write-bit RecordExistsAction.update_only attr h k = omega arith
exists_write-bit RecordExistsAction.replace attr h k = omega arith
exists_write-bit RecordExistsAction.replace_only attr h k = omega arith
exists_write-bit RecordExistsAction.create_only attr h k = set_bit 32 attr refl h k

generation_write-bit :
    (policy : GenerationPolicy) (attr : ℕ)
    → attr < 256
    → attr % 16 < 4
    → generation_write policy attr ≡ attr + generation_bit policy
unfolding generation_write generation_bit same_below
generation_write-bit GenerationPolicy.none attr h k = omega arith
generation_write-bit GenerationPolicy.expect_gen_equal attr h k =
    set_bit 4 attr refl h (omega arith)
generation_write-bit GenerationPolicy.expect_gen_greater attr h k =
    set_bit 8 attr refl h (omega arith)

durable_write-bit :
    (durable : Bool) (attr : ℕ)
    → attr < 256
    → attr % 32 < 16
    → durable_write durable attr ≡ attr + durable_bit durable
unfolding durable_write durable_bit same_below
durable_write-bit true attr h k = set_bit 16 attr refl h k
durable_write-bit false attr h k = omega arith

-- The bits that come before another one leave it clear.
create_bit-room :
    (action : RecordExistsAction) (attr : ℕ)
    → attr < 256
    → attr % 128 < 4
    → (attr + create_bit action < 256) × ((attr + create_bit action) % 32 < 4)
unfolding create_bit
create_bit-room RecordExistsAction.update attr h k = (omega arith, omega arith)
create_bit-room RecordExistsAction.update_only attr h k = (omega arith, omega arith)
create_bit-room RecordExistsAction.replace attr h k = (omega arith, omega arith)
create_bit-room RecordExistsAction.replace_only attr h k = (omega arith, omega arith)
create_bit-room RecordExistsAction.create_only attr h k = (omega arith, omega arith)

generation_bit-room :
    (policy : GenerationPolicy) (attr : ℕ)
    → attr < 256
    → attr % 32 < 4
    → (attr + generation_bit policy < 256) × ((attr + generation_bit policy) % 32 < 16)
unfolding generation_bit
generation_bit-room GenerationPolicy.none attr h k = (omega arith, omega arith)
generation_bit-room GenerationPolicy.expect_gen_equal attr h k = (omega arith, omega arith)
generation_bit-room GenerationPolicy.expect_gen_greater attr h k = (omega arith, omega arith)

info :
    (level : CommitLevel) (action : RecordExistsAction)
    → commit_info level (exists_info action 0) ≡ commit_bit level + exists_bit action
unfolding commit_info exists_info commit_bit exists_bit
info CommitLevel.commit_all RecordExistsAction.update = refl
info CommitLevel.commit_all RecordExistsAction.update_only = refl
info CommitLevel.commit_all RecordExistsAction.replace = refl
info CommitLevel.commit_all RecordExistsAction.replace_only = refl
info CommitLevel.commit_all RecordExistsAction.create_only = refl
info CommitLevel.commit_master RecordExistsAction.update = refl
info CommitLevel.commit_master RecordExistsAction.update_only = refl
info CommitLevel.commit_master RecordExistsAction.replace = refl
info CommitLevel.commit_master RecordExistsAction.replace_only = refl
info CommitLevel.commit_master RecordExistsAction.create_only = refl

module _ ⦃endian : Endian⦄ {F : Type 0} where
  pub write_attr_of-bits :
      (policy : WritePolicy F) (attr : ℕ)
      → attr < 256
      → attr % 128 < 4
      → write_attr_of policy attr ≡ write_bits policy attr
  unfolding write_attr_of write_bits
  write_attr_of-bits policy attr h k =
      let first : ℕ = attr + create_bit policy.record_exists_action in
      let second : ℕ = first + generation_bit policy.generation_policy in
      let (small, clear) = create_bit-room policy.record_exists_action attr h k in
      let (less, free) = generation_bit-room policy.generation_policy first small clear in
      ap (λ n. durable_write policy.durable_delete (generation_write policy.generation_policy n))
        (exists_write-bit policy.record_exists_action attr h (omega arith))
      ∙ ap (durable_write policy.durable_delete)
          (generation_write-bit policy.generation_policy first small (omega arith))
      ∙ durable_write-bit policy.durable_delete second less free

  pub info_attr_of-bits : (policy : WritePolicy F) → info_attr_of policy ≡ info_bits policy
  unfolding info_attr_of info_bits
  info_attr_of-bits policy = info policy.commit_level policy.record_exists_action

pub sent_generation-word :
    (policy : GenerationPolicy) (generation : ℕ)
    → sent_generation policy generation ≡ generation_word policy generation
unfolding sent_generation generation_word
sent_generation-word GenerationPolicy.none generation = refl
sent_generation-word GenerationPolicy.expect_gen_equal generation = refl
sent_generation-word GenerationPolicy.expect_gen_greater generation = refl

pub ttl-word : (expiration : Expiration) → Policy.ttl expiration ≡ expiration_word expiration
unfolding Policy.ttl expiration_word
ttl-word (Expiration.seconds secs) = refl
ttl-word Expiration.namespace_default = refl
ttl-word Expiration.never = refl
ttl-word Expiration.dont_update = refl
