-- ===== src/Operations/MapTypes.antt =====
-- operations/maps.rs: the codes, the flags and the policy of operations on maps.
use aerospike_client_rust.Base.{ℕ, Bool, if◌then◌else◌, Option}
use aerospike_client_rust.Operations.{CdtArgument}

pub data CdtMapOpType : Type 0 where
  set_type add add_items put put_items replace replace_items increment decrement : CdtMapOpType
  clear remove_by_key remove_by_index remove_by_rank remove_key_list : CdtMapOpType
  remove_by_value remove_value_list remove_by_key_interval remove_by_index_range : CdtMapOpType
  remove_by_value_interval remove_by_rank_range remove_by_key_rel_index_range : CdtMapOpType
  remove_by_value_rel_rank_range size get_by_key get_by_index get_by_rank : CdtMapOpType
  get_by_value get_by_key_interval get_by_index_range get_by_value_interval : CdtMapOpType
  get_by_rank_range get_by_key_list get_by_value_list get_by_key_rel_index_range : CdtMapOpType
  get_by_value_rel_rank_range : CdtMapOpType

unfoldable pub map_op_code : CdtMapOpType → ℕ
map_op_code set_type = 64
map_op_code add = 65
map_op_code add_items = 66
map_op_code put = 67
map_op_code put_items = 68
map_op_code replace = 69
map_op_code replace_items = 70
map_op_code increment = 73
map_op_code decrement = 74
map_op_code clear = 75
map_op_code remove_by_key = 76
map_op_code remove_by_index = 77
map_op_code remove_by_rank = 79
map_op_code remove_key_list = 81
map_op_code remove_by_value = 82
map_op_code remove_value_list = 83
map_op_code remove_by_key_interval = 84
map_op_code remove_by_index_range = 85
map_op_code remove_by_value_interval = 86
map_op_code remove_by_rank_range = 87
map_op_code remove_by_key_rel_index_range = 88
map_op_code remove_by_value_rel_rank_range = 89
map_op_code size = 96
map_op_code get_by_key = 97
map_op_code get_by_index = 98
map_op_code get_by_rank = 100
map_op_code get_by_value = 102
map_op_code get_by_key_interval = 103
map_op_code get_by_index_range = 104
map_op_code get_by_value_interval = 105
map_op_code get_by_rank_range = 106
map_op_code get_by_key_list = 107
map_op_code get_by_value_list = 108
map_op_code get_by_key_rel_index_range = 109
map_op_code get_by_value_rel_rank_range = 110

pub data MapOrder : Type 0 where
  unordered key_ordered key_value_ordered : MapOrder

unfoldable pub map_order_code : MapOrder → ℕ
map_order_code unordered = 0
map_order_code key_ordered = 1
map_order_code key_value_ordered = 3

pub data MapReturnType : Type 0 where
  none index reverse_index rank reverse_rank count key value key_value inverted : MapReturnType

unfoldable pub map_return_code : MapReturnType → ℕ
map_return_code none = 0
map_return_code index = 1
map_return_code reverse_index = 2
map_return_code rank = 3
map_return_code reverse_rank = 4
map_return_code count = 5
map_return_code key = 6
map_return_code value = 7
map_return_code key_value = 8
map_return_code inverted = 65536

pub data MapWriteMode : Type 0 where
  update update_only create_only : MapWriteMode

pub record MapPolicy : Type 0 where
  pub order : MapOrder
  pub write_mode : MapWriteMode

-- The arms of `map_write_op` by the mode.
unfoldable pub write_op : MapWriteMode → Bool → CdtMapOpType
write_op MapWriteMode.update multi = if multi then CdtMapOpType.put_items else CdtMapOpType.put
write_op MapWriteMode.update_only multi =
    if multi then CdtMapOpType.replace_items else CdtMapOpType.replace
write_op MapWriteMode.create_only multi = if multi then CdtMapOpType.add_items else CdtMapOpType.add

unfoldable pub map_write_op : MapPolicy → Bool → CdtMapOpType
map_write_op policy multi = write_op policy.write_mode multi

unfoldable pub order_arg : MapWriteMode → MapOrder → Option CdtArgument
order_arg MapWriteMode.update_only order = Option.none
order_arg _ order = Option.some (CdtArgument.byte (map_order_code order))

unfoldable pub map_order_arg : MapPolicy → Option CdtArgument
map_order_arg policy = order_arg policy.write_mode policy.order

unfoldable pub map_order_flag : MapOrder → ℕ
map_order_flag MapOrder.key_ordered = 0x80
map_order_flag MapOrder.unordered = 0x40
map_order_flag MapOrder.key_value_ordered = 0xc0
