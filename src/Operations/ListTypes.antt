-- ===== src/Operations/ListTypes.antt =====
-- operations/lists.rs: the codes, the flags and the policy of operations on lists.
use aerospike_client_rust.Base.{ℕ, Bool, if◌then◌else◌}

pub data CdtListOpType : Type 0 where
  set_type append append_items insert insert_items pop pop_range remove : CdtListOpType
  remove_range set trim clear increment sort size get get_range get_by_index : CdtListOpType
  get_by_rank get_by_value get_by_value_list get_by_index_range : CdtListOpType
  get_by_value_interval get_by_rank_range get_by_value_rel_rank_range : CdtListOpType
  remove_by_index remove_by_rank remove_by_value remove_by_value_list : CdtListOpType
  remove_by_index_range remove_by_value_interval remove_by_rank_range : CdtListOpType
  remove_by_value_rel_rank_range : CdtListOpType

unfoldable pub list_op_code : CdtListOpType → ℕ
list_op_code set_type = 0
list_op_code append = 1
list_op_code append_items = 2
list_op_code insert = 3
list_op_code insert_items = 4
list_op_code pop = 5
list_op_code pop_range = 6
list_op_code remove = 7
list_op_code remove_range = 8
list_op_code set = 9
list_op_code trim = 10
list_op_code clear = 11
list_op_code increment = 12
list_op_code sort = 13
list_op_code size = 16
list_op_code get = 17
list_op_code get_range = 18
list_op_code get_by_index = 19
list_op_code get_by_rank = 21
list_op_code get_by_value = 22
list_op_code get_by_value_list = 23
list_op_code get_by_index_range = 24
list_op_code get_by_value_interval = 25
list_op_code get_by_rank_range = 26
list_op_code get_by_value_rel_rank_range = 27
list_op_code remove_by_index = 32
list_op_code remove_by_rank = 34
list_op_code remove_by_value = 35
list_op_code remove_by_value_list = 36
list_op_code remove_by_index_range = 37
list_op_code remove_by_value_interval = 38
list_op_code remove_by_rank_range = 39
list_op_code remove_by_value_rel_rank_range = 40

pub data ListOrderType : Type 0 where
  unordered ordered : ListOrderType

unfoldable pub list_order_code : ListOrderType → ℕ
list_order_code unordered = 0
list_order_code ordered = 1

pub data ListReturnType : Type 0 where
  none index reverse_index rank reverse_rank count values inverted : ListReturnType

unfoldable pub list_return_code : ListReturnType → ℕ
list_return_code none = 0
list_return_code index = 1
list_return_code reverse_index = 2
list_return_code rank = 3
list_return_code reverse_rank = 4
list_return_code count = 5
list_return_code values = 7
list_return_code inverted = 65536

pub data ListSortFlags : Type 0 where
  default descending drop_duplicates : ListSortFlags

unfoldable pub list_sort_code : ListSortFlags → ℕ
list_sort_code default = 0
list_sort_code descending = 1
list_sort_code drop_duplicates = 2

pub data ListWriteFlags : Type 0 where
  default add_unique insert_bounded no_fail partial : ListWriteFlags

unfoldable pub list_write_code : ListWriteFlags → ℕ
list_write_code default = 0
list_write_code add_unique = 1
list_write_code insert_bounded = 2
list_write_code no_fail = 4
list_write_code partial = 8

pub record ListPolicy : Type 0 where
  pub attributes : ListOrderType
  pub flags : ListWriteFlags

unfoldable pub list_order_flag : ListOrderType → Bool → ℕ
list_order_flag ListOrderType.ordered pad = 0xc0
list_order_flag ListOrderType.unordered pad = if pad then 0x80 else 0x40
