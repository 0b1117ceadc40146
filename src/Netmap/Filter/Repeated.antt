-- ===== src/Netmap/Filter/Repeated.antt =====
-- Two top filters of one name (netmap/filter.go).
use neofs_sdk_go.Prelude.{String, [], ◌∷◌}
use neofs_sdk_go.Netmap.Filter.{op_eq, op_and, Filter, filter, no_more, also, Context}

-- `n: K EQ v`, and then `n: AND @n`.
abbrev pub plain_filter : String → String → String → Filter
plain_filter f_name key value = filter f_name key op_eq value no_more

abbrev pub again_filter : String → Filter
again_filter f_name = filter f_name "" op_and "" (also (filter f_name "" op_eq "" no_more) no_more)

again_context : String → String → String → Context
again_context f_name key value = record {
  processed_filters = (f_name, again_filter f_name) ∷ (f_name, plain_filter f_name key value) ∷ [];
  num_cache = [];
}
