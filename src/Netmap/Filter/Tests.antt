-- ===== src/Netmap/Filter/Tests.antt =====
-- The theorems on netmap/filter.go at a policy of two filters, the second of which names the first.
use neofs_sdk_go.Prelude.{◌≡◌, refl, some, List, [], ◌∷◌, All}
use neofs_sdk_go.Prelude.Result.{ok}
use neofs_sdk_go.Netmap.Node.{NodeInfo, price, capacity, attribute, parse_uint}
use neofs_sdk_go.Netmap.Filter.{
  op_eq, op_ge, op_and, Filter, filter, no_more, also, name, lookup, Context, gate, check_name,
  check_simple, check_op, cache_number, process_filter, process_filters, match_fuel,
}
use neofs_sdk_go.Netmap.Filter.Resolve.{Sound}
use neofs_sdk_go.Netmap.Filter.Policy.{total, Distinct, new_context, process_filters_lem}
use neofs_sdk_go.Netmap.Filter.Meaning.{Decides, Meets, Readable, match_accepted}

abbrev large_filter : Filter
large_filter = filter "large" "Capacity" op_ge "100" no_more

abbrev in_finland : Filter
in_finland = filter "in_finland" "" op_and "" (
    also (filter "large" "" op_eq "" no_more)
      (also (filter "" "Country" op_eq "FI" no_more) no_more))

abbrev test_filters : List Filter
test_filters = large_filter ∷ in_finland ∷ []

abbrev test_node : NodeInfo
test_node = record { attributes = ("Country", "FI") ∷ ("Capacity", "120") ∷ [] }

abbrev test_context : Context
test_context = record {
  processed_filters = ("in_finland", in_finland) ∷ ("large", large_filter) ∷ [];
  num_cache = ("100", 100) ∷ [];
}

test_accepted : process_filters new_context test_filters ≡ ok test_context
unfolding gate check_name parse_uint cache_number check_op check_simple process_filter
    process_filters
test_accepted = refl

test_Distinct : Distinct test_filters
test_Distinct = (((λ e. cc e), tt), (tt, tt))

test_Readable : Readable test_node
unfolding price capacity attribute parse_uint
test_Readable = record { reads_price = (0, refl); reads_capacity = (120, refl) }

process_filters_lem_example :
    Sound test_context (total test_filters)
    × All (λ f. lookup (name f) test_context.processed_filters ≡ some f) test_filters
process_filters_lem_example =
    process_filters_lem test_filters {c = test_context} test_Distinct test_accepted

match_accepted_example :
    Decides
      (match_fuel (total test_filters) test_context in_finland test_node)
      (Meets (total test_filters) test_context in_finland test_node)
match_accepted_example =
    match_accepted test_filters in_finland test_node {c = test_context} test_Distinct test_accepted
      refl test_Readable
