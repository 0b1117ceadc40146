-- ===== src/Netmap/Text/Tests.antt =====
-- The theorems on the text of a policy (netmap/policy.go), at a policy with every kind of statement.
use neofs_sdk_go.Prelude.{◌≡◌, refl, true, false, [], ◌∷◌, ◌++◌}
use neofs_sdk_go.Prelude.Bytes.{Bytes, codes}
use neofs_sdk_go.Prelude.Result.{ok}
use neofs_sdk_go.Netmap.Filter.{
  Context, match_fuel, FilterOp, op_eq, op_ne, op_gt, op_ge, op_lt, op_le, op_or, op_and, op_other,
  Filter, filter, no_more,
}
use neofs_sdk_go.Netmap.Select.{distinct}
use neofs_sdk_go.Netmap.Container.{PlacementPolicy}
use neofs_sdk_go.Netmap.Text.{
  format_dec, clause_text, is_unspecified, Writer, Progress, write_filter, write_string_to,
}
use neofs_sdk_go.Netmap.Text.Lines.{joined, statements, write_string_to_lem}
use neofs_sdk_go.Netmap.Text.Ambiguous.{write_filter_ambiguous}
use neofs_sdk_go.Netmap.Node.{NodeInfo, attribute}
use neofs_sdk_go.Netmap.Filter.Nested.{either_of, both_of, match_leaf}

abbrev op_name : FilterOp → Bytes
op_name op_eq = codes "EQ"
op_name op_ne = codes "NE"
op_name op_gt = codes "GT"
op_name op_ge = codes "GE"
op_name op_lt = codes "LT"
op_name op_le = codes "LE"
op_name op_or = codes "OR"
op_name op_and = codes "AND"
op_name (op_other n) = codes "OPERATION_UNSPECIFIED"

abbrev a_writer : Writer
a_writer = record { accepts = λ o s. true; op_text = op_name }

abbrev in_eu : Filter
in_eu = filter "" "Continent" op_eq "EU" no_more

abbrev in_asia : Filter
in_asia = filter "" "Continent" op_eq "Asia" no_more

abbrev on_ssd : Filter
on_ssd = filter "" "Disk" op_eq "SSD" no_more

abbrev a_policy : PlacementPolicy
a_policy = record {
  backup = 2;
  filters = filter "Good" "Rating" op_gt "4" no_more ∷ [];
  selectors =
      record { name = "S"; count = 13; clause = distinct; attribute = "City"; filter = "Good" }
      ∷ [];
  replicas = record { selector = "S"; count = 3 } ∷ record { selector = ""; count = 10 } ∷ [];
}

a_policy_text :
    joined false (statements a_writer a_policy)
    ≡ codes
        "REP 3 IN S\nREP 10\nCBF 2\nSELECT 13 IN DISTINCT City FROM Good AS S\nFILTER Rating GT 4 AS Good"
unfolding format_dec clause_text is_unspecified
a_policy_text = refl

write_string_to_lem_example :
    ((t : Progress)
      → write_string_to a_writer a_policy [] ≡ ok t
      → t.out ≡ [] ++ joined false (statements a_writer a_policy))
    × (((o s : Bytes) → a_writer.accepts o s ≡ true)
        → (t : Progress) × (write_string_to a_writer a_policy [] ≡ ok t)
          × (t.out ≡ [] ++ joined false (statements a_writer a_policy)))
write_string_to_lem_example = write_string_to_lem a_writer a_policy []

abbrev hdd_in_eu : NodeInfo
hdd_in_eu = record { attributes = ("Continent", "EU") ∷ ("Disk", "HDD") ∷ [] }

abbrev no_context : Context
no_context = record { processed_filters = []; num_cache = [] }

eu_accepts : match_fuel 1 no_context in_eu hdd_in_eu ≡ ok true
unfolding attribute
eu_accepts = match_leaf 0 no_context "Continent" "EU" hdd_in_eu

ssd_refuses : match_fuel 2 no_context on_ssd hdd_in_eu ≡ ok false
unfolding attribute
ssd_refuses = match_leaf 1 no_context "Disk" "SSD" hdd_in_eu

write_filter_ambiguous_example :
    ((out : Bytes)
      → write_filter a_writer (both_of (either_of in_eu in_asia) on_ssd) out
        ≡ write_filter a_writer (either_of in_eu (both_of in_asia on_ssd)) out)
    × (match_fuel 3 no_context (both_of (either_of in_eu in_asia) on_ssd) hdd_in_eu ≡ ok false)
    × (match_fuel 2 no_context (either_of in_eu (both_of in_asia on_ssd)) hdd_in_eu ≡ ok true)
write_filter_ambiguous_example =
    write_filter_ambiguous a_writer in_eu in_asia on_ssd 1 no_context hdd_in_eu refl refl eu_accepts
      ssd_refuses
