-- ===== src/Slicer/Writer/Tests.antt =====
-- The theorems on object/slicer/slicer.go at small payloads, cut at four bytes.
use neofs_sdk_go.Prelude.{◌≡◌, refl, true, none, some, List, [], ◌∷◌, length, arith, ltb}
use neofs_sdk_go.Prelude.Result.{ok}
use neofs_sdk_go.Slicer.Object.{Env, Object, ReadResult, eof}
use neofs_sdk_go.Slicer.Writer.{
  Options, child_payload_size_limit, PayloadWriter, empty_header, stream_header, slice,
}
use neofs_sdk_go.Slicer.Writer.Total.{Accepting}
use neofs_sdk_go.Slicer.Writer.Outcome.{IsRoot, IsSplit, slice_small, slice_large}
use neofs_sdk_go.Slicer.Writer.Finishes.{slice_total}

-- IDs made of the size, the number of children and the checksum; a stream that takes everything.
abbrev test_env : Env
test_env = record {
  sha256 = λ b. 7 ∷ b;
  tillich_zemor = λ b. 8 ∷ b;
  calculate_id = λ h p. ok (h.payload_size ∷ length h.children ∷ []);
  sign = λ id. ok (9 ∷ id);
  split_id = 5 ∷ [];
  refuses = λ log o p. none;
  allocates = λ n. ltb n 1024;
}

test_env-Accepting : Accepting test_env
test_env-Accepting = record {
  calculates = λ h p. (_, refl);
  signs = λ id. (_, refl);
  takes = λ log o p. refl;
}

abbrev test_object : Object
test_object = record {
  id = none;
  signature = none;
  header = record empty_header { container = some (1 ∷ []); owner = some (2 ∷ []) };
  parent_object = none;
}

abbrev test_options : Options
test_options = record {
  object_payload_limit = 4;
  current_neofs_epoch = 13;
  with_homo_checksum = true;
  session_token = none;
}

abbrev short_reads : List ReadResult
short_reads =
    record { bytes = 1 ∷ 2 ∷ []; error = none } ∷ record { bytes = []; error = some eof } ∷ []

abbrev long_reads : List ReadResult
long_reads =
    record { bytes = 1 ∷ 2 ∷ 3 ∷ []; error = none }
    ∷ record { bytes = 4 ∷ 5 ∷ 6 ∷ 7 ∷ 8 ∷ 9 ∷ []; error = none }
    ∷ record { bytes = []; error = some eof }
    ∷ []

abbrev short_result :
    (w : PayloadWriter) × (slice test_env test_object test_options short_reads ≡ ok w)
unfolding child_payload_size_limit
short_result =
    slice_total test_env test_env-Accepting test_object test_options short_reads (1 ∷ []) (2 ∷ [])
      (omega arith) refl refl refl tt

abbrev long_result :
    (w : PayloadWriter) × (slice test_env test_object test_options long_reads ≡ ok w)
unfolding child_payload_size_limit
long_result =
    slice_total test_env test_env-Accepting test_object test_options long_reads (1 ∷ []) (2 ∷ [])
      (omega arith) refl refl refl tt

slice_total_example :
    (w : PayloadWriter) × (slice test_env test_object test_options long_reads ≡ ok w)
unfolding child_payload_size_limit
slice_total_example =
    slice_total test_env test_env-Accepting test_object test_options long_reads (1 ∷ []) (2 ∷ [])
      (omega arith) refl refl refl tt

slice_small_example :
    (root : Object) × IsRoot test_env (stream_header test_object test_options) (1 ∷ 2 ∷ []) root
    × (short_result.0.root_id ≡ root.id)
    × (short_result.0.log ≡ record { object = root; payload = 1 ∷ 2 ∷ [] } ∷ [])
unfolding child_payload_size_limit
slice_small_example =
    slice_small test_env test_object test_options short_reads {w' = short_result.0} (omega arith)
      (omega arith) short_result.1

slice_large_example :
    IsSplit test_env
      (stream_header test_object test_options)
      4
      (1 ∷ 2 ∷ 3 ∷ 4 ∷ 5 ∷ 6 ∷ 7 ∷ 8 ∷ 9 ∷ [])
      long_result.0
unfolding child_payload_size_limit
slice_large_example =
    slice_large test_env test_object test_options long_reads {w' = long_result.0} (omega arith)
      (omega arith) long_result.1
