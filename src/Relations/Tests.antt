-- ===== src/Relations/Tests.antt =====
-- The theorem on object/relations/relations.go at a payload of three bytes in two parts, of which the
-- network has lost the linking object's trace.
use neofs_sdk_go.Prelude.{
  ℕ, ◌≡◌, ◌⊎◌, refl, Bool, true, false, Option, none, some, [], ◌∷◌, arith, inl, inr, if◌then◌else◌,
}
use neofs_sdk_go.Prelude.Bytes.{Bytes, bytes_eq}
use neofs_sdk_go.Prelude.Result.{ok}
use neofs_sdk_go.Slicer.Object.{Env, Object, Delivery, Header}
use neofs_sdk_go.Slicer.Writer.{PayloadWriter, Metadata, empty_header}
use neofs_sdk_go.Slicer.Writer.Outcome.{IsSplit}
use neofs_sdk_go.Relations.{
  Executor, HeadReply, SplitInfo, split_info_error, no_header, header, get, contains,
}
use neofs_sdk_go.Relations.Sliced.{Network, kids_of, last_of, link_of, get-slice}

abbrev test_env : Env
test_env = record {
  sha256 = λ b. b;
  tillich_zemor = λ b. b;
  calculate_id = λ h p. ok (7 ∷ []);
  sign = λ b. ok b;
  split_id = 9 ∷ [];
  refuses = λ log o p. none;
  allocates = λ n. true;
}

abbrev test_object : ℕ → Header → Object
test_object n h = record { id = some (n ∷ []); signature = none; header = h; parent_object = none }

abbrev test_root : Object
test_root =
    test_object 5
      (record empty_header { payload_size = 3; payload_checksum = some (1 ∷ 2 ∷ 3 ∷ []) })

abbrev under_root : Object → Object
under_root o = record o {
  parent_object = some (record { signature = none; header = test_root.header });
}

abbrev split_header : Header
split_header = record empty_header { split_id = some (9 ∷ []); parent = some (5 ∷ []) }

abbrev first_part : Delivery
first_part = record { object = test_object 1 empty_header; payload = 1 ∷ 2 ∷ [] }

abbrev second_part : Object
second_part = under_root (test_object 2 (record split_header { previous = some (1 ∷ []) }))

abbrev test_link : Object
test_link = under_root (test_object 3 (record split_header { children = (1 ∷ []) ∷ (2 ∷ []) ∷ [] }))

abbrev test_meta : Metadata
test_meta = record { len = 0; checksum = []; homomorphic = none }

abbrev test_writer : PayloadWriter
test_writer = record {
  root_id = some (5 ∷ []);
  header_object = test_root;
  stub_object = test_object 0 empty_header;
  is_header_write_step = false;
  buf = [];
  root_meta = test_meta;
  child_meta = test_meta;
  tee_child = true;
  limit = 2;
  written = 1;
  with_split = true;
  split_id = some (9 ∷ []);
  written_children = (1 ∷ []) ∷ (2 ∷ []) ∷ [];
  log =
      first_part
      ∷ record { object = second_part; payload = 3 ∷ [] }
      ∷ record { object = test_link; payload = [] }
      ∷ [];
}

abbrev test_split : IsSplit test_env (test_object 0 empty_header) 2 (1 ∷ 2 ∷ 3 ∷ []) test_writer
test_split = record {
  root = test_root;
  children = first_part ∷ [];
  last = second_part;
  rest = 3 ∷ [];
  link = test_link;
  is_root = record {
    container = refl;
    owner = refl;
    attributes = refl;
    payload_size = refl;
    checksum = refl;
  };
  root_id = refl;
  log_of = refl;
  whole = refl;
  full = (refl, tt);
  rest_fits = omega arith;
  chain = (refl, refl, tt);
  last_end = record { parent = refl; parent_signature = refl; split_id = refl };
  link_end = record { parent = refl; parent_signature = refl; split_id = refl };
  is_link = record { children_of = refl; previous = refl; payload_size = refl };
}

abbrev test_info : SplitInfo
test_info = record { split_id = some (9 ∷ []); last_part = none; link = none }

abbrev test_head : Bool → Bytes → HeadReply
test_head raw id =
    if bytes_eq id (5 ∷ [])
    then split_info_error test_info
    else if bytes_eq id (1 ∷ [])
    then header first_part.object.header
    else if bytes_eq id (2 ∷ [])
    then header second_part.header
    else if bytes_eq id (3 ∷ [])
    then header test_link.header
    else no_header

abbrev test_network : Executor
test_network = record { head = test_head; search = λ id. ok ((2 ∷ []) ∷ []) }

test_net :
    Network test_network (5 ∷ []) (kids_of test_split) (last_of test_split) (link_of test_split)
unfolding contains
test_net = record {
  info = test_info;
  siblings = (2 ∷ []) ∷ [];
  serves_kids = ((refl, refl), ((refl, refl), tt));
  serves_last = (refl, refl);
  serves_link = (refl, refl);
  starts = refl;
  childless = refl;
  distinct = (refl, (refl, tt));
  head_of_root = refl;
  info_link = inl refl;
  found = refl;
  are_ends = (inl refl, tt);
  known = inr (inr (omega arith));
}

get-slice_example :
    (l : Option Bytes) × (get test_network 2 (5 ∷ []) ≡ some (ok ((1 ∷ []) ∷ (2 ∷ []) ∷ [], l)))
    × ((l ≡ none) ⊎ (l ≡ some (3 ∷ [])))
get-slice_example =
    get-slice test_env test_network (test_object 0 empty_header) 2 (1 ∷ 2 ∷ 3 ∷ []) test_writer
      test_split 2 test_net (omega arith)
