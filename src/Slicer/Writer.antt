-- ===== src/Slicer/Writer.antt =====
-- The payload stream of object/slicer/slicer.go.
pub mod Limit
pub mod Invariant
pub mod Step
pub mod Progress
pub mod Total
pub mod Close
pub mod Keeps
pub mod Chain
pub mod Whole
pub mod Outcome
pub mod Finishes
mod Tests
use neofs_sdk_go.Prelude.{
  ℕ, zero, suc, ◌+◌, ◌-◌, ◌%◌, ◌^◌, Bool, true, false, not, ◌&&◌, Option, none, some, List, [], ◌∷◌,
  ◌++◌, ltb, ◌==◌, if◌then◌else◌, length, take, drop, map,
}
use mathlib.Core.Option
use neofs_sdk_go.Prelude.Bytes.{Bytes}
use neofs_sdk_go.Prelude.Result.{Result, ok, err, ◌>>=◌}
use neofs_sdk_go.Version.{Version}
use neofs_sdk_go.Version
use neofs_sdk_go.Slicer.Object.{
  SessionToken, Header, Parent, Object, Delivery, Error, incomplete_container, incomplete_owner,
  out_of_fuel, read_failed, no_memory, ReadResult, eof, failed, Env,
}

abbrev pub u64_mod : ℕ
u64_mod = 2 ^ 64

abbrev pub sub_u64 : ℕ → ℕ → ℕ
sub_u64 a b = (a + u64_mod - b) % u64_mod

-- options.go
pub record Options : Type 0 where
  pub object_payload_limit : ℕ
  pub current_neofs_epoch : ℕ
  pub with_homo_checksum : Bool
  pub session_token : Option SessionToken

abbrev pub default_payload_size_limit : ℕ
default_payload_size_limit = 2 ^ 20

pub child_payload_size_limit : Options → ℕ
child_payload_size_limit opts =
    if ltb 0 opts.object_payload_limit
    then opts.object_payload_limit
    else default_payload_size_limit

-- `dynamicObjectMetadata`. A `hash.Hash` is the bytes written to it since its last `Reset`.
pub record Metadata : Type 0 where
  pub len : ℕ  -- uint64
  pub checksum : Bytes
  pub homomorphic : Option Bytes

pub new_metadata : Bool → Metadata
new_metadata with_homo = record {
  len = 0;
  checksum = [];
  homomorphic = if with_homo then some [] else none;
}

pub accumulate : Metadata → Bytes → Metadata
accumulate m chunk = record {
  len = (m.len + length chunk) % u64_mod;
  checksum = m.checksum ++ chunk;
  homomorphic = Option.map (λ h. h ++ chunk) m.homomorphic;
}

pub reset : Metadata → Metadata
reset m = record { len = 0; checksum = []; homomorphic = Option.map (λ _. []) m.homomorphic }

-- `PayloadWriter`. The base of `currentWriter` always has the buffer and the root's metadata;
-- `tee_child` says whether it has the child's too. `log` is what the stream has accepted.
pub record PayloadWriter : Type 0 where
  pub root_id : Option Bytes
  pub header_object : Object
  pub stub_object : Object
  pub is_header_write_step : Bool
  pub buf : Bytes
  pub root_meta : Metadata
  pub child_meta : Metadata
  pub tee_child : Bool
  pub limit : ℕ  -- uint64
  pub written : ℕ  -- uint64
  pub with_split : Bool
  pub split_id : Option Bytes
  pub written_children : List Bytes
  pub log : List Delivery

abbrev pub empty_header : Header
empty_header = record {
  version = none;
  container = none;
  owner = none;
  creation_epoch = 0;
  session_token = none;
  attributes = [];
  payload_checksum = none;
  homomorphic_hash = none;
  payload_size = 0;
  split_id = none;
  previous = none;
  parent = none;
  children = [];
}

-- `headerData`: the container and the owner, both required.
pub header_data : Object → Result Error (Bytes × Bytes)
header_data o = elim o.header.container [
  | none ↦ err incomplete_container
  | some c ↦ elim o.header.owner [ none ↦ err incomplete_owner | some u ↦ ok (c, u) ]
]

-- The owner becomes the issuer of the session, where there is one.
pub session_owner : Option SessionToken → Bytes → Bytes
session_owner none owner = owner
session_owner (some t) owner = t.issuer

pub with_session : Option SessionToken → Object → Object
with_session none o = o
with_session (some t) o = record o {
  header = record o.header { session_token = some t; owner = some t.issuer };
}

-- The header of the stream's objects, with the session, the epoch and the version.
pub stream_header : Object → Options → Object
stream_header header opts =
    let header1 = with_session opts.session_token header in
    record header1 {
      header = record header1.header {
        creation_epoch = opts.current_neofs_epoch;
        version = some Version.current;
      };
    }

pub stub : Options → Bytes → Bytes → Object
stub opts container owner = record {
  id = none;
  signature = none;
  header = record empty_header {
    version = some Version.current;
    container = some container;
    creation_epoch = opts.current_neofs_epoch;
    owner = some (session_owner opts.session_token owner);
    session_token = opts.session_token;
  };
  parent_object = none;
}

pub initial_writer : Object → Options → Bytes × Bytes → PayloadWriter
initial_writer header opts (container, owner) = record {
  root_id = none;
  header_object = stream_header header opts;
  stub_object = stub opts container owner;
  is_header_write_step = true;
  buf = [];
  root_meta = reset (new_metadata opts.with_homo_checksum);
  child_meta = new_metadata opts.with_homo_checksum;
  tee_child = false;
  limit = child_payload_size_limit opts;
  written = 0;
  with_split = false;
  split_id = none;
  written_children = [];
  log = [];
}

-- `make([]byte, n)`, and `Grow(int(n))` of an empty buffer: a panic where `n` is no int of 64 bits that is
-- not negative, or where the memory is not there.
pub allocate : Env → ℕ → Result Error (Unit {0})
allocate env n = if ltb n (2 ^ 63) && env.allocates n then ok tt else err no_memory

pub init_payload_stream : Env → Object → Options → Result Error PayloadWriter
unfolding allocate
init_payload_stream env header opts = do
  p ← header_data header
  _ ← allocate env (child_payload_size_limit opts)
  ok (initial_writer header opts p)

-- Writing to the base writer, which cannot fail.
pub tee : PayloadWriter → Bytes → PayloadWriter
tee w p = record w {
  buf = w.buf ++ p;
  root_meta = accumulate w.root_meta p;
  child_meta = if w.tee_child then accumulate w.child_meta p else w.child_meta;
}

-- `limitedWriter.Write`: the bytes taken, the flag of `errOverflow`, and the state.
pub limited_write : PayloadWriter → Bytes → PayloadWriter × ℕ × Bool
unfolding tee
limited_write w p =
    let room = sub_u64 w.limit w.written in
    let overflow = ltb room (length p) in
    let part = if overflow then take room p else p in
    let w' = tee w part in
    (record w' { written = (w.written + length part) % u64_mod }, length part, overflow)

module _ (env : Env) where
  -- `flushObjectMetadata`
  pub flush_object_metadata : Metadata → Object → Result Error Object
  flush_object_metadata meta o =
      let h = record o.header {
        payload_checksum = some (env.sha256 meta.checksum);
        homomorphic_hash = elim meta.homomorphic [
          | none ↦ o.header.homomorphic_hash
          | some b ↦ some (env.tillich_zemor b)
        ];
        payload_size = meta.len;
      } in
      do
        id ← env.calculate_id h o.parent_object
        sig ← env.sign id
        ok (record o { id = some id; signature = some sig; header = h })

  -- An object that has both its ID and its signature is sent as it is.
  pub seal_by : Option Bytes → Option Bytes → Metadata → Object → Result Error Object
  seal_by (some id) (some sig) meta o = ok o
  seal_by _ _ meta o = flush_object_metadata meta o

  pub seal : Metadata → Object → Result Error Object
  unfolding seal_by
  seal meta o = seal_by o.id o.signature meta o

  -- The stream takes the object, or one of its three stages fails.
  pub deliver : List Delivery → Object → Bytes → Result Error (List Delivery)
  deliver log o payload = elim (env.refuses log o payload) [
    | none ↦ ok (log ++ record { object = o; payload = payload } ∷ [])
    | some e ↦ err e
  ]

  -- `writeInMemObject`: the object as sent, and the log.
  pub write_in_mem_object :
      List Delivery → Object → Bytes → Metadata → Result Error (Object × List Delivery)
  write_in_mem_object log o payload meta = do
    sealed ← seal meta o
    log' ← deliver log sealed payload
    ok (sealed, log')

abbrev pub get_last : List Bytes → Option Bytes
get_last [] = none
get_last (x ∷ []) = some x
get_last (x ∷ y ∷ ys) = get_last (y ∷ ys)

abbrev pub id_or_zero : Option Bytes → Bytes
id_or_zero none = []
id_or_zero (some id) = id

-- `obj` of `_writeChild` before its parent is set: the stub with its split fields.
pub child_object : PayloadWriter → Object
child_object w = record w.stub_object {
  id = none;
  signature = none;
  parent_object = none;
  header = record w.stub_object.header {
    split_id = if w.with_split then w.split_id else none;
    previous = get_last w.written_children;
    parent = none;
  };
}

-- `SetParentID` and `SetParent` with the finished root.
pub with_parent : Object → Object → Object
with_parent root o = record o {
  header = record o.header { parent = root.id };
  parent_object = some (record { signature = root.signature; header = root.header });
}

module _ (env : Env) where
  -- The common end of `_writeChild`: the object itself, then its ID in the list of children.
  pub send_child : PayloadWriter → Object → Metadata → Result Error PayloadWriter
  send_child w o meta = do
    (sent, log') ← write_in_mem_object env w.log o w.buf meta
    ok (record w { written_children = w.written_children ++ id_or_zero sent.id ∷ []; log = log' })

  -- `_writeChild` with `last` false.
  pub write_intermediate_child : PayloadWriter → Metadata → Result Error PayloadWriter
  write_intermediate_child w meta =
      send_child w (if w.is_header_write_step then w.header_object else child_object w) meta

  -- The linking object: no payload, no previous, all the children.
  pub linking_object : Object → List Bytes → Object
  linking_object o ids = record o {
    id = none;
    signature = none;
    header = record o.header { previous = none; children = ids };
  }

  pub send_link : PayloadWriter → Object → Metadata → Result Error PayloadWriter
  send_link w o meta =
      if w.with_split
      then (do
        (sent, log') ←
            write_in_mem_object env w.log (linking_object o w.written_children) [] (reset meta)
        ok (record w { log = log' }))
      else ok w

  -- `_writeChild` with `last` true and `setID` for the handler.
  pub write_last_child : PayloadWriter → Metadata → Result Error PayloadWriter
  write_last_child w meta = do
    root ← flush_object_metadata env w.root_meta w.header_object
    let w1 = record w { root_id = root.id; header_object = root }
    let obj = if w.with_split then with_parent root (child_object w) else child_object w
    w2 ← send_child w1 (if w.is_header_write_step then root else obj) meta
    send_link w2 obj meta

  -- What `Write` does on overflow, before it goes on with the rest of the chunk.
  pub next_child : PayloadWriter → Result Error PayloadWriter
  next_child w = do
    w' ←
        (if w.with_split then write_intermediate_child w w.child_meta else do
          w1 ←
              write_intermediate_child
                (record w { split_id = some env.split_id; with_split = true }) w.root_meta
          ok (record w1 { tee_child = true }))
    ok (record w' {
      written = 0;
      buf = [];
      child_meta = reset w'.child_meta;
      is_header_write_step = false;
    })

  -- `PayloadWriter.Write`; the recursive calls take fuel.
  pub write_fuel : ℕ → PayloadWriter → Bytes → Result Error (ℕ × PayloadWriter)
  write_fuel zero w chunk = err out_of_fuel
  write_fuel (suc f) w chunk =
      let (w1, n, overflow) = limited_write w chunk in
      let rest = (do
        w2 ← next_child w1
        (n2, w3) ← write_fuel f w2 (drop n chunk)
        ok (n + n2, w3)) in
      if length chunk == 0 then ok (0, w) else if overflow then rest else ok (n, w1)

  pub write : PayloadWriter → Bytes → Result Error (ℕ × PayloadWriter)
  write w chunk = write_fuel (length chunk + 2) w chunk

  -- `PayloadWriter.Close`
  pub close : PayloadWriter → Result Error PayloadWriter
  close w = write_last_child w (if w.with_split then w.child_meta else w.root_meta)

  -- The loop of `slice` over what `Read` returns; a reader with nothing left returns `io.EOF`. Bytes
  -- that come together with an error are not looked at.
  pub read_loop : PayloadWriter → List ReadResult → Result Error PayloadWriter
  read_loop w [] = close w
  read_loop w (r ∷ rs) = elim r.error [
    | none ↦ write w r.bytes >>= (λ t. read_loop t.1 rs)
    | some e ↦ elim e [ eof ↦ close w | failed ↦ err read_failed ]
  ]

  pub slice : Object → Options → List ReadResult → Result Error PayloadWriter
  slice header opts reads = do
    _ ← allocate env (child_payload_size_limit opts)
    w ← init_payload_stream env header opts
    read_loop w reads
