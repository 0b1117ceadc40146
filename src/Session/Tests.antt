-- ===== src/Session/Tests.antt =====
-- The theorems on session/object.go at a session bound to one container.
use neofs_sdk_go.Prelude.{ℕ, zero, suc, ◌≡◌, ◌↔◌, refl, true, false, none, some, [], ◌∷◌, arith}
use neofs_sdk_go.Prelude.Bytes.{Bytes}
use neofs_sdk_go.Prelude.Result.{ok}
use neofs_sdk_go.Session.{CommonData, Object, object_context, read_context, write_context}
use neofs_sdk_go.Session.Scope.{SaysScope, read_context-write_context}
use neofs_sdk_go.Session.Readable.{Readable, read_context_iff}

abbrev repeat : ℕ → ℕ → Bytes
repeat zero b = []
repeat (suc n) b = b ∷ repeat n b

abbrev an_id : Bytes
an_id = repeat 32 7

abbrev no_common_data : CommonData
no_common_data = record {
  id_set = false;
  id = repeat 16 0;
  issuer_set = false;
  issuer = repeat 25 0;
  lifetime_set = false;
  iat = 0;
  nbf = 0;
  exp = 0;
  auth_key = [];
  sig_set = false;
  sig = [];
}

abbrev zero_session : Object
zero_session = record {
  common_data = no_common_data;
  verb = 0;
  cnr_set = false;
  cnr = repeat 32 0;
  objs = none;
}

abbrev bound_session : Object
bound_session = record zero_session {
  common_data = record no_common_data { lifetime_set = true; iat = 2; nbf = 3; exp = 9 };
  verb = 255;
  cnr_set = true;
  cnr = repeat 32 9;
  objs = some (an_id ∷ []);
}

read_context-write_context_example :
    (r : Object) × (read_context zero_session (object_context (write_context bound_session)) false
      ≡ ok r)
    × SaysScope zero_session bound_session r
read_context-write_context_example =
    read_context-write_context zero_session bound_session (λ e. refl) (refl, tt) (ground arith)

read_context_iff_example :
    ((r : Object) × (read_context zero_session (object_context (write_context bound_session)) true
        ≡ ok r))
    ↔ Readable (object_context (write_context bound_session)) true
read_context_iff_example =
    read_context_iff zero_session (object_context (write_context bound_session)) true
