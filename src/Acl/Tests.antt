-- ===== src/Acl/Tests.antt =====
-- The theorems on container/acl at concrete words.
use neofs_sdk_go.Prelude.{◌≡◌, refl, true, arith}
use neofs_sdk_go.Prelude.Result.{ok}
use neofs_sdk_go.Acl.{
  op_object_put, op_object_get, role_others, allow_op, is_op_allowed, allow_bearer_rules,
  set_op_bit, set_op_bit_at, set_bit, m_order,
}
use neofs_sdk_go.Acl.Access.{is_op_allowed-allow_op}
use neofs_sdk_go.Acl.Text.{encode_to_string, decode_string, decode_string-encode_to_string}

-- Others may put: bit 9.
put_for_others : allow_op 0 op_object_put role_others ≡ ok 512
unfolding allow_op set_op_bit set_op_bit_at m_order set_bit
put_for_others = refl

is_op_allowed-allow_op_example : is_op_allowed 512 op_object_put role_others ≡ ok true
is_op_allowed-allow_op_example =
    is_op_allowed-allow_op 0 op_object_put role_others op_object_put role_others {y = 512}
      put_for_others

-- Bearer rules for get: bit 0.
bearer_for_get : allow_bearer_rules 0 op_object_get ≡ ok 1
unfolding allow_bearer_rules set_op_bit set_op_bit_at m_order set_bit
bearer_for_get = refl

decode_string-encode_to_string_example : decode_string (encode_to_string 0x1FBF8CFE) ≡ ok 0x1FBF8CFE
decode_string-encode_to_string_example = decode_string-encode_to_string 0x1FBF8CFE (omega arith)
