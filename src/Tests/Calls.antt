-- ===== src/Tests/Calls.antt =====
-- Requests and calls in the environment of `Fixture`.
use mile_csa_jsonrpc_client.Base.{
  ◌+◌, ◌%◌, ◌^◌, ◌≡◌, ◌≢◌, refl, true, false, none, [], ◌∷◌, codes, arith,
}
use mile_csa_jsonrpc_client.Effects.{returned, parse_error, type_error, fail, exception}
use mile_csa_jsonrpc_client.Rpc.Env.{Reply}
use mile_csa_jsonrpc_client.Rpc.World.{reported, posted}
use mile_csa_jsonrpc_client.Rpc.Request.{request, next_command, command}
use mile_csa_jsonrpc_client.Rpc.Request.Ids.{after_ids, nth_id, next_command-ids}
use mile_csa_jsonrpc_client.Rpc.Request.Outcome.{Outcome, request-Outcome, request-parse_error}
use mile_csa_jsonrpc_client.Rpc.Client.{ask, get_current_block_id}
use mile_csa_jsonrpc_client.Rpc.Transaction.{no_value, block_id, send_transfer}
use mile_csa_jsonrpc_client.Rpc.Call.{call, dispatch}
use mile_csa_jsonrpc_client.Url.Parse.{c_str}
use mile_csa_jsonrpc_client.Rpc.Ends.{posted_of}
use mile_csa_jsonrpc_client.Rpc.Call.{method_of}
use mile_csa_jsonrpc_client.Rpc.Call.Protocol.{IsTrace, call-IsTrace}
use mile_csa_jsonrpc_client.Rpc.Call.Typed.{allowed}
use mile_csa_jsonrpc_client.Rpc.Call.Typed.Dispatch.{call-allowed}
use mile_csa_jsonrpc_client.Rpc.Call.Rejected.{call-nullopt}
use mile_csa_jsonrpc_client.Rpc.Call.Calm.{Unchanged}
use mile_csa_jsonrpc_client.Rpc.Call.Branches.{call-get_block_of_number}
use mile_csa_jsonrpc_client.Tests.Fixture.{
  env, start, replies-IsTransport, Json, field, text_value, number_value,
}
use mile_csa_jsonrpc_client.Tests.Fixture.{end, null_value}

abbrev pub ok_reply : Reply
ok_reply = record { status = 200; body = codes "{}" }

abbrev empty_reply : Reply
empty_reply = record { status = 200; body = [] }

abbrev ping_command : Json
ping_command = command env "ping" null_value 0

next_command-ids_example :
    ((next_command env "ping" null_value (after_ids env 5 (start []))).0
      ≡ returned (command env "ping" null_value (nth_id env 5 (start []))))
    × (nth_id env 5 (start []) ≡ (0 + 5) % 2 ^ 64)
    × (nth_id env 2 (start []) ≢ nth_id env 5 (start []))
next_command-ids_example =
    next_command-ids env 2 5 (start []) "ping" null_value (omega arith) (omega arith) (omega arith)

request-Outcome_example :
    Outcome env replies-IsTransport ping_command []
      (request env ping_command (start (ok_reply ∷ [])))
request-Outcome_example =
    request-Outcome env replies-IsTransport ping_command (start (ok_reply ∷ []))

request-parse_error_example : request env ping_command (start (empty_reply ∷ [])) ≡ (
  returned none,
  record (start []) {
    log = reported fail "json-rpc request: %s: %s:%s" ∷ posted ping_command ∷ [];
  },
)
unfolding c_str
request-parse_error_example =
    request-parse_error env ping_command (start (empty_reply ∷ [])) (codes "j") (empty_reply ∷ [])
      [] empty_reply parse_error refl refl refl refl refl refl

call-nullopt_example :
    Unchanged (start (ok_reply ∷ [])) (call env true "send-transfer" end (start (ok_reply ∷ []))).1
unfolding call dispatch send_transfer
call-nullopt_example = call-nullopt env true "send-transfer" end (start (ok_reply ∷ [])) refl

call-get_block_of_number_example :
    call env false "get-block" (field "id" (number_value 1) end) (start []) ≡ (
      returned no_value,
      record (start []) { call_counter = 1; log = reported exception "Parser error: %s, %s" ∷ [] },
    )
call-get_block_of_number_example =
    call-get_block_of_number env false (field "id" (number_value 1) end) (number_value 1) type_error
      (start []) refl refl refl

-- A transfer, whose block id is asked for first.
abbrev transfer_params : Json
transfer_params = field "private-key" (text_value "key") (
    field "to" (text_value "other")
      (field "amount" (number_value 5) (field "asset-code" (number_value 1) end)))

call-IsTrace_example :
    IsTrace env (method_of false "send-transfer") (start (ok_reply ∷ ok_reply ∷ [])) (
      posted_of
        (call env false "send-transfer" transfer_params (start (ok_reply ∷ ok_reply ∷ []))).1.log)
call-IsTrace_example =
    call-IsTrace env false "send-transfer" transfer_params (start (ok_reply ∷ ok_reply ∷ []))

call-allowed_example :
    allowed {E = env} (method_of false "get-current-block-id") (block_id 0) ≡ true
unfolding call dispatch get_current_block_id ask next_command request c_str
call-allowed_example =
    call-allowed env false "get-current-block-id" null_value (start (ok_reply ∷ [])) (block_id 0)
      refl
