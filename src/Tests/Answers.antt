-- ===== src/Tests/Answers.antt =====
-- A call that the node answers, after the timer has run once in vain.
use mile_csa_jsonrpc_client.Rpc.Transaction.{block_id}
use mile_csa_jsonrpc_client.Connection.BlockId.{call-block_id-answered}
use mile_csa_jsonrpc_client.Base.{◌+◌, ◌≡◌, refl, true, false, some, List, [], ◌∷◌, codes, arith}
use mile_csa_jsonrpc_client.Effects.{returned}
use mile_csa_jsonrpc_client.Url.Parse.{http, c_str}
use mile_csa_jsonrpc_client.Session.{
  Session, IoEvent, timer, done, success, would_block, ended, exchange, new_session,
}
use mile_csa_jsonrpc_client.Session.Ready.{IsReady}
use mile_csa_jsonrpc_client.Session.Prompt.{arriving, idle, early, timed, exchange-prompt}
use mile_csa_jsonrpc_client.Rpc.World.{World}
use mile_csa_jsonrpc_client.Rpc.Request.{command}
use mile_csa_jsonrpc_client.Rpc.Request.Answer.{IsAnswer}
use mile_csa_jsonrpc_client.Rpc.Transaction.{response}
use mile_csa_jsonrpc_client.Rpc.Call.{call, method_of}
use mile_csa_jsonrpc_client.Connection.Calls.{session_env}
use mile_csa_jsonrpc_client.Connection.Transport.{Line}
use mile_csa_jsonrpc_client.Connection.Answers.{IsTimely, after, asks_nodes, call-answered}
use mile_csa_jsonrpc_client.Tests.Fixture.{
  Json, null_value, end, field, text_value, small_json, small_mile,
}
use mile_csa_jsonrpc_client.Tests.Calls.{ok_reply}

abbrev opened : Session
opened = record (new_session (codes "a") (codes "80") (codes "/v1") http true 3 10) {
  socket = some true;
}

opened-IsReady : IsReady opened
unfolding new_session
opened-IsReady = record { in_use = λ e. cc; not_in_use = refl; waiting = refl }

abbrev coming : List IoEvent
coming = timer 12 ∷ done 12 would_block ∷ done 12 success ∷ done 14 success ∷ []

exchange-prompt_example :
    exchange "write" opened coming
    ≡ ended true [] (timed opened (opened.clock + opened.seconds) 12) (done 14 success ∷ [])
unfolding new_session
exchange-prompt_example =
    exchange-prompt "write" opened 12 coming (done 14 success ∷ []) opened-IsReady refl
      (early (omega arith) (idle arriving))

abbrev line : Line
line = record {
  session = opened;
  events = coming;
  replies = λ n. ok_reply;
  received = 0;
  written = [];
}

abbrev before : World (session_env small_json small_mile (λ n. n))
before = record { link = line; next_id = 5; call_counter = 0; trx_counter = 0; log = [] }

abbrev pub result : Json
result = field "current-block-id" (text_value "x") end

line-IsTimely : IsTimely line 12 14 []
unfolding new_session
line-IsTimely = record {
  between = done 14 success ∷ [];
  ready = opened-IsReady;
  is_open = refl;
  sent = early (omega arith) (idle arriving);
  was_read = arriving;
}

pub ok_reply-IsAnswer : IsAnswer small_json ok_reply result
unfolding c_str
ok_reply-IsAnswer = record {
  json = field "result" result end;
  member = result;
  is_ok = refl;
  parsed = refl;
  has_result = refl;
  found = refl;
  not_null = refl;
  result = refl;
}

call-answered_example :
    call (session_env small_json small_mile (λ n. n)) false "get-nodes" null_value before ≡ (
      returned (response result),
      record (after small_json small_mile
          (λ n. n)
          before
          (command (session_env small_json small_mile (λ n. n)) "get-nodes" null_value 5)
          (b'j' ∷ [])
          12
          14
          []) { call_counter = 1 },
    )
unfolding method_of
call-answered_example =
    call-answered small_json small_mile (λ n. n) false "get-nodes" "get-nodes" null_value before
      (b'j' ∷ []) 12 14 [] result asks_nodes refl line-IsTimely ok_reply-IsAnswer

-- The text of the block id is no number.
call-block_id-answered_example :
    call (session_env small_json small_mile (λ n. n)) false "get-current-block-id" null_value before
    ≡ (
      returned (block_id 0),
      record (after small_json small_mile
          (λ n. n)
          before
          (command (session_env small_json small_mile (λ n. n)) "get-current-block-id" null_value 5)
          (b'j' ∷ [])
          12
          14
          []) { call_counter = 1 },
    )
unfolding method_of
call-block_id-answered_example =
    call-block_id-answered small_json small_mile (λ n. n) false "get-current-block-id" null_value
      before (b'j' ∷ []) 12 14 [] result "x" refl refl line-IsTimely ok_reply-IsAnswer
      (record { member = text_value "x"; is_some = refl; is_there = refl; is_text = refl })
