-- ===== src/Rpc/Request.antt =====
-- `RpcSession::next_command` and `RpcSession::request`.
pub mod Outcome
pub mod Ids
pub mod Answer
use mile_csa_jsonrpc_client.Base.{ℕ, Bool, true, false, Option, none, some, List, [], ◌∷◌, String}
use mile_csa_jsonrpc_client.Base.{◌==◌, if◌then◌else◌}
use mile_csa_jsonrpc_client.Effects.{
  Code, fail, exception, Exception, Report, is_std, M, pure, lift, ◌>>=◌, ◌>>◌,
}
use mile_csa_jsonrpc_client.Effects.{try_catch, continue_with, handle}
use mile_csa_jsonrpc_client.Rpc.Env.{Env, Reply}
use mile_csa_jsonrpc_client.Rpc.World.{
  World, posted, response_failed, emit, error, errors, on_link, get_next,
}
use mile_csa_jsonrpc_client.Url.Parse.{c_str}

module _ (E : Env) where
  -- The fields of a command.
  abbrev pub command : String → E.Json → ℕ → E.Json
  command method params id = E.object (
      ("jsonrpc", E.text "2.0")
      ∷ ("method", E.text method)
      ∷ ("params", params)
      ∷ ("id", E.number id)
      ∷ ("version", E.float E.zero)
      ∷ [])

  unfoldable pub next_command : String → E.Json → M (World E) E.Json
  unfolding get_next
  next_command method params = do id ← get_next; pure (command method params id)

  -- `response_fail_handler(status, body["method"], res)`
  unfoldable pub response_fail : E.Json → Reply → M (World E) (Option E.Json)
  response_fail body reply = do
    m ← lift (E.index_const "method" body)
    method ← lift (E.as_text m)
    emit (response_failed reply.status method)
    pure none

  -- The response's `result`, if it is there and is not null.
  unfoldable pub pick_result : Bool → E.Json → E.Json → Reply → M (World E) (Option E.Json)
  pick_result true j body reply = response_fail body reply
  pick_result false j body reply = do r ← lift (E.index "result" j); pure (some r)

  unfoldable pub look_for_result : Bool → E.Json → E.Json → Reply → M (World E) (Option E.Json)
  unfolding pick_result
  look_for_result false j body reply = response_fail body reply
  look_for_result true j body reply = do
    r ← lift (E.at "result" j)
    pick_result (E.is_null r) j body reply

  -- The body of a response is handed to the parser as a C string.
  unfoldable pub on_status : Bool → E.Json → Reply → M (World E) (Option E.Json)
  unfolding look_for_result
  on_status false body reply = response_fail body reply
  on_status true body reply = do
    j ← lift (E.parse (c_str reply.body))
    look_for_result (E.has "result" j) j body reply

  unfoldable pub on_response : E.Json → Reply → M (World E) (Option E.Json)
  unfolding response_fail on_status
  on_response body reply = on_status (reply.status == 200) body reply

  unfoldable pub after_read : E.Json → Option Reply × List Report → M (World E) (Option E.Json)
  unfolding on_response
  after_read body (none, reports) = do errors reports; pure none
  after_read body (some reply, reports) = do errors reports; on_response body reply

  unfoldable pub after_write : E.Json → Bool × List Report → M (World E) (Option E.Json)
  unfolding after_read
  after_write body (false, reports) = do errors reports; pure none
  after_write body (true, reports) = do errors reports; r ← on_link E.read; after_read body r

  unfoldable pub exchange : E.Json → M (World E) (Option E.Json)
  unfolding after_write
  exchange body = do
    d ← lift (E.dump body)
    emit (posted body)
    r ← on_link (E.write d)
    after_write body r

  -- The handlers: `catch (std::exception const&)` comes first and takes the json library's exceptions
  -- too, so that only `catch (...)` is left for any other.
  unfoldable pub request_failed : Exception → M (World E) (Option E.Json)
  request_failed e = do
    error (if is_std e then fail else exception)
        (if is_std e then "json-rpc request: %s: %s:%s" else "json-rpc request: unknown error")
    pure none

  unfoldable pub request : E.Json → M (World E) (Option E.Json)
  unfolding exchange request_failed
  request body = try_catch (exchange body) request_failed
