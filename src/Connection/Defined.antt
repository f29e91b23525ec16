-- ===== src/Connection/Defined.antt =====
-- A query over a session has no undefined behaviour.
pub mod Steps
pub mod Calls
use text.Mathlib.Text.{◌==◌ as str_eq}
use mile_csa_jsonrpc_client.Base.{
  ℕ, ◌≡◌, ◌≢◌, refl, Bool, true, false, ◌||◌, List, [], ◌∷◌, String, Text,
}
use mile_csa_jsonrpc_client.Effects.{
  Result, returned, threw, undefined, hung, Exception, M, continue_with, handle,
}
use mile_csa_jsonrpc_client.Url.Parse.{c_str}
use mile_csa_jsonrpc_client.Session.{Ended, ended, thrown, null_pointer, hangs, write, read}
use mile_csa_jsonrpc_client.Session.Ready.{IsReady, Safe, exchange-Safe}
use mile_csa_jsonrpc_client.Session.Lifecycle.{IsFor}
use mile_csa_jsonrpc_client.Rpc.Env.{JsonLibrary, MileLibrary, Env, Reply}
use mile_csa_jsonrpc_client.Rpc.World.{World, posted, get_next, log_reports}
use mile_csa_jsonrpc_client.Rpc.Request.{
  request, exchange as post, request_failed, after_write, after_read,
}
use mile_csa_jsonrpc_client.Rpc.Request.{
  on_status, look_for_result, pick_result, response_fail, next_command,
}
use mile_csa_jsonrpc_client.Rpc.Client.{ask}
use mile_csa_jsonrpc_client.Rpc.Call.Link.{Called}
use mile_csa_jsonrpc_client.Connection.Transport.{Line, posting, write_result, read_result}
use mile_csa_jsonrpc_client.Connection.Calls.{session_env, Called-IsFor}

-- Is the key among the fields?
abbrev pub has_key {ℓ} : {A : Type ℓ} → String → List (String × A) → Bool
has_key k [] = false
has_key k ((l, v) ∷ fields) = str_eq k l || has_key k fields

-- What nlohmann::json documents: its operations return or throw, but for `j[key]` of a constant `j`
-- without the key; an object has the keys that it was made from.
pub record IsJson (J : JsonLibrary) : Type 0 where
  pub dump_defined : (j : J.Json) → J.dump j ≢ undefined
  pub parse_defined : (s : Text) → J.parse s ≢ undefined
  pub at_defined : (k : String) (j : J.Json) → J.at k j ≢ undefined
  pub index_defined : (k : String) (j : J.Json) → J.index k j ≢ undefined
  pub as_text_defined : (j : J.Json) → J.as_text j ≢ undefined
  pub as_int_defined : (j : J.Json) → J.as_int j ≢ undefined
  pub index_const_defined :
      (k : String) (j : J.Json) → J.has k j ≡ true → J.index_const k j ≢ undefined
  pub object_has :
      (k : String) (fields : List (String × J.Json)) → J.has k (J.object fields) ≡ has_key k fields

module _ {W : Type 0} where
  abbrev pub IsDefined : {A : Type 0} → Result A × W → Type 0
  IsDefined p = p.0 ≢ undefined

  pub lift-IsDefined :
      {A B : Type 0} (r : Result A) (f : A → M W B) (w : W)
      → r ≢ undefined
      → ((a : A) → IsDefined (f a w))
      → IsDefined (continue_with f (r, w))
  lift-IsDefined (returned a) f w n g = g a
  lift-IsDefined (threw x) f w n g = λ e. cc
  lift-IsDefined undefined f w n g = absurd (n refl)
  lift-IsDefined hung f w n g = λ e. cc

  pub handle-IsDefined :
      {A : Type 0} (p : Result A × W) (f : Exception → M W A)
      → IsDefined p
      → ((x : Exception) (w : W) → IsDefined (f x w))
      → IsDefined (handle f p)
  handle-IsDefined (returned a, w) f h g = h
  handle-IsDefined (threw x, w) f h g = g x w
  handle-IsDefined (undefined, w) f h g = h
  handle-IsDefined (hung, w) f h g = h

module _ (J : JsonLibrary) (json : IsJson J) (L : MileLibrary J.Json J.Float) (rand : ℕ → ℕ) where
  abbrev env : Env
  env = session_env J L rand

  module _ (body : J.Json) (named : J.has "method" body ≡ true) where
    response_fail-IsDefined :
        (reply : Reply) (w : World env) → IsDefined (response_fail env body reply w)
    unfolding response_fail
    response_fail-IsDefined reply w =
        lift-IsDefined (J.index_const "method" body) _ w (json.index_const_defined _ _ named)
          λ m. lift-IsDefined (J.as_text m) _ w (json.as_text_defined m) λ s e. cc

    pick_result-IsDefined :
        (b : Bool) (j : J.Json) (reply : Reply) (w : World env)
        → IsDefined (pick_result env b j body reply w)
    unfolding pick_result
    pick_result-IsDefined true j reply w = response_fail-IsDefined reply w
    pick_result-IsDefined false j reply w =
        lift-IsDefined (J.index "result" j) _ w (json.index_defined _ j) λ r e. cc

    look_for_result-IsDefined :
        (b : Bool) (j : J.Json) (reply : Reply) (w : World env)
        → IsDefined (look_for_result env b j body reply w)
    unfolding look_for_result
    look_for_result-IsDefined false j reply w = response_fail-IsDefined reply w
    look_for_result-IsDefined true j reply w =
        lift-IsDefined (J.at "result" j) _ w (json.at_defined _ j)
          λ r. pick_result-IsDefined (J.is_null r) j reply w

    on_status-IsDefined :
        (b : Bool) (reply : Reply) (w : World env) → IsDefined (on_status env b body reply w)
    unfolding on_status
    on_status-IsDefined false reply w = response_fail-IsDefined reply w
    on_status-IsDefined true reply w =
        lift-IsDefined (J.parse (c_str reply.body)) _ w (json.parse_defined _)
          λ j. look_for_result-IsDefined (J.has "result" j) j reply w

    -- A read on a ready session, and what follows it.
    was_read-IsDefined :
        (l : Line) (e : Ended Bool) (w : World env)
        → Safe e
        → IsDefined (
            let (r, l') = read_result l e in
            continue_with (after_read env body) (r, record w { link = l' }))
    unfolding read_result after_read
    was_read-IsDefined l (ended true rs s es) w h = on_status-IsDefined _ _ _
    was_read-IsDefined l (ended false rs s es) w h = λ e. cc
    was_read-IsDefined l (thrown x s es) w h = λ e. cc
    was_read-IsDefined l null_pointer w h = absurd h
    was_read-IsDefined l hangs w h = λ e. cc

    was_written-IsDefined :
        (l : Line) (e : Ended Bool) (w : World env)
        → Safe e
        → IsDefined (
            let (r, l') = write_result l e in
            continue_with (after_write env body) (r, record w { link = l' }))
    unfolding write_result after_write
    was_written-IsDefined l (ended true rs s es) w h =
        was_read-IsDefined (record l { session = s; events = es }) _
          (record w { link = record l { session = s; events = es }; log = log_reports rs w.log })
          (unfold read in exchange-Safe _ s es h)
    was_written-IsDefined l (ended false rs s es) w h = λ e. cc
    was_written-IsDefined l (thrown x s es) w h = λ e. cc
    was_written-IsDefined l null_pointer w h = absurd h
    was_written-IsDefined l hangs w h = λ e. cc

    request-IsDefined : (w : World env) → IsReady w.link.session → IsDefined (request env body w)
    unfolding request post request_failed
    request-IsDefined w h =
        handle-IsDefined _ _
          (lift-IsDefined (J.dump body) _ w (json.dump_defined body) λ d.
            was_written-IsDefined (posting d w.link) (write w.link.session w.link.events)
              (record w { log = posted body ∷ w.log })
              (unfold write in exchange-Safe _ w.link.session w.link.events h))
          (λ x w' e. cc)

  pub ask-IsDefined :
      (name : String) (params : J.Json) (w : World (session_env J L rand))
      → IsReady w.link.session
      → IsDefined (ask (session_env J L rand) name params w)
  unfolding ask next_command get_next
  ask-IsDefined name params w h = request-IsDefined _ (json.object_has "method" _) _ h

  -- With a json library as documented, and a client whose session is ready, no query over the
  -- session has undefined behaviour, whatever calls were made before and whatever events occur.
  pub Called-IsDefined :
      (p : Bool × Text × Text × Text) {w v : World (session_env J L rand)} (name : String)
      (params : J.Json)
      → IsFor p w.link.session
      → Called (session_env J L rand) w v
      → (ask (session_env J L rand) name params v).0 ≢ undefined
  Called-IsDefined p {w} {v} name params h c =
      ask-IsDefined name params v (Called-IsFor J L rand p h c).ready
