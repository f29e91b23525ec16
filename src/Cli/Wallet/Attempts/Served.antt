-- ===== src/Cli/Wallet/Attempts/Served.antt =====
-- An attempt of the wallet that goes well.
use mile_csa_jsonrpc_client.Base.{ℕ, ◌+◌, ◌≡◌, refl, Bool, true, List, [], ◌∷◌, String, Text}
use mile_csa_jsonrpc_client.Effects.{returned, fail}
use mile_csa_jsonrpc_client.Url.Parse.{Url}
use mile_csa_jsonrpc_client.Session.{IoEvent}
use mile_csa_jsonrpc_client.Session.Prompt.{Arrives}
use mile_csa_jsonrpc_client.Rpc.Env.{JsonLibrary, MileLibrary}
use mile_csa_jsonrpc_client.Rpc.World.{World}
use mile_csa_jsonrpc_client.Rpc.Request.{command}
use mile_csa_jsonrpc_client.Rpc.Request.Answer.{IsAnswer}
use mile_csa_jsonrpc_client.Rpc.Call.{method_of}
use mile_csa_jsonrpc_client.Connection.Client.{new_client}
use mile_csa_jsonrpc_client.Connection.Answers.{Asks, IsTimely, call-answered}
use mile_csa_jsonrpc_client.Connection.Reached.{
  joined, IsReachable, connect_url-reached, joined-IsReady, joined-open, IsUnresolved,
  connect_url-unresolved,
}
use mile_csa_jsonrpc_client.Cli.Outside.{Outside, E, world}
use mile_csa_jsonrpc_client.Cli.Wallet.{unreachable, reached, value, shown_response}
use mile_csa_jsonrpc_client.Cli.Wallet.Attempts.{attempt, with_client, with_params, finished, show}

pub attempt-unresolved :
    (J : JsonLibrary) (L : MileLibrary J.Json J.Float) (rand : ℕ → ℕ) (emits : Bool)
    (method : String) (params : Text) (url : Text) (o : Outside)
    → IsUnresolved o.surroundings url
    → attempt J L rand emits method params url o ≡ unreachable (fail ∷ [])
unfolding attempt with_client
attempt-unresolved J L rand emits method params url o h =
    rw (connect_url-unresolved o.surroundings url o.events h) refl

module _ (J : JsonLibrary) (L : MileLibrary J.Json J.Float) (rand : ℕ → ℕ) where
  -- Within its deadlines, the node of the url is connected, takes the question, and answers it.
  pub record IsServed (o : Outside) (url : Text) (name : String) (r : J.Json) : Type 0 where
    pub address : Url
    pub deadline : ℕ
    pub connected_at : ℕ
    pub sent_at : ℕ
    pub answered_at : ℕ
    pub to_send : List IoEvent
    pub to_read : List IoEvent
    pub left : List IoEvent
    pub question : Text
    pub reachable : IsReachable o.surroundings url o.events address deadline connected_at to_send
    pub writes :
        Arrives
          (connected_at
            + (joined
                (new_client o.surroundings address true)
                deadline
                connected_at).session.seconds)
          to_send
          sent_at
          to_read
    pub reads :
        Arrives
          (sent_at
            + (joined
                (new_client o.surroundings address true)
                deadline
                connected_at).session.seconds)
          to_read
          answered_at
          left
    pub is_text : J.dump (command (E J L rand) name J.null o.next_id) ≡ returned question
    pub answers : IsAnswer J (o.replies 0) r

  -- The state before the call, and the result of the call.
  abbrev before :
      (o : Outside) (url : Text) (name : String) (r : J.Json)
      → IsServed o url name r
      → World (E J L rand)
  before o url name r h =
      world J L rand o (joined (new_client o.surroundings h.address true) h.deadline h.connected_at)
        h.to_send

  served-IsTimely :
      (o : Outside) (url : Text) (name : String) (r : J.Json) (h : IsServed o url name r)
      → IsTimely (before o url name r h).link h.sent_at h.answered_at h.left
  served-IsTimely o url name r h = record {
    between = h.to_read;
    ready = joined-IsReady o.surroundings url o.events h.address _ _ h.to_send h.reachable;
    is_open = joined-open o.surroundings h.address h.deadline h.connected_at;
    sent = h.writes;
    was_read = h.reads;
  }

  -- An attempt of the wallet whose method is asked without parameters, and which is served, has called no
  -- handler and prints the response.
  pub attempt-served :
      (emits : Bool) (method : String) (params : Text) (url : Text) (name : String) (o : Outside)
      (given r : J.Json) (text : Text)
      → Asks (method_of emits method) name
      → IsServed o url name r
      → J.parse params ≡ returned given
      → J.dump r ≡ returned text
      → attempt J L rand emits method params url o ≡ reached [] (value shown_response)
  unfolding attempt with_client with_params finished show
  attempt-served emits method params url name o given r text q h p d =
      rw
        (
          connect_url-reached o.surroundings url o.events h.address h.deadline h.connected_at
              h.to_send h.reachable,
          p,
          call-answered J L rand emits method name given (before o url name r h) h.question
              h.sent_at h.answered_at h.left r q h.is_text (served-IsTimely o url name r h)
              h.answers,
          d,
        )
        refl
