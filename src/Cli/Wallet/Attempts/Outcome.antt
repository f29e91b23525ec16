-- ===== src/Cli/Wallet/Attempts/Outcome.antt =====
-- What an attempt of the wallet may meet.
use mile_csa_jsonrpc_client.Base.{◌⊎◌, inl, inr, List}
use mile_csa_jsonrpc_client.Effects.{Report}
use mile_csa_jsonrpc_client.Session.{IoEvent}
use mile_csa_jsonrpc_client.Connection.Client.{Client, connect_url}
use mile_csa_jsonrpc_client.Base.{ℕ, ◌+◌, ◌≡◌, refl, ap, Bool, true, [], ◌∷◌, String, Text}
use mile_csa_jsonrpc_client.Effects.{
  Code, Result, returned, threw, undefined, hung, Exception, is_std, M, handle,
}
use mile_csa_jsonrpc_client.Url.Parse.{IsBoost, parse, Outcome}
use mile_csa_jsonrpc_client.Url.Parse as Parse
use mile_csa_jsonrpc_client.Rpc.Env.{JsonLibrary, MileLibrary}
use mile_csa_jsonrpc_client.Rpc.World.{World}
use mile_csa_jsonrpc_client.Rpc.Transaction.{Any, no_value, time, block_id, response, nullopt}
use mile_csa_jsonrpc_client.Rpc.Call.{Method, call, call_failed, method_of, dispatch}
use mile_csa_jsonrpc_client.Rpc.Call.Typed.{
  allowed, Allows, answers, requires, is_ping, is_block_id,
}
use mile_csa_jsonrpc_client.Rpc.Call.Typed.Dispatch.{called-Typed}
use mile_csa_jsonrpc_client.Connection.Client.{
  Connected, connected, not_connected, url_threw, escaped, crashed, stuck,
}
use mile_csa_jsonrpc_client.Connection.Client.Laws.{IsConnected, connect_url-IsConnected}
use mile_csa_jsonrpc_client.Session.Ready.{IsReady}
use mile_csa_jsonrpc_client.Connection.Defined.{IsJson}
use mile_csa_jsonrpc_client.Connection.Defined.Calls.{unchecked, undefined-unchecked}
use mile_csa_jsonrpc_client.Cli.Wallet.{
  Attempt, Called, unreachable, reached, escapes, crashes, hangs, raises, value, Shown, shown_time,
  shown_block_id, shown_response, shown_nothing,
}
use mile_csa_jsonrpc_client.Cli.Outside.{Outside, codes_of, E, world}
use mile_csa_jsonrpc_client.Cli.Wallet as Wallet
use mile_csa_jsonrpc_client.Cli.Wallet.Attempts.{
  show, show_response, finished, with_params, with_client, attempt,
}

-- What is printed of a value that the method may return.
abbrev pub shows : Method → Shown → Bool
shows m shown_time = is_ping m
shows m shown_block_id = is_block_id m
shows m shown_response = answers m
shows m shown_nothing = requires m

-- The json value that the text of the parameters is read as: null, if the library throws at it.
abbrev pub IsRead : (J : JsonLibrary) → Text → J.Json → Type 0
IsRead J text params =
    (J.parse text ≡ returned params)
    ⊎ ((x : Exception) × (J.parse text ≡ threw x) × (params ≡ J.null))

module _ (J : JsonLibrary) (L : MileLibrary J.Json J.Float) (rand : ℕ → ℕ) (emits : Bool)
    (method : String) (text url : Text) (o : Outside) where
  -- The attempt is connected, its call gives a response, and writing that as text throws.
  abbrev pub IsRaised : Type 0
  IsRaised =
      (c : Client) × (reports : List Report) × (es : List IoEvent) × (connect_url o.surroundings
          true o.events url
        ≡ connected c reports es)
      × (params : J.Json) × IsRead J text params
      × (j : J.Json) × ((call (E J L rand) emits method params (world J L rand o c es)).0
          ≡ returned (response j))
      × (x : Exception) × (J.dump j ≡ threw x)

  -- A value is one that the method may return, and an exception comes of a response that is no text.
  abbrev pub Fits : Called → Type 0
  Fits Wallet.no_value = Unit {0}
  Fits raises = IsRaised
  Fits (value v) = shows (method_of emits method) v ≡ true

  -- An attempt that is not connected has called the error handler once. Only an exception of
  -- `Url::Parse` leaves an attempt, before the handler is called, and only an unchecked method has
  -- undefined behaviour.
  abbrev pub IsTried : Attempt → Type 0
  IsTried (unreachable codes) = (c : Code) × (codes ≡ c ∷ [])
  IsTried (reached codes c) = Fits c
  IsTried (escapes codes) =
      (codes ≡ []) × (e : _) × (parse o.surroundings.boost url ≡ Parse.threw e)
  IsTried (crashes codes) = unchecked (method_of emits method) ≡ true
  IsTried (hangs codes) = Unit {0}

abbrev Caught : {W A : Type 0} → Result A × W → Type 0
Caught (returned a, w) = Unit {0}
Caught (threw x, w) = ⊥
Caught (undefined, w) = Unit {0}
Caught (hung, w) = Unit {0}

handle-Caught :
    {W A : Type 0} (p : Result A × W) (f : Exception → M W A)
    → ((x : Exception) (w : W) → Caught (f x w))
    → Caught (handle f p)
handle-Caught (returned a, w) f g = tt
handle-Caught (threw x, w) f g = g x w
handle-Caught (undefined, w) f g = tt
handle-Caught (hung, w) f g = tt

module _ (J : JsonLibrary) (L : MileLibrary J.Json J.Float) (rand : ℕ → ℕ) where
  call-Caught :
      (emits : Bool) (method : String) (params : J.Json) (w : World (E J L rand))
      → Caught (call (E J L rand) emits method params w)
  unfolding call call_failed
  call-Caught emits method params w =
      handle-Caught
        (dispatch (E J L rand) (method_of emits method) params
          (record w { call_counter = w.call_counter + 1 }))
        _ λ x w1. tt

  module _ (json : IsJson J) (emits : Bool) (method : String)
      (parses : (s : Text) (x : Exception) → J.parse s ≡ threw x → is_std x ≡ true)
      (dumps : (j : J.Json) (x : Exception) → J.dump j ≡ threw x → is_std x ≡ true) where
    module _ (text url : Text) (o : Outside) where
      abbrev Tried : Attempt → Type 0
      Tried = IsTried J L rand emits method text url o

      -- If the result is a response that is no text, the exception is explained.
      abbrev Explains : Result (Any (E J L rand)) → Type 0
      Explains r =
          (j : J.Json)
          → r ≡ returned (response j)
          → (x : Exception) → J.dump j ≡ threw x
          → IsRaised J L rand emits method text url o

      show-IsTried :
          (w : World (E J L rand)) (a : Any (E J L rand))
          → allowed (method_of emits method) a ≡ true
          → Explains (returned a)
          → Tried (show J L rand w a)
      unfolding show allowed
      show-IsTried w no_value h raised = tt
      show-IsTried w (time t) h raised = h
      show-IsTried w (block_id id) h raised = h
      show-IsTried w nullopt h raised = h
      show-IsTried w (response j) h raised = go (J.dump j) refl
        where
          go : (r : Result Text) → J.dump j ≡ r → Tried (show_response J L rand w r)
          go (returned d) e = h
          go (threw x) e = rw (dumps j x e) (raised j refl x e)
          go undefined e = absurd (json.dump_defined j e)
          go hung e = tt

      finished-IsTried :
          (p : Result (Any (E J L rand)) × World (E J L rand))
          → Allows (method_of emits method) p.0
          → Caught p
          → (p.0 ≡ undefined → unchecked (method_of emits method) ≡ true)
          → Explains p.0
          → Tried (finished J L rand p)
      unfolding finished
      finished-IsTried (returned a, w) h k u raised = show-IsTried w a h raised
      finished-IsTried (threw x, w) h k u raised = absurd k
      finished-IsTried (undefined, w) h k u raised = u refl
      finished-IsTried (hung, w) h k u raised = tt

      module _ (c : Client) (reports : List Report) (es : List IoEvent)
          (q : connect_url o.surroundings true o.events url ≡ connected c reports es)
          (ready : IsReady c.session) where
        abbrev before : World (E J L rand)
        before = world J L rand o c es

        called-IsTried :
            (params : J.Json)
            → IsRead J text params
            → Tried (finished J L rand (call (E J L rand) emits method params before))
        called-IsTried params read =
            finished-IsTried _ (called-Typed (E J L rand) emits method params before).typed
              (call-Caught emits method params before)
              (undefined-unchecked J json L rand emits method params before ready)
              λ j e x d. (c, reports, es, q, params, read, j, e, x, d)

        with_params-IsTried :
            (r : Result J.Json)
            → J.parse text ≡ r
            → Tried (with_params J L rand emits method before r)
        unfolding with_params
        with_params-IsTried (returned params) e = called-IsTried params (inl e)
        with_params-IsTried (threw x) e =
            rw (parses text x e) (called-IsTried J.null (inr (x, e, refl)))
        with_params-IsTried undefined e = absurd (json.parse_defined text e)
        with_params-IsTried hung e = tt

      with_client-IsTried :
          (c : Connected)
          → connect_url o.surroundings true o.events url ≡ c
          → IsConnected o.surroundings url c
          → Tried (with_client J L rand emits method text o c)
      unfolding with_client
      with_client-IsTried (connected c reports es) q h =
          with_params-IsTried c reports es q h.0.session_IsReady (J.parse text) refl
      with_client-IsTried (not_connected reports) q h = (h.0.code, ap codes_of h.1)
      with_client-IsTried (url_threw e) q h = (refl, e, h)
      with_client-IsTried (escaped e) q h = absurd h
      with_client-IsTried crashed q h = absurd h
      with_client-IsTried stuck q h = tt

    pub attempt-IsTried :
        (text url : Text) (o : Outside)
        → IsBoost o.surroundings.boost
        → IsTried J L rand emits method text url o (attempt J L rand emits method text url o)
    unfolding attempt
    attempt-IsTried text url o lawful =
        with_client-IsTried text url o _ refl
          (connect_url-IsConnected o.surroundings true o.events url lawful)
