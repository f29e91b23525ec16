-- ===== src/Cli/Transfer/Attempts/Outcome.antt =====
-- What an attempt of a transfer may meet.
use mile_csa_jsonrpc_client.Base.{
  ℕ, ◌≤◌, ◌≡◌, ◌⊎◌, inl, inr, refl, ap, Bool, true, false, Option, none, some, List, [], ◌∷◌, ◌++◌,
  Text, length, arith,
}
use mile_csa_jsonrpc_client.Effects.{
  Code, Result, returned, threw, undefined, hung, Exception, Report,
}
use mile_csa_jsonrpc_client.Url.Parse.{IsBoost}
use mile_csa_jsonrpc_client.Rpc.Env.{JsonLibrary, MileLibrary}
use mile_csa_jsonrpc_client.Rpc.World.{World}
use mile_csa_jsonrpc_client.Connection.Client.{
  Connected, connected, not_connected, url_threw, escaped, crashed, stuck,
}
use mile_csa_jsonrpc_client.Connection.Client.Laws.{IsConnected, connect_url-IsConnected}
use mile_csa_jsonrpc_client.Cli.Outside.{Outside, codes_of, E, world}
use mile_csa_jsonrpc_client.Url.Parse.{parse}
use mile_csa_jsonrpc_client.Url.Parse as Parse
use mile_csa_jsonrpc_client.Connection.Client.{Client, connect_url}
use mile_csa_jsonrpc_client.Session.{IoEvent}
use mile_csa_jsonrpc_client.Rpc.Client.{ask}
use mile_csa_jsonrpc_client.Base.{false}
use mile_csa_jsonrpc_client.Connection.Defined.{IsJson}
use mile_csa_jsonrpc_client.Cli.Transfer.{
  Attempt, unreachable, no_block, no_request, no_body, body, stops, unprinted, cut, Stop, escapes,
  crashes, hangs,
}
use mile_csa_jsonrpc_client.Cli.Transfer.Attempts.Block.{
  IsUnreadable, IsAsked, get_current_block_id-IsAsked,
}
use mile_csa_jsonrpc_client.Cli.Transfer.Attempts.{
  Order, prepared, print_text, print_answer, send_body, with_request, with_pair, with_block,
  with_client, attempt,
}
use mile_csa_jsonrpc_client.Cli.Transfer.Attempts.Heard.{
  Heard, get_current_block_id-Heard, send_transaction-Heard,
}

module _ (J : JsonLibrary) (L : MileLibrary J.Json J.Float) (rand : ℕ → ℕ) where
  abbrev IsPrepared : Order J L rand → Option (Option J.Json) → List Code → Type 0
  IsPrepared order r codes =
      (pair : L.KeyPair) × (order.ppk ≡ some pair)
      × (id : L.BlockId) × (reports : List Report) × (prepared J L rand order pair id
          ≡ (r, reports))
      × (codes ≡ codes_of reports)

  -- The attempt is connected, the question for the block id gets an answer, and reading it throws.
  abbrev IsUnread : Outside → Text → Type 0
  IsUnread o url =
      (c : Client) × (reports : List Report) × (es : List IoEvent) × (connect_url o.surroundings
          true o.events url
        ≡ connected c reports es)
      × (j : J.Json) × ((ask (E J L rand) "get-current-block-id" J.null (world J L rand o c es)).0
          ≡ returned (some j))
      × (J.is_empty j ≡ false)
      × (x : Exception) × IsUnreadable J j x

  -- What leaves the attempt before the transaction's id is drawn: an exception of `Url::Parse`, before the
  -- handler is called, or that of an answer without a text for the block id.
  abbrev IsStopped : Outside → Text → Stop → List Code → Type 0
  IsStopped o url escapes codes =
      ((codes ≡ []) × (e : _) × (parse o.surroundings.boost url ≡ Parse.threw e)) ⊎ IsUnread o url
  IsStopped o url crashes codes = ⊥
  IsStopped o url hangs codes = Unit {0}

  -- What leaves it when the body is to be made or printed: there is no pair of keys, or the body is no
  -- text.
  abbrev IsUnprinted : Order J L rand → Stop → List Code → Type 0
  IsUnprinted order escapes codes =
      (b : J.Json) × (x : Exception) × (J.dump b ≡ threw x) × IsPrepared order (some (some b)) codes
  IsUnprinted order crashes codes = (order.ppk ≡ none) × (codes ≡ [])
  IsUnprinted order hangs codes = Unit {0}

  abbrev HasBody : Order J L rand → List Code → Type 0
  HasBody order codes = (b : J.Json) × IsPrepared order (some (some b)) codes

  -- The error handler is called once by an attempt that is not connected, at most once by one without a
  -- block id, and otherwise by the library, and at most once by the sending.
  abbrev pub IsAttempted : Order J L rand → Outside → Text → Attempt → Type 0
  IsAttempted order n url (unreachable codes) = (c : Code) × (codes ≡ c ∷ [])
  IsAttempted order n url (no_block codes) = length codes ≤ 1
  IsAttempted order n url (no_request codes) = IsPrepared order none codes
  IsAttempted order n url (no_body codes) = IsPrepared order (some none) codes
  IsAttempted order n url (body codes sending) = HasBody order codes × (length sending ≤ 1)
  IsAttempted order n url (stops k codes) = IsStopped n url k codes
  IsAttempted order n url (unprinted k codes) = IsUnprinted order k codes
  IsAttempted order n url (cut k codes sending) = HasBody order codes × (order.test ≡ false)

  module _ (json : IsJson J) (order : Order J L rand) (n : Outside) (url : Text) where
    print_answer-IsAttempted :
        (codes : List Code) (p : Result (Option J.Json) × World (E J L rand))
        → HasBody order codes
        → order.test ≡ false
        → Heard J L rand p
        → IsAttempted order n url (print_answer J L rand codes p)
    unfolding print_answer
    print_answer-IsAttempted codes (returned none, w) k f h = (k, h)
    print_answer-IsAttempted codes (returned (some j), w) k f h = printed (J.dump j)
      where
        printed : (r : Result Text) → IsAttempted order n url (print_text J L rand codes w r)
        printed (returned d) = (k, rw h (omega arith))
        printed (threw x) = (k, f)
        printed undefined = (k, f)
        printed hung = (k, f)
    print_answer-IsAttempted codes (threw x, w) k f h = (k, f)
    print_answer-IsAttempted codes (undefined, w) k f h = (k, f)
    print_answer-IsAttempted codes (hung, w) k f h = (k, f)

    send_body-IsAttempted :
        (test : Bool) (codes : List Code) (b : J.Json) (w : World (E J L rand)) (r : Result Text)
        → order.test ≡ test
        → J.dump b ≡ r
        → IsPrepared order (some (some b)) codes
        → IsAttempted order n url (send_body J L rand test codes b w r)
    unfolding send_body
    send_body-IsAttempted true codes b w (returned d) f e k = ((b, k), omega arith)
    send_body-IsAttempted false codes b w (returned d) f e k =
        print_answer-IsAttempted codes _ (b, k) f
          (send_transaction-Heard J L rand b (record w { log = [] }) refl)
    send_body-IsAttempted test codes b w (threw x) f e k = (b, x, e, k)
    send_body-IsAttempted test codes b w undefined f e k = absurd (json.dump_defined b e)
    send_body-IsAttempted test codes b w hung f e k = tt

    with_request-IsAttempted :
        (pair : L.KeyPair) (id : L.BlockId) (codes : List Code) (w : World (E J L rand))
        (p : Option (Option J.Json) × List Report)
        → order.ppk ≡ some pair
        → codes ≡ []
        → prepared J L rand order pair id ≡ p
        → IsAttempted order n url (with_request J L rand order codes w p)
    unfolding with_request
    with_request-IsAttempted pair id codes w (none, rs) o e q =
        (pair, o, id, rs, q, ap (λ cs. cs ++ codes_of rs) e)
    with_request-IsAttempted pair id codes w (some none, rs) o e q =
        (pair, o, id, rs, q, ap (λ cs. cs ++ codes_of rs) e)
    with_request-IsAttempted pair id codes w (some (some b), rs) o e q =
        send_body-IsAttempted order.test _ b w (J.dump b) refl refl
          (pair, o, id, rs, q, ap (λ cs. cs ++ codes_of rs) e)

    with_pair-IsAttempted :
        (o : Option L.KeyPair) (id : L.BlockId) (codes : List Code) (w : World (E J L rand))
        → order.ppk ≡ o
        → codes ≡ []
        → IsAttempted order n url (with_pair J L rand order codes w id o)
    with_pair-IsAttempted none id codes w e q = (e, q)
    with_pair-IsAttempted (some pair) id codes w e q =
        with_request-IsAttempted pair id codes w _ e q refl

    with_block-IsAttempted :
        (c : Client) (reports : List Report) (es : List IoEvent)
        (p : Result (Option L.BlockId) × World (E J L rand))
        → connect_url n.surroundings true n.events url ≡ connected c reports es
        → Heard J L rand p
        → IsAsked J json L rand
            (ask (E J L rand) "get-current-block-id" J.null (world J L rand n c es)).0
            p
        → IsAttempted order n url (with_block J L rand order p)
    unfolding with_block
    with_block-IsAttempted c rs es (returned none, w) q h a = h
    with_block-IsAttempted c rs es (returned (some id), w) q h a =
        with_pair-IsAttempted order.ppk id _ w refl h
    with_block-IsAttempted c rs es (threw x, w) q h (j, e, b, u) = inr (c, rs, es, q, j, e, b, x, u)
    with_block-IsAttempted c rs es (undefined, w) q h a = a
    with_block-IsAttempted c rs es (hung, w) q h a = tt

    with_client-IsAttempted :
        (c : Connected)
        → connect_url n.surroundings true n.events url ≡ c
        → IsConnected n.surroundings url c
        → IsAttempted order n url (with_client J L rand order n c)
    unfolding with_client
    with_client-IsAttempted (connected c reports es) q h =
        with_block-IsAttempted c reports es _ q
          (get_current_block_id-Heard J L rand (world J L rand n c es) refl)
          (get_current_block_id-IsAsked J json L rand (world J L rand n c es) h.0.session_IsReady)
    with_client-IsAttempted (not_connected reports) q h = (h.0.code, ap codes_of h.1)
    with_client-IsAttempted (url_threw e) q h = inl (refl, e, h)
    with_client-IsAttempted (escaped e) q h = absurd h
    with_client-IsAttempted crashed q h = h
    with_client-IsAttempted stuck q h = tt

  -- With a Boost and a json library that behave as documented, an attempt of a transfer calls the
  -- error handler once if it is not connected, at most once if it gets no block id, and otherwise
  -- as often as the library does for the request, and at most once more if it sends it and goes on.
  -- Before the request is made only an exception of `Url::Parse` of the url leaves it, or that of
  -- reading the block id in the answer that the connected node has given, and nothing is undefined;
  -- then its behaviour is undefined if there is no pair of keys, and the body is printed unless it
  -- cannot be written as text; and with the option `--test` the attempt does not stop in the
  -- sending.
  pub attempt-IsAttempted :
      IsJson J
      → (order : Order J L rand) (url : Text) (o : Outside) → IsBoost o.surroundings.boost
      → IsAttempted order o url (attempt J L rand order url o)
  unfolding attempt
  attempt-IsAttempted json order url o lawful =
      with_client-IsAttempted json order o url _ refl
        (connect_url-IsConnected o.surroundings true o.events url lawful)
