-- ===== src/Cli/Outside.antt =====
-- What the attempts of the two programs share: what surrounds them, and what the error handler hears.
use mile_csa_jsonrpc_client.Base.{ℕ, List, [], ◌∷◌, ◌++◌}
use mile_csa_jsonrpc_client.Effects.{Code, Report}
use mile_csa_jsonrpc_client.Session.{IoEvent}
use mile_csa_jsonrpc_client.Rpc.Env.{JsonLibrary, MileLibrary, Env, Reply}
use mile_csa_jsonrpc_client.Rpc.World.{World, Event, posted, reported, response_failed}
use mile_csa_jsonrpc_client.Connection.Client.{Client, Surroundings}
use mile_csa_jsonrpc_client.Connection.Calls.{session_env}

-- What surrounds an attempt: what `Connect` needs, the events and the responses to come, and the
-- counters that the calls share.
pub record Outside : Type 0 where
  pub surroundings : Surroundings
  pub events : List IoEvent
  pub replies : ℕ → Reply
  pub next_id : ℕ
  pub call_counter : ℕ
  pub trx_counter : ℕ

abbrev pub codes_of : List Report → List Code
codes_of [] = []
codes_of (r ∷ rs) = r.code ∷ codes_of rs

module _ (J : JsonLibrary) (L : MileLibrary J.Json J.Float) (rand : ℕ → ℕ) where
  abbrev pub E : Env
  E = session_env J L rand

  -- The calls of the error handler, from a log that has the newest event first.
  abbrev pub logged : List (Event E) → List Code
  logged [] = []
  logged (posted j ∷ log) = logged log
  logged (reported c m ∷ log) = logged log ++ (c ∷ [])
  logged (response_failed status m ∷ log) = logged log

  -- The world of a connected client, before the call.
  abbrev pub world : Outside → Client → List IoEvent → World E
  world o c es = record {
    link = record {
      session = c.session;
      events = es;
      replies = o.replies;
      received = 0;
      written = [];
    };
    next_id = o.next_id;
    call_counter = o.call_counter;
    trx_counter = o.trx_counter;
    log = [];
  }
