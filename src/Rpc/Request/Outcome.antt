-- ===== src/Rpc/Request/Outcome.antt =====
-- What `RpcSession::request` returns and what it reports.
use mile_csa_jsonrpc_client.Base.{
  ◌≡◌, ◌⊎◌, inl, inr, refl, ap, Bool, true, false, Option, none, some, List,
}
use mile_csa_jsonrpc_client.Base.{[], ◌∷◌, Text, if◌then◌else◌, ◌==◌}
use mile_csa_jsonrpc_client.Effects.{
  fail, exception, Result, returned, threw, undefined, hung, Exception, continue_with,
}
use mile_csa_jsonrpc_client.Effects.{M, Report, is_std, handle}
use mile_csa_jsonrpc_client.Url.Parse.{c_str}
use mile_csa_jsonrpc_client.Rpc.Env.{Env, Reply, IsTransport, ReportsOnce, is_there}
use mile_csa_jsonrpc_client.Rpc.World.{World, Event, posted, reported, response_failed}
use mile_csa_jsonrpc_client.Rpc.Request.{
  request, exchange, request_failed, response_fail, pick_result,
}
use mile_csa_jsonrpc_client.Rpc.Request.{
  look_for_result, on_status, on_response, after_read, after_write,
}

module _ (E : Env) where
  abbrev pub IsFailure : Event E → Type 0
  IsFailure (posted j) = ⊥
  IsFailure (reported c m) = Unit {0}
  IsFailure (response_failed s m) = Unit {0}

  -- From the log `L`: nothing is added by a result or an exception, one failure by `nullopt`.
  abbrev pub Adds : List (Event E) → Result (Option E.Json) × World E → Type 0
  Adds L (returned (some j), w) = w.log ≡ L
  Adds L (returned none, w) = (e : Event E) × IsFailure e × (w.log ≡ e ∷ L)
  Adds L (threw x, w) = w.log ≡ L
  Adds L (undefined, w) = Unit {0}
  Adds L (hung, w) = Unit {0}

  lift-Adds :
      {A : Type 0} (r : Result A) (f : A → M (World E) (Option E.Json)) (w : World E)
      → ((a : A) → Adds w.log (f a w))
      → Adds w.log (continue_with f (r, w))
  lift-Adds (returned a) f w h = h a
  lift-Adds (threw x) f w h = refl
  lift-Adds undefined f w h = tt
  lift-Adds hung f w h = tt

  response_fail-Adds :
      (body : E.Json) (reply : Reply) (w : World E) → Adds w.log (response_fail E body reply w)
  unfolding response_fail
  response_fail-Adds body reply w =
      lift-Adds (E.index_const "method" body) _ w (λ m.
        lift-Adds (E.as_text m) _ w (λ method. (response_failed reply.status method, tt, refl)))

  pick_result-Adds :
      (b : Bool) (j body : E.Json) (reply : Reply) (w : World E)
      → Adds w.log (pick_result E b j body reply w)
  unfolding pick_result
  pick_result-Adds true j body reply w = response_fail-Adds body reply w
  pick_result-Adds false j body reply w = lift-Adds (E.index "result" j) _ w (λ r. refl)

  look_for_result-Adds :
      (b : Bool) (j body : E.Json) (reply : Reply) (w : World E)
      → Adds w.log (look_for_result E b j body reply w)
  unfolding look_for_result
  look_for_result-Adds false j body reply w = response_fail-Adds body reply w
  look_for_result-Adds true j body reply w =
      lift-Adds (E.at "result" j) _ w (λ r. pick_result-Adds (E.is_null r) j body reply w)

  on_status-Adds :
      (b : Bool) (body : E.Json) (reply : Reply) (w : World E)
      → Adds w.log (on_status E b body reply w)
  unfolding on_status
  on_status-Adds false body reply w = response_fail-Adds body reply w
  on_status-Adds true body reply w =
      lift-Adds (E.parse _) _ w (λ j. look_for_result-Adds (E.has "result" j) j body reply w)

  on_response-Adds :
      (body : E.Json) (reply : Reply) (w : World E) → Adds w.log (on_response E body reply w)
  unfolding on_response
  on_response-Adds body reply w = on_status-Adds (reply.status == 200) body reply w

  after_read-Adds :
      (body : E.Json) (o : Option Reply) (reports : List Report) (w : World E)
      → ReportsOnce (is_there o) reports
      → Adds w.log (after_read E body (o, reports) w)
  unfolding after_read
  after_read-Adds body none reports w (m, e) = rw e (reported _ m, tt, refl)
  after_read-Adds body (some reply) reports w e = rw e (on_response-Adds body reply w)

  module _ (lawful : IsTransport E.transport) where
    read-Adds :
        (body : E.Json) (w : World E) (p : Result (Option Reply × List Report) × E.Link)
        → E.read w.link ≡ p
        → Adds w.log (continue_with (after_read E body) (p.0, record w { link = p.1 }))
    read-Adds body w (returned (o, reports), l) e =
        after_read-Adds body o reports (record w { link = l })
          (lawful.read_reports w.link l o reports e)
    read-Adds body w (threw x, l) e = refl
    read-Adds body w (undefined, l) e = tt
    read-Adds body w (hung, l) e = tt

    after_write-Adds :
        (body : E.Json) (ok : Bool) (reports : List Report) (w : World E)
        → ReportsOnce ok reports
        → Adds w.log (after_write E body (ok, reports) w)
    unfolding after_write
    after_write-Adds body false reports w (m, e) = rw e (reported _ m, tt, refl)
    after_write-Adds body true reports w e = rw e (read-Adds body w (E.read w.link) refl)

    write-Adds :
        (body : E.Json) (w : World E) (p : Result (Bool × List Report) × E.Link) (d : Text)
        → E.write d w.link ≡ p
        → Adds w.log (continue_with (after_write E body) (p.0, record w { link = p.1 }))
    write-Adds body w (returned (ok, reports), l) d e =
        after_write-Adds body ok reports (record w { link = l })
          (lawful.write_reports d w.link l ok reports e)
    write-Adds body w (threw x, l) d e = refl
    write-Adds body w (undefined, l) d e = tt
    write-Adds body w (hung, l) d e = tt

    -- What a request adds to the log `L`: the request that it posts, and one failure if it returns
    -- `nullopt`; a request that cannot be written as text posts nothing.
    abbrev pub Outcome : E.Json → List (Event E) → Result (Option E.Json) × World E → Type 0
    Outcome body L (returned (some j), w) = w.log ≡ posted body ∷ L
    Outcome body L (returned none, w) =
        (e : Event E) × IsFailure e × ((w.log ≡ e ∷ (posted body ∷ L)) ⊎ (w.log ≡ e ∷ L))
    Outcome body L (threw x, w) = ⊥
    Outcome body L (undefined, w) = Unit {0}
    Outcome body L (hung, w) = Unit {0}

    abbrev caught : Exception → Event E
    caught x =
        reported (if is_std x then fail else exception)
          (if is_std x then "json-rpc request: %s: %s:%s" else "json-rpc request: unknown error")

    failed-Outcome :
        (body : E.Json) (L : List (Event E)) (x : Exception) (w : World E)
        → (w.log ≡ posted body ∷ L) ⊎ (w.log ≡ L)
        → Outcome body L (request_failed E x w)
    unfolding request_failed
    failed-Outcome body L x w (inl h) = (caught x, tt, inl (ap (◌∷◌ (caught x)) h))
    failed-Outcome body L x w (inr h) = (caught x, tt, inr (ap (◌∷◌ (caught x)) h))

    handle-Outcome :
        (body : E.Json) (L : List (Event E)) (p : Result (Option E.Json) × World E)
        → Adds (posted body ∷ L) p
        → Outcome body L (handle (request_failed E) p)
    handle-Outcome body L (returned (some j), w) h = h
    handle-Outcome body L (returned none, w) (e, f, h) = (e, f, inl h)
    handle-Outcome body L (threw x, w) h = failed-Outcome body L x w (inl h)
    handle-Outcome body L (undefined, w) h = tt
    handle-Outcome body L (hung, w) h = tt

    dump-Outcome :
        (body : E.Json) (w : World E) (d : Result Text)
        → E.dump body ≡ d
        → Outcome body w.log (handle (request_failed E) (exchange E body w))
    unfolding exchange
    dump-Outcome body w (returned d) e = rw e (
        handle-Outcome body w.log _
          (write-Adds body (record w { log = posted body ∷ w.log }) (E.write d w.link) d refl))
    dump-Outcome body w (threw x) e = rw e (failed-Outcome body w.log x w (inr refl))
    dump-Outcome body w undefined e = rw e tt
    dump-Outcome body w hung e = rw e tt

    -- With a connection that reports as `write` and `read` do, `request` lets no exception out. If
    -- it returns a result it has called no handler; if it returns `nullopt` it has called a handler
    -- once. It posts the request once, or not at all if the request cannot be written as text.
    pub request-Outcome : (body : E.Json) (w : World E) → Outcome body w.log (request E body w)
    unfolding request
    request-Outcome body w = dump-Outcome body w (E.dump body) refl

  -- If a request is written as text, handed to the connection without a report, and answered with
  -- status 200 and a body that the json parser refuses with an exception of the standard library,
  -- `FAIL` is reported and the result is `nullopt`.
  pub request-parse_error :
      (body : E.Json) (w : World E) (d : Text) (l l' : E.Link) (reply : Reply) (x : Exception)
      → E.dump body ≡ returned d
      → E.write d w.link ≡ (returned (true, []), l)
      → E.read l ≡ (returned (some reply, []), l')
      → reply.status ≡ 200
      → E.parse (c_str reply.body) ≡ threw x
      → is_std x ≡ true
      → request E body w ≡ (
        returned none,
        record w {
          link = l';
          log = reported fail "json-rpc request: %s: %s:%s" ∷ posted body ∷ w.log;
        },
      )
  unfolding request
  request-parse_error body w d l l' reply x hd hw hr hs hp hx = rw (hd, hw, hr, hs, hp, hx)
