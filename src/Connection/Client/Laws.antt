-- ===== src/Connection/Client/Laws.antt =====
-- What `Connect` and `get` give.
use mile_csa_jsonrpc_client.Base.{
  ◌≡◌, ◌≢◌, ◌⊎◌, inl, inr, refl, ◌∙◌, Bool, true, false, Option, none, some, List,
}
use mile_csa_jsonrpc_client.Base.{[], ◌∷◌, Text, ◌==◌, if◌then◌else◌, arith}
use mile_csa_jsonrpc_client.Effects.{Report, report}
use mile_csa_jsonrpc_client.Url.Parse.{
  c_str, Url, copy, IsBoost, parse, Outcome, parsed, refused, threw,
}
use mile_csa_jsonrpc_client.Url.Parse.Invariant.{IsParsed, parse-IsParsed}
use mile_csa_jsonrpc_client.Session.{Session, IoEvent, write, read, is_https}
use mile_csa_jsonrpc_client.Session.{Ended, ended, thrown, null_pointer, hangs, check_socket}
use mile_csa_jsonrpc_client.Session.Ready.{
  IsReady, Safe, new_session-IsReady, connect-Safe, exchange-Safe,
}
use mile_csa_jsonrpc_client.Session.Connect.{
  Reporting, Returns, IsConnectCode, IsTimeout, connect-Reporting, exchange-Reporting,
}
use mile_csa_jsonrpc_client.Session.Identity.{new_session-peer, peer, Keeps, connect-Keeps}
use mile_csa_jsonrpc_client.Session.Message.{Message, get_message}
use mile_csa_jsonrpc_client.Rpc.Env.{Reply}
use mile_csa_jsonrpc_client.Connection.Client.{
  Client, Surroundings, Connected, connected, not_connected, url_threw,
}
use mile_csa_jsonrpc_client.Connection.Client.{
  escaped, crashed, stuck, new_client, of_connect, connect_client,
}
use mile_csa_jsonrpc_client.Connection.Client.{
  of_parse, connect_url, got, after_get_write, get_failed, get,
}

-- A client that `Connect` has made from the text `s`.
pub record IsClient (n : Surroundings) (s : Text) (c : Client) : Type 0 where
  pub url_IsParsed : IsParsed s c.url
  pub session_IsReady : IsReady c.session
  pub is_open : check_socket c.session ≡ true
  pub same_peer :
      peer c.session ≡ (is_https c.url.protocol, c.url.domain, n.to_string c.url.port, c.url.path)

-- What `Connect` may do: a client without a report, no client and one report, the exception of
-- `std::stoi`, or no return.
abbrev pub IsConnected : Surroundings → Text → Connected → Type 0
IsConnected n s (connected c reports es) = IsClient n s c × (reports ≡ [])
IsConnected n s (not_connected reports) = (r : Report) × (reports ≡ r ∷ [])
IsConnected n s (url_threw e) = parse n.boost s ≡ threw e
IsConnected n s (escaped e) = ⊥
IsConnected n s crashed = ⊥
IsConnected n s stuck = Unit {0}

of_connect-IsConnected :
    (n : Surroundings) (s : Text) (c : Client) (e : Ended Bool)
    → IsParsed s c.url
    → peer c.session ≡ (is_https c.url.protocol, c.url.domain, n.to_string c.url.port, c.url.path)
    → Safe e
    → Returns e × Reporting IsConnectCode e
    → Keeps c.session e
    → IsConnected n s (of_connect c e)
of_connect-IsConnected n s c (ended true reports t es) p q safe (ret, (q1, o)) k =
    (record { url_IsParsed = p; session_IsReady = safe; is_open = o; same_peer = k ∙ q }, q1)
of_connect-IsConnected n s c (ended false reports t es) p q safe (ret, (code, m, e, i)) k =
    (report code m, e)
of_connect-IsConnected n s c (thrown e t es) p q safe (ret, r) k = absurd ret
of_connect-IsConnected n s c null_pointer p q safe r k = absurd safe
of_connect-IsConnected n s c hangs p q safe r k = tt

copy-IsParsed : (s : Text) (u : Url) → IsParsed s u → IsParsed s (copy u)
unfolding copy
copy-IsParsed s u p = record {
  string_kept = p.string_kept;
  supported = p.supported;
  port_in_range = p.port_in_range;
  fragment_lost = refl;
  host_some = p.host_some;
  host_free = p.host_free;
  path_free = p.path_free;
  query_free = p.query_free;
  no_blank = p.no_blank;
}

new_client-peer :
    (n : Surroundings) (u : Url) (verify : Bool)
    → peer (new_client n u verify).session
      ≡ (is_https u.protocol, u.domain, n.to_string u.port, u.path)
unfolding new_client
new_client-peer n u verify =
    new_session-peer u.domain (n.to_string u.port) u.path u.protocol verify n.timeout n.now

pub new_client-IsReady :
    (n : Surroundings) (u : Url) (verify : Bool) → IsReady (new_client n u verify).session
unfolding new_client
new_client-IsReady n u verify =
    new_session-IsReady u.domain (n.to_string u.port) u.path u.protocol verify n.timeout n.now

connect_client-IsConnected :
    (n : Surroundings) (s : Text) (c : Client) (es : List IoEvent)
    → IsParsed s c.url
    → IsReady c.session
    → peer c.session ≡ (is_https c.url.protocol, c.url.domain, n.to_string c.url.port, c.url.path)
    → IsConnected n s (connect_client n c es)
unfolding connect_client
connect_client-IsConnected n s c es p r q =
    let resolved = n.resolve c.session.host c.session.port in
    of_connect-IsConnected n s c _ p q (connect-Safe resolved n.sni c.session es r)
      (connect-Reporting resolved n.sni c.session es) (connect-Keeps resolved n.sni c.session es)

of_parse-IsConnected :
    (n : Surroundings) (verify : Bool) (es : List IoEvent) (s : Text) (o : Outcome)
    → IsBoost n.boost
    → parse n.boost s ≡ o
    → IsConnected n s (of_parse n verify es o)
unfolding new_client copy
of_parse-IsConnected n verify es s (parsed u) lawful e =
    connect_client-IsConnected n s (new_client n u verify) es
      (copy-IsParsed s u (parse-IsParsed n.boost lawful s e)) (new_client-IsReady n u verify)
      (new_client-peer n u verify)
of_parse-IsConnected n verify es s (refused c m) lawful e = (report c m, refl)
of_parse-IsConnected n verify es s (threw x) lawful e = e

-- With a Boost that behaves as documented, whatever the events, `Connect` gives a client only with
-- an open, ready session to the host, port and path of the url, which keeps no fragment and whose
-- query is not part of the target, and has reported nothing; with no client it has reported once.
-- Only an exception of `Url::Parse` leaves it, that of `std::stoi` or of `regex_match`, and no null
-- pointer is dereferenced.
pub connect_url-IsConnected :
    (n : Surroundings) (verify : Bool) (es : List IoEvent) (s : Text)
    → IsBoost n.boost
    → IsConnected n s (connect_url n verify es s)
unfolding connect_url
connect_url-IsConnected n verify es s lawful =
    of_parse-IsConnected n verify es s (parse n.boost s) lawful refl

-- How `get` ends: with a body, which is that of the response, it has reported nothing; without one it has reported once, or not at
-- all if the status is not 200. It lets no exception out and dereferences no null pointer, and the
-- session stays ready.
abbrev pub IsGot : Reply → Ended (Option Text) → Type 0
IsGot reply (ended (some body) reports s es) =
    (reports ≡ []) × (reply.status ≡ 200) × (body ≡ c_str reply.body) × IsReady s
IsGot reply (ended none reports s es) =
    (((r : Report) × (reports ≡ r ∷ [])) ⊎ ((reports ≡ []) × (reply.status ≢ 200))) × IsReady s
IsGot reply (thrown e s es) = ⊥
IsGot reply null_pointer = ⊥
IsGot reply hangs = Unit {0}

-- An exception is still allowed before the handlers.
abbrev Tried : Reply → Ended (Option Text) → Type 0
Tried reply (thrown e s es) = IsReady s
Tried reply (ended body reports s es) = IsGot reply (ended body reports s es)
Tried reply null_pointer = ⊥
Tried reply hangs = Unit {0}

body-Tried :
    (reply : Reply) (b : Bool) (body : Text) (reports : List Report) (s : Session)
    (es : List IoEvent)
    → reply.status == 200 ≡ b
    → body ≡ c_str reply.body
    → reports ≡ []
    → IsReady s
    → Tried reply (ended (if b then some body else none) reports s es)
body-Tried reply true body reports s es e p q r = (q, ground arith, p, r)
body-Tried reply false body reports s es e p q r = (inr (q, ground arith), r)

got-Tried :
    (reply : Reply) (e : Ended Bool) → Safe e → Reporting IsTimeout e → Tried reply (got reply e)
unfolding got
got-Tried reply (ended true reports s es) r (q, o) = body-Tried reply _ _ reports s es refl refl q r
got-Tried reply (ended false reports s es) r (c, m, q, p) = (inl (report c m, q), r)
got-Tried reply (thrown e s es) r h = r
got-Tried reply null_pointer r h = absurd r
got-Tried reply hangs r h = tt

after_get_write-Tried :
    (reply : Reply) (e : Ended Bool)
    → Safe e
    → Reporting IsTimeout e
    → Tried reply (after_get_write reply e)
unfolding read
after_get_write-Tried reply (ended true reports s es) r h =
    got-Tried reply _ (exchange-Safe _ s es r) (exchange-Reporting _ s es)
after_get_write-Tried reply (ended false reports s es) r (c, m, q, p) = (inl (report c m, q), r)
after_get_write-Tried reply (thrown e s es) r h = r
after_get_write-Tried reply null_pointer r h = absurd r
after_get_write-Tried reply hangs r h = tt

get_failed-IsGot :
    (reply : Reply) (e : Ended (Option Text)) → Tried reply e → IsGot reply (get_failed e)
unfolding get_failed
get_failed-IsGot reply (ended body reports s es) h = h
get_failed-IsGot reply (thrown e s es) r = (inl (_, refl), r)
get_failed-IsGot reply null_pointer h = h
get_failed-IsGot reply hangs h = h

-- On a ready session, whatever the events, if `get` returns a body, it is that of the answer to the
-- message that `get` makes, with the status 200, and nothing was reported; if it returns none it
-- has reported once, or not at all if the status is not 200. It lets no exception out, dereferences
-- no null pointer, and leaves the session ready.
pub get-IsGot :
    (answer : Message → Reply) (s : Session) (es : List IoEvent)
    → IsReady s
    → IsGot (answer (get_message s)) (get answer s es)
unfolding get write
get-IsGot answer s es r =
    get_failed-IsGot _ _
      (after_get_write-Tried _ _ (exchange-Safe _ s es r) (exchange-Reporting _ s es))
