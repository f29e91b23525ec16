-- ===== src/Connection/Reached.antt =====
-- A url whose host is found and connected in time.
use mile_csa_jsonrpc_client.Base.{
  ℕ, ◌≡◌, refl, Bool, true, some, List, [], ◌∷◌, Text, if◌then◌else◌,
}
use mile_csa_jsonrpc_client.Effects.{Exception, is_std, fail, Report, report}
use mile_csa_jsonrpc_client.Url.Parse.{Url, parse, parsed}
use mile_csa_jsonrpc_client.Session.{
  Session, IoEvent, endpoints, unresolved, connect, connect_to, Ended, ended, transport,
}
use mile_csa_jsonrpc_client.Session.Ready.{IsReady, Safe, connect-Safe}
use mile_csa_jsonrpc_client.Session.Prompt.{timed}
use mile_csa_jsonrpc_client.Session.Prompt.Connect.{Joins, opened, opened-transport, connect-prompt}
use mile_csa_jsonrpc_client.Connection.Client.{
  Client, Surroundings, connected, not_connected, new_client, connect_client, connect_url,
}
use mile_csa_jsonrpc_client.Connection.Client.Laws.{new_client-IsReady}

-- The client of the url before the connection, and after it.
abbrev pub joined : Client → ℕ → ℕ → Client
joined c d v = record c { session = timed (opened c.session.use_ssl c.session) d v }

-- The url is well-formed and its host is found; and the events `es` connect its session in time.
pub record IsReachable (n : Surroundings) (url : Text) (es : List IoEvent) (u : Url) (d v : ℕ)
    (fs : List IoEvent) : Type 0 where
  pub is_parsed : parse n.boost url ≡ parsed u
  pub is_found :
      n.resolve (new_client n u true).session.host (new_client n u true).session.port
      ≡ endpoints true
  pub is_named : n.sni ≡ true
  pub joins : Joins (new_client n u true).session (new_client n u true).session.use_ssl es d v fs

-- The url is well-formed, and the name service throws.
pub record IsUnresolved (n : Surroundings) (url : Text) : Type 0 where
  pub address : Url
  pub failure : Exception
  pub is_parsed : parse n.boost url ≡ parsed address
  pub not_found :
      n.resolve (new_client n address true).session.host (new_client n address true).session.port
      ≡ unresolved failure

abbrev pub resolve_report : Exception → Report
resolve_report e = report fail (if is_std e then "%s: %s:%s" else "Unknown error: %s:%s")

connect_client-unresolved :
    (n : Surroundings) (c : Client) (e : Exception) (es : List IoEvent)
    → n.resolve c.session.host c.session.port ≡ unresolved e
    → connect_client n c es ≡ not_connected (resolve_report e ∷ [])
unfolding connect_client connect connect_to
connect_client-unresolved n c e es f = rw f refl

pub connect_url-unresolved :
    (n : Surroundings) (url : Text) (es : List IoEvent) (h : IsUnresolved n url)
    → connect_url n true es url ≡ not_connected (resolve_report h.failure ∷ [])
unfolding connect_url
connect_url-unresolved n url es h =
    rw h.is_parsed
      (connect_client-unresolved n (new_client n h.address true) h.failure es h.not_found)

connect_client-reached :
    (n : Surroundings) (c : Client) (d v : ℕ) (es fs : List IoEvent)
    → IsReady c.session
    → n.resolve c.session.host c.session.port ≡ endpoints true
    → n.sni ≡ true
    → Joins c.session c.session.use_ssl es d v fs
    → connect_client n c es ≡ connected (joined c d v) [] fs
unfolding connect_client
connect_client-reached n c d v es fs r f s j =
    rw (f, s, connect-prompt c.session.use_ssl c.session d v es fs r refl j) refl

pub connect_url-reached :
    (n : Surroundings) (url : Text) (es : List IoEvent) (u : Url) (d v : ℕ) (fs : List IoEvent)
    → IsReachable n url es u d v fs
    → connect_url n true es url ≡ connected (joined (new_client n u true) d v) [] fs
unfolding connect_url
connect_url-reached n url es u d v fs h = rw h.is_parsed (
    connect_client-reached n (new_client n u true) d v es fs (new_client-IsReady n u true)
      h.is_found h.is_named h.joins)

-- The client is then ready and open.
pub joined-IsReady :
    (n : Surroundings) (url : Text) (es : List IoEvent) (u : Url) (d v : ℕ) (fs : List IoEvent)
    → IsReachable n url es u d v fs
    → IsReady (joined (new_client n u true) d v).session
joined-IsReady n url es u d v fs h =
    let s = (new_client n u true).session in
    of_ended _ (connect-prompt s.use_ssl s d v es fs (new_client-IsReady n u true) refl h.joins)
      (connect-Safe (endpoints true) true s es (new_client-IsReady n u true))
  where
    of_ended : {t : Session} (e : Ended Bool) → e ≡ ended true [] t fs → Safe e → IsReady t
    of_ended {t} e q r = rw q at r

pub joined-open :
    (n : Surroundings) (u : Url) (d v : ℕ)
    → transport (joined (new_client n u true) d v).session ≡ some true
joined-open n u d v =
    opened-transport (new_client n u true).session.use_ssl (new_client n u true).session refl
