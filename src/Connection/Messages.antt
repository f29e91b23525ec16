-- ===== src/Connection/Messages.antt =====
-- The messages that the client writes to its session.
use mile_csa_jsonrpc_client.Base.{
  ℕ, ◌≡◌, refl, ap, Bool, true, false, some, List, [], ◌∷◌, Text, length, codes,
}
use mile_csa_jsonrpc_client.Effects.{Report}
use mile_csa_jsonrpc_client.Url.Parse.{IsBoost}
use mile_csa_jsonrpc_client.Session.{
  Session, IoEvent, Ended, ended, thrown, null_pointer, hangs, write, read, is_https,
}
use mile_csa_jsonrpc_client.Session.Ready.{exchange-Safe}
use mile_csa_jsonrpc_client.Session.Identity.{peer, exchange-Keeps}
use mile_csa_jsonrpc_client.Session.Lifecycle.{IsFor}
use mile_csa_jsonrpc_client.Session.Message.{Message, post, user_agent, post_message}
use mile_csa_jsonrpc_client.Rpc.Env.{JsonLibrary, MileLibrary}
use mile_csa_jsonrpc_client.Rpc.World.{World}
use mile_csa_jsonrpc_client.Rpc.Call.Link.{Called, IsKept, Called-link}
use mile_csa_jsonrpc_client.Connection.Transport.{Line, posting, write_result, read_result}
use mile_csa_jsonrpc_client.Connection.Client.{
  Client, Surroundings, Connected, connected, connect_url,
}
use mile_csa_jsonrpc_client.Connection.Client.Laws.{IsClient, IsConnected, connect_url-IsConnected}
use mile_csa_jsonrpc_client.Connection.Calls.{session_env, write_result-IsFor, read_result-IsFor}

-- A request of the client at the host and the path of its url. The host goes without the port.
pub record IsPost (host target : Text) (m : Message) : Type 0 where
  pub is_http11 : m.version ≡ 11
  pub is_post : m.verb ≡ post
  pub at_target : m.target ≡ target
  pub at_host : m.host ≡ host
  pub of_agent : m.user_agent ≡ user_agent
  pub of_type : m.content_type ≡ some (codes "application/json")
  pub whole : m.content_length ≡ some (length m.body)

abbrev pub Every : {A : Type 0} → (A → Type 0) → List A → Type 0
Every Q [] = Unit {0}
Every Q (x ∷ xs) = Q x × Every Q xs

post_message-IsPost :
    (s : Session) (d : Text) (b : Bool) (host port target : Text)
    → peer s ≡ (b, host, port, target)
    → IsPost host target (post_message s d)
unfolding post_message
post_message-IsPost s d b host port target e = record {
  is_http11 = refl;
  is_post = refl;
  at_target = ap (λ p. p.3) e;
  at_host = ap (λ p. p.1) e;
  of_agent = refl;
  of_type = refl;
  whole = refl;
}

write_result-written : (l : Line) (e : Ended Bool) → (write_result l e).1.written ≡ l.written
unfolding write_result
write_result-written l (ended ok rs s es) = refl
write_result-written l (thrown x s es) = refl
write_result-written l null_pointer = refl
write_result-written l hangs = refl

read_result-written : (l : Line) (e : Ended Bool) → (read_result l e).1.written ≡ l.written
unfolding read_result
read_result-written l (ended true rs s es) = refl
read_result-written l (ended false rs s es) = refl
read_result-written l (thrown x s es) = refl
read_result-written l null_pointer = refl
read_result-written l hangs = refl

module _ (J : JsonLibrary) (L : MileLibrary J.Json J.Float) (rand : ℕ → ℕ) (b : Bool)
    (host port target : Text) where
  -- The session is for the peer, and every message was one for it.
  abbrev IsFaithful : Line → Type 0
  IsFaithful l = IsFor (b, host, port, target) l.session × Every (IsPost host target) l.written

  kept-IsFaithful : IsKept (session_env J L rand) IsFaithful
  unfolding write read
  kept-IsFaithful = record {
    write_keeps = λ d l h. (
      write_result-IsFor (posting d l) _ (exchange-Safe _ l.session l.events h.0.ready)
          (exchange-Keeps _ l.session l.events) h.0,
      rw (write_result-written (posting d l) (write l.session l.events))
          (post_message-IsPost l.session d b host port target h.0.same_peer, h.1),
    );
    read_keeps = λ l h. (
      read_result-IsFor l _ (exchange-Safe _ l.session l.events h.0.ready)
          (exchange-Keeps _ l.session l.events) h.0,
      rw (read_result-written l (read l.session l.events)) (h.1),
    );
  }

  Called-IsFaithful :
      {w v : World (session_env J L rand)}
      → IsFaithful w.link
      → Called (session_env J L rand) w v
      → IsFaithful v.link
  Called-IsFaithful h c = Called-link (session_env J L rand) IsFaithful kept-IsFaithful c h

made-IsClient :
    (n : Surroundings) (url : Text) (c : Client) (reports : List Report) (fs : List IoEvent)
    (made : Connected)
    → made ≡ connected c reports fs
    → IsConnected n url made
    → IsClient n url c
made-IsClient n url c reports fs made e h = go (rw e at h)
  where
    go : IsConnected n url (connected c reports fs) → IsClient n url c
    go h = h.0

client-posts :
    (J : JsonLibrary) (L : MileLibrary J.Json J.Float) (rand : ℕ → ℕ) (n : Surroundings)
    (url : Text) (c : Client)
    → IsClient n url c
    → {w v : World (session_env J L rand)} → w.link.session ≡ c.session
    → w.link.written ≡ []
    → Called (session_env J L rand) w v
    → Every (IsPost c.url.domain c.url.path) v.link.written
client-posts J L rand n url c h {w} same fresh called =
    (Called-IsFaithful J L rand (is_https c.url.protocol) c.url.domain (n.to_string c.url.port)
      c.url.path
      (record { ready = rw same h.session_IsReady; same_peer = rw same h.same_peer }, rw fresh tt)
      called).1

-- With a Boost that behaves as documented: once `Connect` has made a client from a url, whatever
-- calls follow and whatever events occur, every message that is written to the session is an
-- HTTP/1.1 POST of json to the path of the url, with its host and without its port in the host
-- field, and with the length of its body.
pub connected-posts :
    (J : JsonLibrary) (L : MileLibrary J.Json J.Float) (rand : ℕ → ℕ) (n : Surroundings)
    (verify : Bool) (es fs : List IoEvent) (url : Text) (c : Client) (reports : List Report)
    → IsBoost n.boost
    → connect_url n verify es url ≡ connected c reports fs
    → {w v : World (session_env J L rand)} → w.link.session ≡ c.session
    → w.link.written ≡ []
    → Called (session_env J L rand) w v
    → Every (IsPost c.url.domain c.url.path) v.link.written
connected-posts J L rand n verify es fs url c reports lawful e {w} same fresh called =
    client-posts J L rand n url c
      (made-IsClient n url c reports fs _ e (connect_url-IsConnected n verify es url lawful)) same
      fresh called
