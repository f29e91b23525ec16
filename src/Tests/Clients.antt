-- ===== src/Tests/Clients.antt =====
-- Clients that share a session.
use mile_csa_jsonrpc_client.Connection.Clients.{operate}
use mile_csa_jsonrpc_client.Connection.Clients.Lifetime.{assigned-shares, session_at}
use mile_csa_jsonrpc_client.Base.{
  ℕ, ◌<◌, ◌≡◌, refl, Bool, true, false, Option, none, some, List, [], ◌∷◌, codes,
}
use mile_csa_jsonrpc_client.Url.Parse.{Url, http, copy, assign}
use mile_csa_jsonrpc_client.Connection.Client.{new_client}
use mile_csa_jsonrpc_client.Session.{Session, new_session}
use mile_csa_jsonrpc_client.Connection.Clients.{
  Object, Objects, Operation, construct, assign_to, destroy_at,
}
use mile_csa_jsonrpc_client.Connection.Clients.{operate_all, no_clients}
use mile_csa_jsonrpc_client.Connection.Clients.Counts.{occurrences}
use mile_csa_jsonrpc_client.Connection.Clients.Lifetime.{client-lives}
use mile_csa_jsonrpc_client.Tests.Connections.{nearby}

abbrev node_url : Url
node_url = record {
  url_string = codes "http://a/v1";
  protocol = http;
  domain = codes "a";
  port = 80;
  path = codes "/v1";
  query = [];
  fragment = [];
}

abbrev before : ℕ → Session
before i = new_session [] [] [] http true 3 0

-- Two clients; the first is assigned the second's session, so that its own is destroyed, and the second
-- is destroyed.
abbrev sharing : List (Operation Bool)
sharing =
    construct node_url true false ∷ construct node_url true true ∷ assign_to 1 0 ∷ destroy_at 0 ∷ []

abbrev or_none : Option (Objects Bool) → Objects Bool
or_none none = no_clients before
or_none (some w) = w

abbrev left : Objects Bool
left = or_none (operate_all nearby sharing (no_clients before))

first_destroyed : left.heap.destroyed ≡ 0 ∷ []
unfolding operate_all
first_destroyed = refl

abbrev last_client : Object Bool
last_client = record { url = some node_url; verify_ssl = true; session = some 1; handlers = true }

client-lives_example :
    (i : ℕ) × (last_client.session ≡ some i)
    × (i < left.heap.next)
    × (occurrences i left.heap.destroyed ≡ 0)
unfolding operate_all assign new_client copy
client-lives_example = client-lives nearby sharing before left 0 last_client refl refl

abbrev two : List (Operation Bool)
two = construct node_url true false ∷ construct node_url true true ∷ []

abbrev together : Objects Bool
together =
    or_none (operate nearby (assign_to 1 0) (or_none (operate_all nearby two (no_clients before))))

assigned-shares_example :
    (i : ℕ) × (session_at (or_none (operate_all nearby two (no_clients before))).clients 0 ≡ some i)
    × (session_at together.clients 1 ≡ some i)
    × (session_at together.clients 0 ≡ some i)
    × (occurrences i together.heap.destroyed ≡ 0)
unfolding operate_all operate assign new_client copy
assigned-shares_example =
    assigned-shares nearby two before (or_none (operate_all nearby two (no_clients before)))
      together 1 0 refl refl
