-- ===== src/Connection/Clients.antt =====
-- The objects of `rpc::Client` and `http::Client`: construction, copy, assignment and destruction, with
-- the sessions that they share through `std::shared_ptr`. The two classes differ in the handler of
-- failed responses, which `rpc::Client` copies along with the handler of errors.
pub mod Counts
pub mod Ownership
pub mod Lifetime
use mathlib.Core.Option
use mile_csa_jsonrpc_client.Base.{
  ℕ, ◌+◌, ◌-◌, ◌==◌, Bool, true, false, Option, none, some, List, [], ◌∷◌, if◌then◌else◌, get_elem?,
  set, erase_at,
}
use mile_csa_jsonrpc_client.Url.Parse.{Url, copy as copy_url, assign as assign_url}
use mile_csa_jsonrpc_client.Session.{Session, destroy}
use mile_csa_jsonrpc_client.Connection.Client.{Surroundings, new_client}

-- A client object. The pointer holds the number of a session, or nothing.
pub record Object (Handlers : Type 0) : Type 0 where
  pub url : Option Url
  pub verify_ssl : Bool
  pub session : Option ℕ
  pub handlers : Handlers

-- The sessions by their numbers, the use counts of their shared pointers, the number of the next
-- session, and the sessions that were destroyed, the newest first.
pub record Heap : Type 0 where
  pub sessions : ℕ → Session
  pub uses : ℕ → ℕ
  pub next : ℕ
  pub destroyed : List ℕ

abbrev pub is_at : ℕ → ℕ → ℕ
is_at j i = if j == i then 1 else 0

-- A shared pointer is copied.
unfoldable pub acquire : Option ℕ → Heap → Heap
acquire none h = h
acquire (some j) h = record h { uses = λ i. h.uses i + is_at j i }

-- A shared pointer is reset or destroyed: the last one destroys the session.
unfoldable pub release : Option ℕ → Heap → Heap
release none h = h
release (some j) h =
    if h.uses j == 1
    then record h {
      uses = λ i. h.uses i - is_at j i;
      sessions = λ i. if j == i then destroy (h.sessions i) else h.sessions i;
      destroyed = j ∷ h.destroyed;
    }
    else record h { uses = λ i. h.uses i - is_at j i }

-- A new session, held by one pointer.
unfoldable pub allocate : Session → Heap → Heap
allocate s h = record h {
  sessions = λ i. if h.next == i then s else h.sessions i;
  uses = λ i. h.uses i + is_at h.next i;
  next = h.next + 1;
}

-- The assignment of `std::optional<Url>`.
abbrev pub assign_optional : Option Url → Option Url → Option Url
assign_optional none o = Option.map copy_url o
assign_optional (some self) none = none
assign_optional (some self) (some u) = some (assign_url self u)

-- The client objects that there are, and the sessions.
pub record Objects (Handlers : Type 0) : Type 0 where
  pub clients : List (Object Handlers)
  pub heap : Heap

-- What a program does with clients, which are named by their places.
pub data Operation (Handlers : Type 0) : Type 0 where
  construct : Url → Bool → Handlers → Operation Handlers
  copy_of : ℕ → Operation Handlers
  assign_to : ℕ → ℕ → Operation Handlers
  destroy_at : ℕ → Operation Handlers

abbrev pub and_then : {A B : Type 0} → (A → Option B) → Option A → Option B
and_then f none = none
and_then f (some a) = f a

module _ {Handlers : Type 0} where
  -- The constructor from a url, and its `new RpcSession`.
  unfoldable pub constructed :
      Surroundings → Url → Bool → Handlers → Objects Handlers → Objects Handlers
  unfolding allocate
  constructed n u verify handlers w =
      let c = new_client n u verify in
      record {
        clients =
            record {
              url = some c.url;
              verify_ssl = verify;
              session = some w.heap.next;
              handlers = handlers;
            }
            ∷ w.clients;
        heap = allocate c.session w.heap;
      }

  -- The copy constructor. `std::move` of a member of a constant client makes a copy.
  unfoldable pub copied : Option (Object Handlers) → Objects Handlers → Option (Objects Handlers)
  unfolding acquire
  copied none w = none
  copied (some c) w = some (record {
    clients = record c { url = Option.map copy_url c.url } ∷ w.clients;
    heap = acquire c.session w.heap;
  })

  -- `operator=`: the new pointer is taken before the old one is given up.
  unfoldable pub assigned :
      ℕ
      → Option (Object Handlers)
      → Option (Object Handlers)
      → Objects Handlers
      → Option (Objects Handlers)
  unfolding acquire release
  assigned k (some self) (some c) w = some (record {
    clients = set w.clients k (record c { url = assign_optional self.url c.url });
    heap = release self.session (acquire c.session w.heap);
  })
  assigned k _ _ w = none

  -- The destructor.
  unfoldable pub destructed :
      ℕ → Option (Object Handlers) → Objects Handlers → Option (Objects Handlers)
  unfolding release
  destructed k none w = none
  destructed k (some c) w =
      some (record { clients = erase_at w.clients k; heap = release c.session w.heap })

  -- An operation on an object that there is not gives nothing.
  unfoldable pub operate :
      Surroundings → Operation Handlers → Objects Handlers → Option (Objects Handlers)
  unfolding constructed copied assigned destructed
  operate n (construct u verify handlers) w = some (constructed n u verify handlers w)
  operate n (copy_of k) w = copied (get_elem? w.clients k) w
  operate n (assign_to k j) w = assigned k (get_elem? w.clients k) (get_elem? w.clients j) w
  operate n (destroy_at k) w = destructed k (get_elem? w.clients k) w

  unfoldable pub operate_all :
      Surroundings → List (Operation Handlers) → Objects Handlers → Option (Objects Handlers)
  unfolding operate
  operate_all n [] w = some w
  operate_all n (o ∷ os) w = and_then (operate_all n os) (operate n o w)

  -- Before the first client.
  abbrev pub no_clients : (ℕ → Session) → Objects Handlers
  no_clients sessions = record {
    clients = [];
    heap = record { sessions = sessions; uses = λ i. 0; next = 0; destroyed = [] };
  }
