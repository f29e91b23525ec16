-- ===== src/Connection/Clients/Lifetime.antt =====
-- The life of a session, from the first client to the last.
use mile_csa_jsonrpc_client.Base.{◌∙◌}
use mile_csa_jsonrpc_client.Connection.Clients.Ownership.{IsSound, SoundIf-of, operate-IsSound}
use mile_csa_jsonrpc_client.Base.{
  ℕ, zero, suc, ◌+◌, ◌<◌, ◌≡◌, refl, Option, none, some, List, [], ◌∷◌, get_elem?, set, arith,
}
use mile_csa_jsonrpc_client.Session.{Session}
use mile_csa_jsonrpc_client.Connection.Client.{Surroundings}
use mile_csa_jsonrpc_client.Connection.Clients.{
  Object, Objects, Operation, assign_to, assign_optional, assigned, operate, operate_all,
  no_clients,
}
use mile_csa_jsonrpc_client.Connection.Clients.Counts.{holders, occurrences, alive, made}
use mile_csa_jsonrpc_client.Connection.Clients.Ownership.{
  operate_all-IsSound, AllHold-get, some_holder,
}

module _ {H : Type 0} where
  -- The session of a client has not been destroyed.
  IsSound-lives :
      (w : Objects H) (k : ℕ) (c : Object H)
      → IsSound w
      → get_elem? w.clients k ≡ some c
      → (i : ℕ) × (c.session ≡ some i) × (i < w.heap.next) × (occurrences i w.heap.destroyed ≡ 0)
  IsSound-lives w k c s there =
      let (i, q) = AllHold-get w.clients k c there s.all_hold in
      let l : 0 < holders w.clients i = some_holder w.clients k i c there q in
      let o : occurrences i w.heap.destroyed + alive (holders w.clients i) ≡ made w.heap.next i =
        rw (← s.owned.counted i) (s.owned.once i) in
      (i, q, ground arith, ground arith)

  -- Whatever clients are constructed, copied, assigned and destroyed, every client that there is
  -- holds a session that was made and has not been destroyed.
  pub client-lives :
      (n : Surroundings) (os : List (Operation H)) (sessions : ℕ → Session) (w : Objects H) (k : ℕ)
      (c : Object H)
      → operate_all n os (no_clients sessions) ≡ some w
      → get_elem? w.clients k ≡ some c
      → (i : ℕ) × (c.session ≡ some i) × (i < w.heap.next) × (occurrences i w.heap.destroyed ≡ 0)
  client-lives n os sessions w k c e there =
      IsSound-lives w k c (operate_all-IsSound n os sessions w e) there

  -- The session of the client at a place.
  abbrev pub session_at : List (Object H) → ℕ → Option ℕ
  session_at [] k = none
  session_at (c ∷ cs) zero = c.session
  session_at (c ∷ cs) (suc k) = session_at cs k

  session_at-get :
      (cs : List (Object H)) (k : ℕ) (c : Object H)
      → get_elem? cs k ≡ some c
      → session_at cs k ≡ c.session
  session_at-get [] k c e = absurd cc
  session_at-get (d ∷ cs) zero c e = cc
  session_at-get (d ∷ cs) (suc k) c e = session_at-get cs k c e

  session_at-set :
      (cs : List (Object H)) (k : ℕ) (c d : Object H)
      → get_elem? cs k ≡ some c
      → session_at (set cs k d) k ≡ d.session
  session_at-set [] k c d e = absurd cc
  session_at-set (b ∷ cs) zero c d e = refl
  session_at-set (b ∷ cs) (suc k) c d e = session_at-set cs k c d e

  -- A place that already has the session, or another place, keeps what it has.
  session_at-kept :
      (cs : List (Object H)) (k j : ℕ) (d : Object H)
      → session_at cs j ≡ d.session
      → session_at (set cs k d) j ≡ d.session
  session_at-kept [] k j d e = e
  session_at-kept (b ∷ cs) zero zero d e = refl
  session_at-kept (b ∷ cs) zero (suc j) d e = e
  session_at-kept (b ∷ cs) (suc k) zero d e = e
  session_at-kept (b ∷ cs) (suc k) (suc j) d e = session_at-kept cs k j d e

  Shares : ℕ → ℕ → Objects H → Objects H → Type 0
  Shares k j w v =
      (session_at v.clients k ≡ session_at w.clients j)
      × (session_at v.clients j ≡ session_at w.clients j)

  shared :
      (k j : ℕ) (o p : Option (Object H)) (w v : Objects H)
      → get_elem? w.clients k ≡ o
      → get_elem? w.clients j ≡ p
      → assigned k o p w ≡ some v
      → Shares k j w v
  unfolding assigned Shares
  shared k j none p w v e f q = absurd cc
  shared k j (some self) none w v e f q = absurd cc
  shared k j (some self) (some c) w v e f q =
      let d = record c { url = assign_optional self.url c.url } in
      let there : session_at w.clients j ≡ c.session = session_at-get w.clients j c f in
      let now : v.clients ≡ set w.clients k d = cc in
      (
        rw (now, there) (session_at-set w.clients k self d e),
        rw (now, there) (session_at-kept w.clients k j d there),
      )

  -- After `operator=` the client on the left has the session of the one on the right, which keeps it.
  assign_to-shares :
      (n : Surroundings) (k j : ℕ) (w v : Objects H)
      → operate n (assign_to k j) w ≡ some v
      → (session_at v.clients k ≡ session_at w.clients j)
        × (session_at v.clients j ≡ session_at w.clients j)
  unfolding operate Shares
  assign_to-shares n k j w v e = shared k j _ _ w v refl refl e

  session_at-some :
      (cs : List (Object H)) (k i : ℕ)
      → session_at cs k ≡ some i
      → (c : Object H) × (get_elem? cs k ≡ some c) × (c.session ≡ some i)
  session_at-some [] k i e = absurd cc
  session_at-some (c ∷ cs) zero i e = (c, refl, e)
  session_at-some (c ∷ cs) (suc k) i e = session_at-some cs k i e

  -- An assignment is between clients that there are.
  assigned-some :
      (k : ℕ) (o p : Option (Object H)) (w v : Objects H)
      → assigned k o p w ≡ some v
      → (c : Object H) × (p ≡ some c)
  unfolding assigned
  assigned-some k none p w v e = absurd cc
  assigned-some k (some self) none w v e = absurd cc
  assigned-some k (some self) (some c) w v e = (c, refl)

  session_at-lives :
      (v : Objects H) (k i : ℕ)
      → IsSound v
      → session_at v.clients k ≡ some i
      → occurrences i v.heap.destroyed ≡ 0
  session_at-lives v k i s e =
      let (c, there, q) = session_at-some v.clients k i e in
      let (i', q', l, o) = IsSound-lives v k c s there in let same : i' ≡ i = cc in rw (← same) o

  -- Whatever clients were constructed, copied, assigned and destroyed before: after `operator=` the
  -- client on the left and the one on the right hold one session, that which the one on the right
  -- has held, and it has not been destroyed.
  pub assigned-shares :
      (n : Surroundings) (os : List (Operation H)) (sessions : ℕ → Session) (w v : Objects H)
      (k j : ℕ)
      → operate_all n os (no_clients sessions) ≡ some w
      → operate n (assign_to k j) w ≡ some v
      → (i : ℕ) × (session_at w.clients j ≡ some i)
        × (session_at v.clients k ≡ some i)
        × (session_at v.clients j ≡ some i)
        × (occurrences i v.heap.destroyed ≡ 0)
  unfolding operate
  assigned-shares n os sessions w v k j e a =
      let s = operate_all-IsSound n os sessions w e in
      let (c, there) = assigned-some k _ _ w v a in
      let (i, q) = AllHold-get w.clients j c there s.all_hold in
      let at_j : session_at w.clients j ≡ some i = session_at-get w.clients j c there ∙ q in
      let (left, right) = assign_to-shares n k j w v a in
      (
        i,
        at_j,
        left ∙ at_j,
        right ∙ at_j,
        session_at-lives v k i (SoundIf-of _ v a (operate-IsSound n (assign_to k j) w s))
            (left ∙ at_j),
      )
