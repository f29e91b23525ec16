-- ===== src/Connection/Clients/Ownership.antt =====
-- Which sessions live, whatever is done with the clients.
use mile_csa_jsonrpc_client.Base.{
  ℕ, zero, suc, ◌+◌, ◌≤◌, ◌<◌, ◌≡◌, refl, ap, Bool, Option, none, some, List, [], ◌∷◌, get_elem?,
  set, erase_at, arith,
}
use mile_csa_jsonrpc_client.Url.Parse.{Url}
use mile_csa_jsonrpc_client.Session.{Session}
use mile_csa_jsonrpc_client.Connection.Client.{Surroundings}
use mile_csa_jsonrpc_client.Connection.Clients.{
  Object, Objects, Operation, construct, copy_of, assign_to, destroy_at,
}
use mile_csa_jsonrpc_client.Connection.Clients.{
  acquire, assign_optional, constructed, copied, assigned, destructed, operate, operate_all,
  no_clients, and_then,
}
use mile_csa_jsonrpc_client.Connection.Clients.Counts.{
  holds, holders, IsOwned, Counts-eq, acquire-Counts, release-Counts, allocate-Counts,
}

holds_self : (o : Option ℕ) (i : ℕ) → o ≡ some i → holds o i ≡ 1
holds_self none i e = absurd cc
holds_self (some j) i e = let q : j ≡ i = cc in ground arith

module _ {H : Type 0} where
  -- Every client's pointer holds a session.
  abbrev pub AllHold : List (Object H) → Type 0
  AllHold [] = Unit {0}
  AllHold (c ∷ cs) = ((i : ℕ) × (c.session ≡ some i)) × AllHold cs

  holders-get :
      (cs : List (Object H)) (k i : ℕ) (c : Object H)
      → get_elem? cs k ≡ some c
      → holds c.session i ≤ holders cs i
  holders-get [] k i c e = absurd cc
  holders-get (d ∷ cs) zero i c e =
      let q : holds d.session i ≡ holds c.session i =
        ap (λ o. elim o [ none ↦ 0 | some a ↦ holds a.session i ]) e in
      omega (arith, q)
  holders-get (d ∷ cs) (suc k) i c e = omega (arith, holders-get cs k i c e)

  holders-set :
      (cs : List (Object H)) (k i : ℕ) (c d : Object H)
      → get_elem? cs k ≡ some c
      → holders (set cs k d) i + holds c.session i ≡ holders cs i + holds d.session i
  holders-set [] k i c d e = absurd cc
  holders-set (b ∷ cs) zero i c d e =
      let q : holds b.session i ≡ holds c.session i =
        ap (λ o. elim o [ none ↦ 0 | some a ↦ holds a.session i ]) e in
      omega (arith, q)
  holders-set (b ∷ cs) (suc k) i c d e = omega (arith, holders-set cs k i c d e)

  holders-erase :
      (cs : List (Object H)) (k i : ℕ) (c : Object H)
      → get_elem? cs k ≡ some c
      → holders (erase_at cs k) i + holds c.session i ≡ holders cs i
  holders-erase [] k i c e = absurd cc
  holders-erase (b ∷ cs) zero i c e =
      let q : holds b.session i ≡ holds c.session i =
        ap (λ o. elim o [ none ↦ 0 | some a ↦ holds a.session i ]) e in
      omega (arith, q)
  holders-erase (b ∷ cs) (suc k) i c e = omega (arith, holders-erase cs k i c e)

  pub AllHold-get :
      (cs : List (Object H)) (k : ℕ) (c : Object H)
      → get_elem? cs k ≡ some c
      → AllHold cs
      → (i : ℕ) × (c.session ≡ some i)
  AllHold-get [] k c e h = absurd cc
  AllHold-get (d ∷ cs) zero c e h = (h.0.0, let g : d.session ≡ some h.0.0 = h.0.1 in cc)
  AllHold-get (d ∷ cs) (suc k) c e h = AllHold-get cs k c e h.1

  AllHold-set :
      (cs : List (Object H)) (k : ℕ) (d : Object H)
      → (i : ℕ) × (d.session ≡ some i)
      → AllHold cs
      → AllHold (set cs k d)
  AllHold-set [] k d q h = h
  AllHold-set (c ∷ cs) zero d q h = (q, h.1)
  AllHold-set (c ∷ cs) (suc k) d q h = (h.0, AllHold-set cs k d q h.1)

  AllHold-erase : (cs : List (Object H)) (k : ℕ) → AllHold cs → AllHold (erase_at cs k)
  AllHold-erase [] k h = h
  AllHold-erase (c ∷ cs) zero h = h.1
  AllHold-erase (c ∷ cs) (suc k) h = (h.0, AllHold-erase cs k h.1)

  -- A session that a client holds is counted.
  pub some_holder :
      (cs : List (Object H)) (k i : ℕ) (c : Object H)
      → get_elem? cs k ≡ some c
      → c.session ≡ some i
      → 0 < holders cs i
  some_holder cs k i c e q =
      let l : holds c.session i ≤ holders cs i = holders-get cs k i c e in
      omega (arith, holds_self c.session i q)

  -- The counts are right, and every client has a session.
  pub record IsSound (w : Objects H) : Type 0 where
    pub owned : IsOwned w
    pub all_hold : AllHold w.clients

  abbrev SoundIf : Option (Objects H) → Type 0
  SoundIf none = Unit {0}
  SoundIf (some w) = IsSound w

  constructed-IsSound :
      (n : Surroundings) (u : Url) (verify : Bool) (x : H) (w : Objects H)
      → IsSound w
      → IsSound (constructed n u verify x w)
  unfolding constructed
  constructed-IsSound n u verify x w s = record {
    owned = allocate-Counts _ (holders w.clients) w.heap s.owned;
    all_hold = ((w.heap.next, refl), s.all_hold);
  }

  copied-IsSound :
      (k : ℕ) (o : Option (Object H)) (w : Objects H)
      → get_elem? w.clients k ≡ o
      → IsSound w
      → SoundIf (copied o w)
  unfolding copied
  copied-IsSound k none w e s = tt
  copied-IsSound k (some c) w e s = record {
    owned =
        Counts-eq _ _ _ (λ i. omega arith)
          (acquire-Counts c.session (holders w.clients) w.heap
            (λ i q. some_holder w.clients k i c e q) s.owned);
    all_hold = (AllHold-get w.clients k c e s.all_hold, s.all_hold);
  }

  destructed-IsSound :
      (k : ℕ) (o : Option (Object H)) (w : Objects H)
      → get_elem? w.clients k ≡ o
      → IsSound w
      → SoundIf (destructed k o w)
  unfolding destructed
  destructed-IsSound k none w e s = tt
  destructed-IsSound k (some c) w e s = record {
    owned =
        Counts-eq _ _ _ (λ i. omega (arith, holders-erase w.clients k i c e))
          (release-Counts c.session (holders w.clients) w.heap
            (λ i q. some_holder w.clients k i c e q) s.owned);
    all_hold = AllHold-erase w.clients k s.all_hold;
  }

  assigned-IsSound :
      (k j : ℕ) (o p : Option (Object H)) (w : Objects H)
      → get_elem? w.clients k ≡ o
      → get_elem? w.clients j ≡ p
      → IsSound w
      → SoundIf (assigned k o p w)
  unfolding assigned
  assigned-IsSound k j none p w e f s = tt
  assigned-IsSound k j (some self) none w e f s = tt
  assigned-IsSound k j (some self) (some c) w e f s = record {
    owned =
        Counts-eq _ _ _
          (λ i. omega (
            arith,
            holders-set w.clients k i self (record c { url = assign_optional self.url c.url }) e,
          ))
          (release-Counts self.session (λ i. holders w.clients i + holds c.session i)
            (acquire c.session w.heap) (λ i q. omega (arith, some_holder w.clients k i self e q))
            (acquire-Counts c.session (holders w.clients) w.heap
              (λ i q. some_holder w.clients j i c f q) s.owned));
    all_hold = AllHold-set w.clients k _ (AllHold-get w.clients j c f s.all_hold) s.all_hold;
  }

  pub operate-IsSound :
      (n : Surroundings) (o : Operation H) (w : Objects H) → IsSound w → SoundIf (operate n o w)
  unfolding operate
  operate-IsSound n (construct u verify x) w s = constructed-IsSound n u verify x w s
  operate-IsSound n (copy_of k) w s = copied-IsSound k _ w refl s
  operate-IsSound n (assign_to k j) w s = assigned-IsSound k j _ _ w refl refl s
  operate-IsSound n (destroy_at k) w s = destructed-IsSound k _ w refl s

  bind-SoundIf :
      (f : Objects H → Option (Objects H)) (r : Option (Objects H))
      → ((v : Objects H) → IsSound v → SoundIf (f v))
      → SoundIf r
      → SoundIf (and_then f r)
  bind-SoundIf f none g h = tt
  bind-SoundIf f (some v) g h = g v h

  operate_all-SoundIf :
      (n : Surroundings) (os : List (Operation H)) (w : Objects H)
      → IsSound w
      → SoundIf (operate_all n os w)
  unfolding operate_all
  operate_all-SoundIf n [] w s = s
  operate_all-SoundIf n (o ∷ os) w s =
      bind-SoundIf (operate_all n os) (operate n o w) (λ v h. operate_all-SoundIf n os v h)
        (operate-IsSound n o w s)

  pub SoundIf-of : (r : Option (Objects H)) (w : Objects H) → r ≡ some w → SoundIf r → IsSound w
  SoundIf-of none w e h = absurd cc
  SoundIf-of (some v) w e h = let q : v ≡ w = cc in rw (← q) h

  no_clients-IsSound : (sessions : ℕ → Session) → IsSound (no_clients sessions)
  no_clients-IsSound sessions = record {
    owned = record { counted = λ i. refl; once = λ i. ground arith };
    all_hold = tt;
  }

  pub operate_all-IsSound :
      (n : Surroundings) (os : List (Operation H)) (sessions : ℕ → Session) (w : Objects H)
      → operate_all n os (no_clients sessions) ≡ some w
      → IsSound w
  operate_all-IsSound n os sessions w e =
      SoundIf-of _ w e
        (operate_all-SoundIf n os (no_clients sessions) (no_clients-IsSound sessions))
