-- ===== src/Connection/Clients/Counts.antt =====
-- The use counts of the shared pointers.
use mile_csa_jsonrpc_client.Base.{
  ℕ, ◌+◌, ◌-◌, ◌<◌, ◌==◌, ltb, ◌≡◌, ◌∙◌, ap, sym, refl, Bool, true, false, Option, none, some, List,
  [], ◌∷◌, if◌then◌else◌, arith,
}
use mile_csa_jsonrpc_client.Session.{Session, destroy}
use mile_csa_jsonrpc_client.Connection.Clients.{Object, Heap, Objects}
use mile_csa_jsonrpc_client.Connection.Clients.{is_at, acquire, release, allocate}

-- The pointer holds the session `i`: one or zero.
abbrev pub holds : Option ℕ → ℕ → ℕ
holds none i = 0
holds (some j) i = is_at j i

-- The clients whose pointer holds the session `i`.
abbrev pub holders : {H : Type 0} → List (Object H) → ℕ → ℕ
holders [] i = 0
holders (c ∷ cs) i = holds c.session i + holders cs i

abbrev pub occurrences : ℕ → List ℕ → ℕ
occurrences i [] = 0
occurrences i (j ∷ js) = is_at j i + occurrences i js

-- A session with a use count is there: one or zero.
abbrev pub alive : ℕ → ℕ
alive n = if n == 0 then 0 else 1

-- A session with a number below the next one has been made.
abbrev pub made : ℕ → ℕ → ℕ
made next i = if ltb i next then 1 else 0

-- The use counts are those of the pointers that exist, and a session that was made is there or has
-- been destroyed once.
pub record Counts (c : ℕ → ℕ) (h : Heap) : Type 0 where
  pub counted : (i : ℕ) → h.uses i ≡ c i
  pub once : (i : ℕ) → occurrences i h.destroyed + alive (h.uses i) ≡ made h.next i

-- The use counts are the numbers of clients that hold the sessions.
abbrev pub IsOwned : {H : Type 0} → Objects H → Type 0
IsOwned w = Counts (holders w.clients) w.heap

-- One more use of a session that is there, and one less of a session that is used.
alive-add : (j i u : ℕ) → (j ≡ i → 0 < u) → alive (u + is_at j i) ≡ alive u
alive-add j i u h = ground arith

alive-sub :
    (j i u v : ℕ) → (j ≡ i → u ≡ v) → (v == 1) ≡ false → 0 < v → alive (u - is_at j i) ≡ alive u
alive-sub j i u v h e l = ground arith

alive-last :
    (j i n u v : ℕ)
    → (j ≡ i → u ≡ v)
    → (v == 1) ≡ true
    → is_at j i + n + alive (u - is_at j i) ≡ n + alive u
alive-last j i n u v h e = ground arith

alive-new :
    (next i n u : ℕ) → n + alive u ≡ made next i → n + alive (u + is_at next i) ≡ made (next + 1) i
alive-new next i n u h = ground arith

pub Counts-eq : (c d : ℕ → ℕ) (h : Heap) → ((i : ℕ) → c i ≡ d i) → Counts c h → Counts d h
Counts-eq c d h e k = record { counted = λ i. k.counted i ∙ e i; once = k.once }

pub acquire-Counts :
    (o : Option ℕ) (c : ℕ → ℕ) (h : Heap)
    → ((i : ℕ) → o ≡ some i → 0 < c i)
    → Counts c h
    → Counts (λ i. c i + holds o i) (acquire o h)
unfolding acquire
acquire-Counts none c h l k = record { counted = λ i. omega (arith, k.counted i); once = k.once }
acquire-Counts (some j) c h l k = record {
  counted = λ i. omega (arith, k.counted i);
  once = λ i. rw (alive-add j i (h.uses i) (λ e. rw (k.counted i) (l i (ap some e)))) (k.once i);
}

pub release-Counts :
    (o : Option ℕ) (c : ℕ → ℕ) (h : Heap)
    → ((i : ℕ) → o ≡ some i → 0 < c i)
    → Counts c h
    → Counts (λ i. c i - holds o i) (release o h)
unfolding release
release-Counts none c h l k = record { counted = λ i. omega (arith, k.counted i); once = k.once }
release-Counts (some j) c h l k = go (h.uses j == 1) refl
  where
    used : 0 < h.uses j
    used = rw (k.counted j) (l j refl)

    go :
        (b : Bool)
        → (h.uses j == 1) ≡ b
        → Counts
            (λ i. c i - is_at j i)
            (if b
              then record h {
                uses = λ i. h.uses i - is_at j i;
                sessions = λ i. if j == i then destroy (h.sessions i) else h.sessions i;
                destroyed = j ∷ h.destroyed;
              }
              else record h { uses = λ i. h.uses i - is_at j i })
    go true q = record {
      counted = λ i. omega (arith, k.counted i);
      once = λ i. alive-last j i _ (h.uses i) (h.uses j) (λ e. ap h.uses (sym e)) q ∙ k.once i;
    }
    go false q = record {
      counted = λ i. omega (arith, k.counted i);
      once =
          λ i. rw (alive-sub j i (h.uses i) (h.uses j) (λ e. ap h.uses (sym e)) q used) (k.once i);
    }

pub allocate-Counts :
    (s : Session) (c : ℕ → ℕ) (h : Heap)
    → Counts c h
    → Counts (λ i. is_at h.next i + c i) (allocate s h)
unfolding allocate
allocate-Counts s c h k = record {
  counted = λ i. omega (arith, k.counted i);
  once = λ i. alive-new h.next i _ (h.uses i) (k.once i);
}
