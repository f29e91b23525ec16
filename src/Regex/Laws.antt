-- ===== src/Regex/Laws.antt =====
-- How the matching order behaves: the first choice of each part, and texts that no part can pass.
use mile_csa_jsonrpc_client.Base.{ℕ, ◌≡◌, refl, true, false, Option, none, some}
use mile_csa_jsonrpc_client.Base.{[], ◌∷◌, ◌++◌, ◌==◌, Text, contains, arith}
use mile_csa_jsonrpc_client.Regex.{Regex, empty, chr, seq, alt, opt, many, many1, group, literal}
use mile_csa_jsonrpc_client.Regex.{Captures, Next, run, run_many}

-- The longest front of the text without bytes of the class, and what follows it.
unfoldable pub before : Text → Text → Text
before cls [] = []
before cls (x ∷ s) = elim (contains x cls) [ true ↦ [] | false ↦ x ∷ before cls s ]

unfoldable pub after : Text → Text → Text
after cls [] = []
after cls (x ∷ s) = elim (contains x cls) [ true ↦ x ∷ s | false ↦ after cls s ]

-- The rest of the text after a fixed front.
unfoldable pub strip : Text → Text → Option Text
strip [] s = some s
strip (c ∷ cs) [] = none
strip (c ∷ cs) (x ∷ s) = elim (x == c) [ true ↦ strip cs s | false ↦ none ]

-- One byte, if the text begins with it.
unfoldable pub front_byte : ℕ → Text → Text
front_byte a [] = []
front_byte a (x ∷ s) = elim (x == a) [ true ↦ a ∷ [] | false ↦ [] ]

unfoldable pub skip_byte : ℕ → Text → Text
skip_byte a [] = []
skip_byte a (x ∷ s) = elim (x == a) [ true ↦ s | false ↦ x ∷ s ]

-- The part `r` first takes `m` from `s` and leaves `s'`: if what follows accepts that, it is done.
pub record First (r : Regex) (s : Text) (c : Captures) (m s' : Text) (c' : Captures) : Type 0 where
  pub apply : (k : Next Captures) (v : Captures) → k m s' c' ≡ some v → run r s c k ≡ some v

pub First-seq :
    {a b : Regex} {s s' s'' m m' : Text} {c c' c'' : Captures}
    → First a s c m s' c'
    → First b s' c' m' s'' c''
    → First (seq a b) s c (m ++ m') s'' c''
unfolding run
First-seq fa fb = record { apply = λ k v h. fa.apply _ v (fb.apply _ v h) }

pub First-group :
    {a : Regex} (i : ℕ) {s s' m : Text} {c c' : Captures}
    → First a s c m s' c'
    → First (group i a) s c m s' ((i, m) ∷ c')
unfolding run
First-group i fa = record { apply = λ k v h. fa.apply _ v h }

run_many-first :
    (cls s : Text) (c : Captures) (k : Next Captures) (v : Captures)
    → k (before cls s) (after cls s) c ≡ some v
    → run_many cls s c k ≡ some v
unfolding run_many before after
run_many-first cls [] c k v h = h
run_many-first cls (x ∷ s) c k v h =
    ground (arith, run_many-first cls s c (λ m r c'. k (x ∷ m) r c') v)

pub First-many : (cls s : Text) (c : Captures) → First (many cls) s c (before cls s) (after cls s) c
unfolding run
First-many cls s c = record { apply = run_many-first cls s c }

pub First-many1 :
    (cls : Text) (x : ℕ) (s : Text) (c : Captures)
    → contains x cls ≡ false
    → First (many1 cls) (x ∷ s) c (before cls (x ∷ s)) (after cls (x ∷ s)) c
unfolding run before after
First-many1 cls x s c e = record {
  apply = λ k v h. ground (arith, run_many-first cls s c (λ m r c'. k (x ∷ m) r c') v);
}

pub First-opt_chr :
    (a : ℕ) (s : Text) (c : Captures) → First (opt (chr a)) s c (front_byte a s) (skip_byte a s) c
unfolding run front_byte skip_byte
First-opt_chr a [] c = record { apply = λ k v h. ground arith }
First-opt_chr a (x ∷ s) c = record { apply = λ k v h. ground arith }

-- A fixed text matches in one way only.
pub run-literal :
    (t s : Text) (c : Captures) {R : Type 0} (k : Next R)
    → run (literal t) s c k ≡ (elim (strip t s) [ none ↦ none | some r ↦ k t r c ])
unfolding run literal strip
run-literal [] s c k = refl
run-literal (a ∷ t) [] c k = refl
run-literal (a ∷ t) (x ∷ s) c k = ground (arith, run-literal t s c (λ m r c'. k (a ∷ m) r c'))

-- No part of the expression takes the byte `b`.
abbrev pub Avoids : ℕ → Regex → Type 0
Avoids b empty = Unit {0}
Avoids b (chr a) = (b == a) ≡ false
Avoids b (seq r q) = Avoids b r × Avoids b q
Avoids b (alt r q) = Avoids b r × Avoids b q
Avoids b (opt r) = Avoids b r
Avoids b (many cls) = contains b cls ≡ true
Avoids b (many1 cls) = contains b cls ≡ true
Avoids b (group i r) = Avoids b r

module _ {R : Type 0} (b : ℕ) where
  abbrev Blocked : Next R → Type 0
  Blocked k = (m s : Text) (c : Captures) → contains b s ≡ true → k m s c ≡ none

  run_many-Blocked :
      (cls s : Text) (c : Captures) (k : Next R)
      → contains b cls ≡ true
      → Blocked k
      → contains b s ≡ true
      → run_many cls s c k ≡ none
  unfolding run_many
  run_many-Blocked cls [] c k a h e = cc
  run_many-Blocked cls (x ∷ s) c k a h e = ground (
    arith,
    h [] (x ∷ s) c e,
    run_many-Blocked cls s c (λ m r c'. k (x ∷ m) r c') a (λ m r c' e'. h (x ∷ m) r c' e'),
  )

  -- Nothing that avoids a byte of the text gets to its end.
  pub run-Blocked :
      (r : Regex) (s : Text) (c : Captures) (k : Next R)
      → Avoids b r
      → Blocked k
      → contains b s ≡ true
      → run r s c k ≡ none
  unfolding run
  run-Blocked empty s c k a h e = h [] s c e
  run-Blocked (chr x) [] c k a h e = refl
  run-Blocked (chr x) (y ∷ s) c k a h e = ground (arith, h (x ∷ []) s c)
  run-Blocked (seq r q) s c k a h e =
      run-Blocked r s c _ a.0
        (λ m s' c' e'. run-Blocked q s' c' _ a.1 (λ m' s'' c'' e''. h (m ++ m') s'' c'' e'') e') e
  run-Blocked (alt r q) s c k a h e =
      ground (arith, run-Blocked r s c k a.0 h e, run-Blocked q s c k a.1 h e)
  run-Blocked (opt r) s c k a h e = ground (arith, run-Blocked r s c k a h e, h [] s c e)
  run-Blocked (many cls) s c k a h e = run_many-Blocked cls s c k a h e
  run-Blocked (many1 cls) [] c k a h e = refl
  run-Blocked (many1 cls) (x ∷ s) c k a h e = ground (
    arith,
    run_many-Blocked cls s c (λ m r c'. k (x ∷ m) r c') a (λ m r c' e'. h (x ∷ m) r c' e'),
  )
  run-Blocked (group i r) s c k a h e =
      run-Blocked r s c _ a (λ m s' c' e'. h m s' ((i, m) ∷ c') e') e
