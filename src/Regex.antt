-- ===== src/Regex.antt =====
-- The fragment of Boost's Perl regular expressions that src/milecsa_url.cpp writes its pattern in,
-- and the order in which such an expression is matched: alternatives from left to right, a
-- quantifier takes as much as it can first, and gives back on failure.
pub mod Laws
use mile_csa_jsonrpc_client.Base.{ℕ, Bool, true, false, Option, none, some, List, [], ◌∷◌, ◌++◌}
use mile_csa_jsonrpc_client.Base.{◌==◌, if◌then◌else◌, first_some, Text, contains, lookup_num}

pub data Regex : Type 0 where
  empty : Regex
  -- one given byte
  chr : ℕ → Regex
  seq : Regex → Regex → Regex
  alt : Regex → Regex → Regex
  opt : Regex → Regex
  -- `[^…]*` and `[^…]+`
  many many1 : Text → Regex
  -- `( … )`, with its number
  group : ℕ → Regex → Regex

-- A fixed text.
unfoldable pub literal : Text → Regex
literal [] = empty
literal (c ∷ cs) = seq (chr c) (literal cs)

-- `boost::cmatch`: the text of each group, `what[i]`.
abbrev pub Captures : Type 0
Captures = List (ℕ × Text)

abbrev pub what : Captures → ℕ → Text
what c i = lookup_num i [] c

-- What follows a part: it is given the matched text, the rest and the captures so far.
abbrev pub Next {ℓ} : Type ℓ → Type ℓ
Next R = Text → Text → Captures → Option R

module _ {ℓ} {R : Type ℓ} where
  unfoldable pub run_many : Text → Text → Captures → Next R → Option R
  run_many cls [] c k = k [] [] c
  run_many cls (x ∷ s) c k = elim (contains x cls) [
    | true ↦ k [] (x ∷ s) c
    | false ↦
        let rest = run_many cls s c (λ m r c'. k (x ∷ m) r c') in first_some rest (k [] (x ∷ s) c)
  ]

  unfoldable pub run_chr : ℕ → Text → Captures → Next R → Option R
  run_chr a [] c k = none
  run_chr a (x ∷ s) c k = elim (x == a) [ true ↦ k (a ∷ []) s c | false ↦ none ]

  unfoldable pub run_many1 : Text → Text → Captures → Next R → Option R
  run_many1 cls [] c k = none
  run_many1 cls (x ∷ s) c k = elim (contains x cls) [
    | true ↦ none
    | false ↦ run_many cls s c (λ m r c'. k (x ∷ m) r c')
  ]

  unfoldable pub run : Regex → Text → Captures → Next R → Option R
  unfolding run_many run_many1 run_chr
  run empty s c k = k [] s c
  run (chr a) s c k = run_chr a s c k
  run (seq a b) s c k = run a s c (λ m r c'. run b r c' (λ m' r' c''. k (m ++ m') r' c''))
  run (alt a b) s c k = let other = run b s c k in first_some (run a s c k) other
  run (opt a) s c k = let other = k [] s c in first_some (run a s c k) other
  run (many cls) s c k = run_many cls s c k
  run (many1 cls) s c k = run_many1 cls s c k
  run (group i a) s c k = run a s c (λ m r c'. k m r ((i, m) ∷ c'))

-- `regex_match` succeeds only on the whole text.
unfoldable pub whole : Text → Text → Captures → Option Captures
whole m [] c = some c
whole m (x ∷ s) c = none

unfoldable pub backtrack : Regex → Text → Option Captures
unfolding run whole
backtrack r s = run r s [] whole
