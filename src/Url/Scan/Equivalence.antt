-- ===== src/Url/Scan/Equivalence.antt =====
-- The matching order of the url expression finds the scan's parts, and nothing else.
use mile_csa_jsonrpc_client.Base.{ℕ, ◌≡◌, refl, ◌∙◌, true, false, Option, none, some, [], ◌∷◌, ◌++◌}
use mile_csa_jsonrpc_client.Base.{if◌then◌else◌, Text, codes, contains, arith, Bool-cases, inl, inr}
use mile_csa_jsonrpc_client.Regex.{Regex, seq, literal, Captures, Next, run, whole, backtrack}
use mile_csa_jsonrpc_client.Regex.Laws.{after, strip, skip_byte, First, First-seq}
use mile_csa_jsonrpc_client.Regex.Laws.{First-group, First-many, First-many1, First-opt_chr, Avoids}
use mile_csa_jsonrpc_client.Regex.Laws.{run-Blocked}
use mile_csa_jsonrpc_client.Url.Pattern.{scheme, authority, file_path, tail, url_regex}
use mile_csa_jsonrpc_client.Url.Scan.{
  split_scheme, run-scheme, after_scheme, host, after_host, port_text,
}
use mile_csa_jsonrpc_client.Url.Scan.{after_port, path_text, after_path, query_text, fragment_text}
use mile_csa_jsonrpc_client.Url.Scan.{captures, starts_host, scan, scan_parts, blank}

-- What is left of a text without a blank has none.
contains-after : (cls s : Text) → contains blank s ≡ false → contains blank (after cls s) ≡ false
unfolding after
contains-after cls [] h = h
contains-after cls (x ∷ s) h = ground (arith, contains-after cls s)

contains-skip_byte :
    (a : ℕ) (s : Text) → contains blank s ≡ false → contains blank (skip_byte a s) ≡ false
unfolding skip_byte
contains-skip_byte a [] h = h
contains-skip_byte a (x ∷ s) h = ground arith

contains-strip :
    (t s : Text) {r : Text}
    → strip t s ≡ some r
    → contains blank s ≡ false
    → contains blank r ≡ false
unfolding strip
contains-strip [] s {r} e h = ground arith
contains-strip (a ∷ t) [] {r} e h = cc
contains-strip (a ∷ t) (x ∷ s) {r} e h = ground (arith, contains-strip t s {r = r})

contains-split_scheme :
    (s : Text) {p r : Text}
    → split_scheme s ≡ some (p, r)
    → contains blank s ≡ false
    → contains blank r ≡ false
unfolding split_scheme
contains-split_scheme s e h = ground (
  arith,
  contains-strip (codes "https://") s,
  contains-strip (codes "http://") s,
  contains-strip (codes "ftp://") s,
)

after-blank : (s : Text) → contains blank s ≡ false → after (codes " ") s ≡ []
unfolding after
after-blank [] h = refl
after-blank (x ∷ s) h = ground (arith, after-blank s)

contains-fragment_text :
    (r : Text) → contains blank r ≡ false → contains blank (fragment_text r) ≡ false
unfolding fragment_text after_path after_port after_host
contains-fragment_text r h = contains-skip_byte _ _ (
    contains-after _ _ (
      contains-skip_byte _ _ (
        contains-after _ _ (
          contains-skip_byte _ _
            (contains-after _ _ (contains-skip_byte _ _ (contains-after _ r h)))))))

-- After the scheme, the first choice of every part is the scan's.
First-parts :
    (x : ℕ) (r : Text) (p : Text)
    → starts_host (x ∷ r) ≡ true
    → (m : Text) × First
        (seq authority (seq file_path tail))
        (x ∷ r)
        ((1, p) ∷ [])
        m
        (after (codes " ") (fragment_text (x ∷ r)))
        (captures p (x ∷ r))
unfolding starts_host captures host after_host port_text after_port path_text after_path query_text
    fragment_text authority file_path tail
First-parts x r p h = (
  _,
  First-seq
      (First-seq (First-group 2 (First-many1 _ x r _ (ground arith)))
        (First-seq (First-opt_chr _ _ _) (First-group 3 (First-many _ _ _))))
      (First-seq (First-group 4 (First-seq (First-opt_chr _ _ _) (First-many _ _ _))) (
        First-seq (First-opt_chr _ _ _) (
          First-seq (First-group 5 (First-many _ _ _))
            (First-seq (First-opt_chr _ _ _) (First-group 6 (First-many _ _ _)))))),
)

-- A match of the rest of the expression that ends before the text does fails.
whole-rest : (m s : Text) (c : Captures) → s ≡ [] → whole m s c ≡ some c
unfolding whole
whole-rest m s c e = rw e

whole-blank : (m s : Text) (c : Captures) → contains blank s ≡ true → whole m s c ≡ none
unfolding whole
whole-blank m [] c h = cc
whole-blank m (x ∷ s) c h = refl

url_regex-Avoids : Avoids blank url_regex
unfolding url_regex scheme authority file_path tail literal
url_regex-Avoids = ground arith

-- The host takes one byte at least.
run-empty_host :
    (q : Regex) (r : Text) (c : Captures) (k : Next Captures)
    → starts_host r ≡ false
    → run (seq authority q) r c k ≡ none
unfolding run authority starts_host
run-empty_host q [] c k h = refl
run-empty_host q (x ∷ r) c k h = ground arith

after_scheme-scan_parts :
    (p r : Text)
    → contains blank r ≡ false
    → run
        (seq authority (seq file_path tail))
        r
        ((1, p) ∷ [])
        (λ m r' c. whole (p ++ (codes "://" ++ m)) r' c)
      ≡ (if starts_host r then some (captures p r) else none)
after_scheme-scan_parts p [] h =
    rw (run-empty_host _ [] _ _ (unfold starts_host in refl)) (unfold starts_host in refl)
after_scheme-scan_parts p (x ∷ r) h = elim (Bool-cases (starts_host (x ∷ r))) [
  | inl e ↦
      let (m, first) = First-parts x r p e in
      rw e (first.apply _ _ (whole-rest _ _ _ (after-blank _ (contains-fragment_text (x ∷ r) h))))
  | inr e ↦ rw (e, run-empty_host _ (x ∷ r) _ _ e)
]

run-url_regex :
    (s : Text) → contains blank s ≡ false → run url_regex s [] whole ≡ scan_parts (split_scheme s)
unfolding url_regex
run-url_regex s h = run-scheme _ [] whole s ∙ go (split_scheme s) refl
  where
    go :
        (o : Option (Text × Text))
        → split_scheme s ≡ o
        → after_scheme (seq authority (seq file_path tail)) [] whole o ≡ scan_parts o
    go none e = unfold scan_parts in refl
    go (some (p, r)) e =
        unfold scan_parts in after_scheme-scan_parts p r (contains-split_scheme s e h)

-- The backtracking match of the expression of `Url::Parse` against a whole text is the linear scan:
-- it fails on a text with a blank, without a known scheme or with an empty host, and captures the
-- scan's parts of any other.
pub backtrack-scan : (s : Text) → backtrack url_regex s ≡ scan s
unfolding backtrack
backtrack-scan s = elim (Bool-cases (contains blank s)) [
  | inl e ↦
      unfold scan in rw e (run-Blocked blank url_regex s [] whole url_regex-Avoids whole-blank e)
  | inr e ↦ unfold scan in rw e (run-url_regex s e)
]
