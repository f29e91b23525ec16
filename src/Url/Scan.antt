-- ===== src/Url/Scan.antt =====
-- What the expression of `Url::Parse` matches, as a scan of the text from left to right.
pub mod Equivalence
use mile_csa_jsonrpc_client.Base.{
  ℕ, ◌≡◌, refl, Bool, true, false, not, Option, none, some, [], ◌∷◌, ◌++◌,
}
use mile_csa_jsonrpc_client.Base.{if◌then◌else◌, Text, codes, contains, arith, first_some}
use mile_csa_jsonrpc_client.Regex.{Regex, seq, literal, group, Captures, Next, run, backtrack}
use mile_csa_jsonrpc_client.Regex.Laws.{before, after, strip, front_byte, skip_byte, run-literal}
use mile_csa_jsonrpc_client.Url.Pattern.{scheme, authority, file_path, tail, url_regex}

-- The protocol's name, and what follows `://`.
unfoldable pub split_scheme : Text → Option (Text × Text)
unfolding strip
split_scheme s = elim (strip (codes "https://") s) [
  | some r ↦ some (codes "https", r)
  | none ↦ elim (strip (codes "http://") s) [
    | some r ↦ some (codes "http", r)
    | none ↦ elim (strip (codes "ftp://") s) [ some r ↦ some (codes "ftp", r) | none ↦ none ]
  ]
]

module _ {R : Type 0} (x : Regex) (c : Captures) (k : Next R) where
  abbrev go_on : Text → Text → Option R
  go_on p r = run x r ((1, p) ∷ c) (λ m r' c'. k (p ++ (codes "://" ++ m)) r' c')

  abbrev after_scheme : Option (Text × Text) → Option R
  after_scheme none = none
  after_scheme (some (p, r)) = go_on p r

  run-scheme :
      (s : Text)
      → run (seq scheme (seq (literal (codes "://")) x)) s c k ≡ after_scheme (split_scheme s)
  unfolding run scheme literal strip split_scheme
  run-scheme (a ∷ b ∷ d ∷ e ∷ f ∷ g ∷ h ∷ i ∷ s) = ground arith
  run-scheme _ = ground arith

-- The parts after `://`, from left to right.
unfoldable pub host : Text → Text
host r = before (codes "/ :") r

unfoldable pub after_host : Text → Text
after_host r = skip_byte b':' (after (codes "/ :") r)

unfoldable pub port_text : Text → Text
port_text r = before (codes "/ ") (after_host r)

unfoldable pub after_port : Text → Text
after_port r = after (codes "/ ") (after_host r)

unfoldable pub path_text : Text → Text
path_text r = front_byte b'/' (after_port r) ++ before (codes " #?") (skip_byte b'/' (after_port r))

unfoldable pub after_path : Text → Text
after_path r = skip_byte 0x3f (after (codes " #?") (skip_byte b'/' (after_port r)))

unfoldable pub query_text : Text → Text
query_text r = before (codes " #") (after_path r)

unfoldable pub fragment_text : Text → Text
fragment_text r = skip_byte b'#' (after (codes " #") (after_path r))

unfoldable pub captures : Text → Text → Captures
captures p r =
    (6, before (codes " ") (fragment_text r))
    ∷ (5, query_text r)
    ∷ (4, path_text r)
    ∷ (3, port_text r)
    ∷ (2, host r)
    ∷ (1, p)
    ∷ []

abbrev pub blank : ℕ
blank = 32

unfoldable pub starts_host : Text → Bool
starts_host [] = false
starts_host (x ∷ _) = not (contains x (codes "/ :"))

-- The parts of a url without blanks whose host is not empty.
unfoldable pub scan_parts : Option (Text × Text) → Option Captures
unfolding captures starts_host
scan_parts none = none
scan_parts (some (p, r)) = if starts_host r then some (captures p r) else none

unfoldable pub scan : Text → Option Captures
unfolding scan_parts split_scheme
scan s = if contains blank s then none else scan_parts (split_scheme s)
