-- ===== src/Url/Parse/Invariant.antt =====
-- What every url that `Url::Parse` returns satisfies.
use mile_csa_jsonrpc_client.Base.{ℕ, ◌≡◌, ◌≢◌, refl, sym, ◌∙◌, ◌⊎◌, inl, inr, ◌<◌, true, false}
use mile_csa_jsonrpc_client.Base.{Option, none, some, [], ◌∷◌, ◌++◌, Text, codes, contains, arith}
use mile_csa_jsonrpc_client.Base.{Bool-cases}
use mile_csa_jsonrpc_client.Regex.{Captures, what}
use mile_csa_jsonrpc_client.Regex.Laws.{before, front_byte, skip_byte}
use mile_csa_jsonrpc_client.Url.Scan.{
  split_scheme, scan, scan_parts, captures, starts_host, blank, host,
}
use mile_csa_jsonrpc_client.Url.Scan.{path_text, query_text, after_port}
use mile_csa_jsonrpc_client.Url.Pattern.{url_regex}
use mile_csa_jsonrpc_client.Url.Parse.{Matching, found, too_complex, after_match}
use mile_csa_jsonrpc_client.Url.Parse.{Boost, IsBoost, Url, Protocol, http, https, unknown, parsed}
use mile_csa_jsonrpc_client.Url.Parse.{PortResult, port, outside, stoi_threw, read_port}
use mile_csa_jsonrpc_client.Url.Parse.{parse, matched, finish, with_port, c_str, copy, fill}
use mile_csa_jsonrpc_client.Url.Parse.Scanned.{parse-scan, matched-http, matched-https, matched-ftp}
use mile_csa_jsonrpc_client.Url.Parse.Written.{Free}

pub record IsParsed (s : Text) (u : Url) : Type 0 where
  pub string_kept : u.url_string ≡ s
  pub supported : u.protocol ≢ unknown
  pub port_in_range : u.port < 65536
  pub fragment_lost : u.fragment ≡ []
  pub host_some : starts_host u.domain ≡ true
  pub host_free : Free (codes "/ :") u.domain
  pub path_free : Free (codes " #?") u.path
  pub query_free : Free (codes " #") u.query
  pub no_blank : contains blank (c_str s) ≡ false

before-Free : (cls s : Text) → Free cls (before cls s)
unfolding before
before-Free cls [] = tt
before-Free cls (x ∷ s) = ground (arith, before-Free cls s)

host-starts_host : (r : Text) → starts_host r ≡ true → starts_host (host r) ≡ true
unfolding starts_host host before
host-starts_host [] e = e
host-starts_host (x ∷ r) e = ground arith

path_text-Free : (r : Text) → Free (codes " #?") (path_text r)
unfolding path_text
path_text-Free r = go (after_port r)
  where
    go :
        (t : Text)
        → Free (codes " #?") (front_byte b'/' t ++ before (codes " #?") (skip_byte b'/' t))
    go [] = unfold front_byte skip_byte before in tt
    go (x ∷ t) =
        unfold front_byte skip_byte before in
        ground (arith, before-Free (codes " #?") t, before-Free (codes " #?") (x ∷ t))

read_port-lt : (p : Protocol) (t : Text) {n : ℕ} → read_port p t ≡ port n → n < 65536
unfolding read_port
read_port-lt http [] e = ground arith
read_port-lt https [] e = ground arith
read_port-lt unknown [] e = ground arith
read_port-lt p (c ∷ t) e = ground arith

split_scheme-cases :
    (s : Text) {p r : Text}
    → split_scheme s ≡ some (p, r)
    → (p ≡ codes "https") ⊎ ((p ≡ codes "http") ⊎ (p ≡ codes "ftp"))
unfolding split_scheme
split_scheme-cases s e = ground arith

-- What a successful scan has found.
scan-eq-some :
    (s : Text) {c : Captures}
    → scan s ≡ some c
    → (p : Text) × (r : Text) × (split_scheme s ≡ some (p, r))
      × (c ≡ captures p r)
      × (starts_host r ≡ true)
      × (contains blank s ≡ false)
unfolding scan
scan-eq-some s {c} e = elim (Bool-cases (contains blank s)) [
  | inl b ↦ ground arith
  | inr b ↦ go b (split_scheme s) refl (rw b at e)
]
  where
    go :
        (contains blank s ≡ false)
        → (o : Option (Text × Text)) → split_scheme s ≡ o
        → scan_parts o ≡ some c
        → (p : Text) × (r : Text) × (split_scheme s ≡ some (p, r))
          × (c ≡ captures p r)
          × (starts_host r ≡ true)
          × (contains blank s ≡ false)
    go b none e q = cc
    go b (some (p, r)) e q = elim (Bool-cases (starts_host r)) [
      | inl h ↦ (p, r, e, ground arith, h, b)
      | inr h ↦ ground arith
    ]

with_port-eq-parsed :
    (s : Text) (p : Protocol) (c : Captures) (r : PortResult) {u : Url}
    → with_port s p c r ≡ parsed u
    → (n : ℕ) × (r ≡ port n) × (u ≡ copy (fill s p n c))
with_port-eq-parsed s p c (port n) e = (n, refl, ground arith)
with_port-eq-parsed s p c outside e = cc
with_port-eq-parsed s p c (stoi_threw x) e = cc

module _ (s : Text) (p : Protocol) (supported : p ≢ unknown) (name r : Text) where
  finish-IsParsed :
      {u : Url}
      → starts_host r ≡ true
      → contains blank (c_str s) ≡ false
      → finish s p (captures name r) ≡ parsed u
      → IsParsed s u
  unfolding finish
  finish-IsParsed h b e =
      let (n, q, v) = with_port-eq-parsed s p (captures name r) _ e in rw v (filled n q)
    where
      filled :
          (n : ℕ)
          → read_port p (what (captures name r) 3) ≡ port n
          → IsParsed s (copy (fill s p n (captures name r)))
      filled n q =
          unfold copy fill captures query_text in
          record {
            string_kept = refl;
            supported = supported;
            port_in_range = read_port-lt p _ q;
            fragment_lost = refl;
            host_some = host-starts_host r h;
            host_free = unfold host in before-Free _ r;
            path_free = path_text-Free r;
            query_free = before-Free _ _;
            no_blank = b;
          }

module _ (b : Boost) (lawful : IsBoost b) where
  matched-IsParsed :
      (s name r : Text) {u : Url}
      → (name ≡ codes "https") ⊎ ((name ≡ codes "http") ⊎ (name ≡ codes "ftp"))
      → starts_host r ≡ true
      → contains blank (c_str s) ≡ false
      → matched b s (captures name r) ≡ parsed u
      → IsParsed s u
  matched-IsParsed s name r (inl n) h k e =
      finish-IsParsed s https (λ x. cc) name r h k
        (rw (matched-https b lawful s (captures name r) (unfold captures in n)) at e)
  matched-IsParsed s name r (inr (inl n)) h k e =
      finish-IsParsed s http (λ x. cc) name r h k
        (rw (matched-http b lawful s (captures name r) (unfold captures in n)) at e)
  matched-IsParsed s name r (inr (inr n)) h k e =
      ground (arith, matched-ftp b lawful s (captures name r) (unfold captures in n))

  -- For a Boost that behaves as documented, a url that `Parse` returns keeps its string, has a
  -- supported protocol, a port below 65536 and a host without slash, colon or blank; its path and
  -- query end where the pattern says; the string up to a NUL has no blank; and its fragment is
  -- always empty.
  pub parse-IsParsed : (s : Text) {u : Url} → parse b s ≡ parsed u → IsParsed s u
  parse-IsParsed [] e = unfold parse in ground arith
  parse-IsParsed (x ∷ s) {u} e = match (b.regex_match url_regex (c_str (x ∷ s))) refl
    where
      scanned :
          (o : Option Captures)
          → scan (c_str (x ∷ s)) ≡ o
          → parse b (x ∷ s) ≡ after_match b (x ∷ s) (found o)
          → IsParsed (x ∷ s) u
      scanned none k q = ground arith
      scanned (some c) k q =
          let (name, r, i, f, h, j) = scan-eq-some _ k in
          matched-IsParsed (x ∷ s) name r (split_scheme-cases _ i) h j (sym (rw f at q) ∙ e)

      match : (m : Matching) → b.regex_match url_regex (c_str (x ∷ s)) ≡ m → IsParsed (x ∷ s) u
      match (found o) q = scanned _ refl (parse-scan b lawful x s o q)
      match too_complex q = unfold parse in ground arith
