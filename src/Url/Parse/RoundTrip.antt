-- ===== src/Url/Parse/RoundTrip.antt =====
-- `Url::Parse` of a url that is written from its parts.
use mile_csa_jsonrpc_client.Base.{
  ℕ, ◌≡◌, ◌≢◌, refl, ◌∙◌, Bool, true, false, Option, none, some, [], ◌∷◌, ◌++◌,
}
use mile_csa_jsonrpc_client.Base.{Text, codes, ap}
use mile_csa_jsonrpc_client.Regex.{Captures, what}
use mile_csa_jsonrpc_client.Regex.Laws.{before, after, front_byte, skip_byte}
use mile_csa_jsonrpc_client.Url.Scan.{
  split_scheme, host, after_host, port_text, after_port, path_text,
}
use mile_csa_jsonrpc_client.Url.Scan.{after_path, query_text, captures, starts_host, scan}
use mile_csa_jsonrpc_client.Url.Scan.{scan_parts}
use mile_csa_jsonrpc_client.Url.Pattern.{url_regex}
use mile_csa_jsonrpc_client.Url.Parse.{Matching, found, too_complex}
use mile_csa_jsonrpc_client.Url.Parse.{Boost, IsBoost, parsed}
use mile_csa_jsonrpc_client.Url.Parse.Scanned.{parse-scan, matched-http, matched-https}
use mile_csa_jsonrpc_client.Url.Parse.{
  with_port, PortResult, port, outside, stoi_threw, read_port, parse, matched, finish, c_str,
}
use mile_csa_jsonrpc_client.Url.Parse.{copy, fill}
use mile_csa_jsonrpc_client.Url.Parse.Written.{
  stops, before-append, after-append, c_str-id, Parts, scheme_name, protocol_name, marked,
  colon_port, or_empty, from_path, from_host, compose, IsWellFormed, url_of, outcome_of,
}

scheme_name-ne-nil : (b : Bool) (s : Text) → scheme_name b ++ s ≢ []
scheme_name-ne-nil true s e = cc
scheme_name-ne-nil false s e = cc

compose-ne-nil : (u : Parts) → compose u ≢ []
compose-ne-nil u e = scheme_name-ne-nil u.secure _ e

colon_port-stops : (p s : Text) → stops (codes "/ :") (colon_port p ++ (b'/' ∷ s)) ≡ true
colon_port-stops [] s = refl
colon_port-stops (x ∷ p) s = refl

skip_byte-colon_port : (p s : Text) → skip_byte b':' (colon_port p ++ (b'/' ∷ s)) ≡ p ++ (b'/' ∷ s)
unfolding skip_byte
skip_byte-colon_port [] s = refl
skip_byte-colon_port (x ∷ p) s = refl

marked-stops : (q a : Option Text) → stops (codes " #?") (marked 0x3f q ++ marked b'#' a) ≡ true
marked-stops none none = refl
marked-stops none (some a) = refl
marked-stops (some q) a = refl

anchor-stops : (a : Option Text) → stops (codes " #") (marked b'#' a) ≡ true
anchor-stops none = refl
anchor-stops (some a) = refl

skip_byte-marked :
    (q a : Option Text)
    → skip_byte 0x3f (marked 0x3f q ++ marked b'#' a) ≡ or_empty q ++ marked b'#' a
unfolding skip_byte
skip_byte-marked none none = refl
skip_byte-marked none (some a) = refl
skip_byte-marked (some q) a = refl

split_scheme-name :
    (b : Bool) (r : Text)
    → split_scheme (scheme_name b ++ (codes "://" ++ r)) ≡ some (scheme_name b, r)
unfolding split_scheme
split_scheme-name true r = refl
split_scheme-name false r = refl

starts_host-append : (h s : Text) → starts_host h ≡ true → starts_host (h ++ s) ≡ true
unfolding starts_host
starts_host-append [] s e = cc
starts_host-append (x ∷ h) s e = e

module _ (u : Parts) (w : IsWellFormed u) where
  open u use {secure, host_name, port_digits, file, query_part, anchor}

  host-from_host : host (from_host u) ≡ host_name
  unfolding host
  host-from_host = before-append _ host_name _ w.host_free (colon_port-stops port_digits _)

  after_host-from_host : after_host (from_host u) ≡ port_digits ++ from_path u
  unfolding after_host
  after_host-from_host =
      rw (after-append _ host_name _ w.host_free (colon_port-stops port_digits _))
        (skip_byte-colon_port port_digits _)

  port_text-from_host : port_text (from_host u) ≡ port_digits
  unfolding port_text
  port_text-from_host =
      ap (before (codes "/ ")) after_host-from_host ∙ before-append _ port_digits _ w.port_free refl

  after_port-from_host : after_port (from_host u) ≡ from_path u
  unfolding after_port
  after_port-from_host =
      ap (after (codes "/ ")) after_host-from_host ∙ after-append _ port_digits _ w.port_free refl

  path_text-from_host : path_text (from_host u) ≡ b'/' ∷ file
  unfolding path_text front_byte skip_byte
  path_text-from_host =
      rw after_port-from_host
        (ap (λ t. b'/' ∷ t) (before-append _ file _ w.file_free (marked-stops query_part anchor)))

  after_path-from_host : after_path (from_host u) ≡ or_empty query_part ++ marked b'#' anchor
  unfolding after_path skip_byte
  after_path-from_host = rw after_port-from_host (
      ap (skip_byte 0x3f) (after-append _ file _ w.file_free (marked-stops query_part anchor))
      ∙ skip_byte-marked query_part anchor)

  query_text-from_host : query_text (from_host u) ≡ or_empty query_part
  unfolding query_text
  query_text-from_host =
      rw after_path-from_host
        (before-append _ (or_empty query_part) _ w.query_free (anchor-stops anchor))

  captures-from_host :
      (p : Text)
      → (what (captures p (from_host u)) 1 ≡ p)
        × (what (captures p (from_host u)) 2 ≡ host_name)
        × (what (captures p (from_host u)) 3 ≡ port_digits)
        × (what (captures p (from_host u)) 4 ≡ b'/' ∷ file)
        × (what (captures p (from_host u)) 5 ≡ or_empty query_part)
  unfolding captures
  captures-from_host p =
      (refl, host-from_host, port_text-from_host, path_text-from_host, query_text-from_host)

  scan-compose : scan (compose u) ≡ some (captures (scheme_name secure) (from_host u))
  unfolding scan scan_parts
  scan-compose = rw (
    w.no_blank,
    split_scheme-name secure (from_host u),
    starts_host-append host_name _ w.host_some,
  )

  copy-fill :
      (n : ℕ)
      → copy
          (fill (compose u) (protocol_name secure) n (captures (scheme_name secure) (from_host u)))
        ≡ url_of u n
  unfolding copy fill captures
  copy-fill n = rw (host-from_host, path_text-from_host, query_text-from_host)

  with_port-outcome_of :
      (r : PortResult)
      → with_port (compose u) (protocol_name secure) (captures (scheme_name secure) (from_host u)) r
        ≡ outcome_of u r
  with_port-outcome_of (port n) = ap parsed (copy-fill n)
  with_port-outcome_of outside = refl
  with_port-outcome_of (stoi_threw e) = refl

  finish-from_host :
      finish (compose u) (protocol_name secure) (captures (scheme_name secure) (from_host u))
      ≡ outcome_of u (read_port (protocol_name secure) port_digits)
  unfolding finish captures
  finish-from_host =
      rw port_text-from_host (with_port-outcome_of (read_port (protocol_name secure) port_digits))

module _ (b : Boost) (lawful : IsBoost b) where
  parse-matched :
      (s : Text) (c : Captures)
      → s ≢ []
      → c_str s ≡ s
      → scan s ≡ some c
      → b.regex_match url_regex s ≢ too_complex
      → parse b s ≡ matched b s c
  parse-matched [] c n k e h = absurd (n refl)
  parse-matched (x ∷ s) c n k e h = go (b.regex_match url_regex (x ∷ s)) refl
    where
      go :
          (m : Matching)
          → b.regex_match url_regex (x ∷ s) ≡ m
          → parse b (x ∷ s) ≡ matched b (x ∷ s) c
      go (found o) q = parse-scan b lawful x s o (rw (k, q) refl) ∙ rw (k, e)
      go too_complex q = absurd (h q)

  matched-scheme_name :
      (s r : Text) (secure : Bool)
      → matched b s (captures (scheme_name secure) r)
        ≡ finish s (protocol_name secure) (captures (scheme_name secure) r)
  unfolding captures
  matched-scheme_name s r true = matched-https b lawful s _ refl
  matched-scheme_name s r false = matched-http b lawful s _ refl

  -- For a Boost that behaves as documented, a well-formed http or https url with a path, whose
  -- match is not given up as too complex, is parsed into its parts, the fragment excepted, which is
  -- lost; a port text that is written decides on the port, and if it is no number from 0 to 65535
  -- the outcome is that of reading it.
  pub parse-compose :
      (u : Parts)
      → IsWellFormed u
      → b.regex_match url_regex (compose u) ≢ too_complex
      → parse b (compose u) ≡ outcome_of u (read_port (protocol_name u.secure) u.port_digits)
  parse-compose u w h =
      parse-matched (compose u) _ (compose-ne-nil u) (c_str-id _ w.no_nul) (scan-compose u w) h
      ∙ matched-scheme_name (compose u) (from_host u) u.secure
      ∙ finish-from_host u w
