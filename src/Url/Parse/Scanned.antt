-- ===== src/Url/Parse/Scanned.antt =====
-- `Url::Parse` in terms of the scan that its expression performs.
use mile_csa_jsonrpc_client.Base.{ℕ, ◌≡◌, ◌∷◌, Option}
use mile_csa_jsonrpc_client.Url.Pattern.{url_regex}
use mile_csa_jsonrpc_client.Url.Parse.{found}
use mile_csa_jsonrpc_client.Base.{Text, codes, arith}
use mile_csa_jsonrpc_client.Effects.{not_supported}
use mile_csa_jsonrpc_client.Regex.{Captures, what}
use mile_csa_jsonrpc_client.Url.Scan.{scan}
use mile_csa_jsonrpc_client.Url.Scan.Equivalence.{backtrack-scan}
use mile_csa_jsonrpc_client.Url.Parse.{Boost, IsBoost, http, https, refused}
use mile_csa_jsonrpc_client.Url.Parse.{parse, matched, after_match, finish, c_str, upper}

module _ (b : Boost) (lawful : IsBoost b) where
  pub parse-scan :
      (x : ℕ) (s : Text) (o : Option Captures)
      → b.regex_match url_regex (c_str (x ∷ s)) ≡ found o
      → parse b (x ∷ s) ≡ after_match b (x ∷ s) (found (scan (c_str (x ∷ s))))
  unfolding parse
  parse-scan x s o e = rw (parse, e, lawful.match_order url_regex _ o e, backtrack-scan)

  pub matched-http :
      (s : Text) (c : Captures) → what c 1 ≡ codes "http" → matched b s c ≡ finish s http c
  unfolding matched upper
  matched-http s c e = rw (matched, e, lawful.upper_case (codes "http") (omega arith))

  pub matched-https :
      (s : Text) (c : Captures) → what c 1 ≡ codes "https" → matched b s c ≡ finish s https c
  unfolding matched upper
  matched-https s c e = rw (matched, e, lawful.upper_case (codes "https") (omega arith))

  pub matched-ftp :
      (s : Text) (c : Captures)
      → what c 1 ≡ codes "ftp"
      → matched b s c ≡ refused not_supported "Url protocol %s is not supported yet"
  unfolding matched upper
  matched-ftp s c e = rw (matched, e, lawful.upper_case (codes "ftp") (omega arith))
