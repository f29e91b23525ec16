-- ===== src/Tests/Urls.antt =====
-- `Url::Parse` at concrete urls.
use mile_csa_jsonrpc_client.Base.{
  Text, contains, Bool, not, ◌&&◌, ◌∷◌, arith, ◌≡◌, refl, true, some, [], codes,
}
use mile_csa_jsonrpc_client.Url.Number.{stoi}
use mile_csa_jsonrpc_client.Url.Pattern.{url_regex}
use mile_csa_jsonrpc_client.Url.Parse.{Url, https, parsed, parse, perl, IsBoost, read_port}
use mile_csa_jsonrpc_client.Regex.{backtrack}
use mile_csa_jsonrpc_client.Url.Scan.{starts_host, scan}
use mile_csa_jsonrpc_client.Url.Scan.Equivalence.{backtrack-scan}
use mile_csa_jsonrpc_client.Url.Parse.Written.{Free, Parts, IsWellFormed}
use mile_csa_jsonrpc_client.Url.Parse.RoundTrip.{parse-compose}
use mile_csa_jsonrpc_client.Url.Parse.Invariant.{IsParsed, parse-IsParsed}

perl-IsBoost : IsBoost perl
perl-IsBoost = record { match_order = λ r s o e. cc; upper_case = λ s a. refl }

abbrev are_absent : Text → Text → Bool
are_absent cls [] = true
are_absent cls (x ∷ s) = not (contains x cls) && are_absent cls s

are_absent-Free : (cls s : Text) → are_absent cls s ≡ true → Free cls s
are_absent-Free cls [] e = tt
are_absent-Free cls (x ∷ s) e = (ground arith, are_absent-Free cls s (ground arith))

abbrev node_parts : Parts
node_parts = record {
  secure = true;
  host_name = codes "node.mile";
  port_digits = codes "8080";
  file = codes "v1/api";
  query_part = some (codes "a=1");
  anchor = some (codes "top");
}

node_parts-IsWellFormed : IsWellFormed node_parts
unfolding starts_host
node_parts-IsWellFormed = record {
  host_some = refl;
  host_free = are_absent-Free (codes "/ :") (codes "node.mile") refl;
  port_free = are_absent-Free (codes "/ ") (codes "8080") refl;
  file_free = are_absent-Free (codes " #?") (codes "v1/api") refl;
  query_free = are_absent-Free (codes " #") (codes "a=1") refl;
  no_blank = refl;
  no_nul = refl;
}

-- The url of these parts, as it is read: the anchor is lost.
abbrev node_url : Url
node_url = record {
  url_string = codes "https://node.mile:8080/v1/api?a=1#top";
  protocol = https;
  domain = codes "node.mile";
  port = 8080;
  path = codes "/v1/api";
  query = codes "a=1";
  fragment = [];
}

parse-compose_example : parse perl (codes "https://node.mile:8080/v1/api?a=1#top") ≡ parsed node_url
unfolding read_port stoi
parse-compose_example = parse-compose perl perl-IsBoost node_parts node_parts-IsWellFormed λ e. cc

parse-IsParsed_example : IsParsed (codes "https://node.mile:8080/v1/api?a=1#top") node_url
parse-IsParsed_example =
    parse-IsParsed perl perl-IsBoost (codes "https://node.mile:8080/v1/api?a=1#top")
      parse-compose_example

backtrack-scan_example : backtrack url_regex (codes "http://a/b c") ≡ scan (codes "http://a/b c")
backtrack-scan_example = backtrack-scan (codes "http://a/b c")
