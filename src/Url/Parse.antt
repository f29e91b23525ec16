-- ===== src/Url/Parse.antt =====
-- The class `Url` and `Url::Parse`.
pub mod Scanned
pub mod Written
pub mod RoundTrip
pub mod Invariant
use mile_csa_jsonrpc_client.Base.{
  ℕ, ◌-◌, ◌<◌, ◌≡◌, Bool, true, false, ◌&&◌, Option, none, some, [], ◌∷◌,
}
use mile_csa_jsonrpc_client.Base.{String, map, leb, ◌==◌, if◌then◌else◌, Text, codes}
use mile_csa_jsonrpc_client.Base.Int.{ℤ, pos, negsuc}
use mile_csa_jsonrpc_client.Effects.{Code, empty, not_supported}
use mile_csa_jsonrpc_client.Regex.{Regex, Captures, what, backtrack}
use mile_csa_jsonrpc_client.Url.Number.{StoiResult, number, invalid_argument, out_of_range, stoi}
use mile_csa_jsonrpc_client.Url.Pattern.{url_regex}

-- `Url::protocol`
pub data Protocol : Type 0 where
  http https unknown : Protocol

pub record Url : Type 0 where
  pub url_string : Text
  pub protocol : Protocol
  pub domain : Text
  pub port : ℕ
  pub path : Text
  pub query : Text
  pub fragment : Text

-- The private constructor from a string.
abbrev pub new : Text → Url
new s = record {
  url_string = s;
  protocol = unknown;
  domain = [];
  port = 0;
  path = [];
  query = [];
  fragment = [];
}

-- The copy constructor: it lists every member but `fragment_`, which is default-initialised.
unfoldable pub copy : Url → Url
copy u = record {
  url_string = u.url_string;
  protocol = u.protocol;
  domain = u.domain;
  port = u.port;
  path = u.path;
  query = u.query;
  fragment = [];
}

-- `operator=`, of the object on the left and the source: `fragment_` is left alone too.
unfoldable pub assign : Url → Url → Url
assign self u = record self {
  url_string = u.url_string;
  protocol = u.protocol;
  domain = u.domain;
  port = u.port;
  path = u.path;
  query = u.query;
}

-- What leaves `Parse`: an exception of `std::stoi`, or the `std::runtime_error` of `regex_match`.
pub data Thrown : Type 0 where
  of_stoi : StoiResult → Thrown
  of_regex : Thrown

-- What a call of `Parse` does: it returns a url, or reports an error and returns `nullopt`, or an
-- exception leaves it.
pub data Outcome : Type 0 where
  parsed : Url → Outcome
  refused : Code → String → Outcome
  threw : Thrown → Outcome

-- A call of `regex_match` that ends, or gives up with an exception because the complexity of the
-- match is too high.
pub data Matching : Type 0 where
  found : Option Captures → Matching
  too_complex : Matching

-- What is used of Boost.
pub record Boost : Type 0 where
  pub regex_match : Regex → Text → Matching
  pub to_upper : Text → Text

-- `toupper` of the "C" locale.
unfoldable pub upper : ℕ → ℕ
upper c = if leb b'a' c && leb c b'z' then c - 32 else c

abbrev pub IsAscii : Text → Type 0
IsAscii [] = Unit {0}
IsAscii (c ∷ s) = (c < 128) × IsAscii s

-- Their documented behaviour: Perl's matching order, if the match is not given up, and `toupper` of each
-- byte of ASCII.
pub record IsBoost (b : Boost) : Type 0 where
  pub match_order :
      (r : Regex) (s : Text) (o : Option Captures) → b.regex_match r s ≡ found o → o ≡ backtrack r s
  pub upper_case : (s : Text) → IsAscii s → b.to_upper s ≡ map upper s

-- `urlString.c_str()`: a C string ends at the first NUL.
unfoldable pub c_str : Text → Text
c_str [] = []
c_str (c ∷ s) = let rest = c_str s in if c == 0 then [] else c ∷ rest

abbrev pub text_eq : Text → Text → Bool
text_eq [] [] = true
text_eq (x ∷ xs) (y ∷ ys) = x == y && text_eq xs ys
text_eq _ _ = false

-- The default port: `switch (url.protocol_)`.
unfoldable pub default_port : Protocol → ℕ
default_port https = 443
default_port _ = 80

-- The test on `port_num` and its conversion.
unfoldable pub port_of_int : ℤ → Option ℕ
port_of_int (pos n) = if leb n 65535 then some n else none
port_of_int (negsuc n) = none

-- `url.port_`, or the way out of `Parse`.
pub data PortResult : Type 0 where
  port : ℕ → PortResult
  outside : PortResult
  stoi_threw : StoiResult → PortResult

abbrev pub port_in_range : Option ℕ → PortResult
port_in_range (some n) = port n
port_in_range none = outside

abbrev pub port_of_stoi : StoiResult → PortResult
port_of_stoi (number z) = port_in_range (port_of_int z)
port_of_stoi invalid_argument = stoi_threw invalid_argument
port_of_stoi out_of_range = stoi_threw out_of_range

unfoldable pub read_port : Protocol → Text → PortResult
unfolding default_port port_of_int
read_port p [] = port (default_port p)
read_port p (c ∷ s) = port_of_stoi (stoi (c ∷ s))

-- The three comparisons of the protocol's name.
unfoldable pub protocol_of : Text → Option Protocol
protocol_of proto =
    if text_eq proto (codes "HTTP")
    then some http
    else if text_eq proto (codes "HTTPS")
    then some https
    else none

-- The members after a match, in the object that `Parse` builds.
unfoldable pub fill : Text → Protocol → ℕ → Captures → Url
fill s p n c = record (new s) {
  protocol = p;
  domain = what c 2;
  port = n;
  path = what c 4;
  query = what c 5;
  fragment = what c 6;
}

-- `std::make_optional(url)` copies.
abbrev pub with_port : Text → Protocol → Captures → PortResult → Outcome
with_port s p c (port n) = parsed (copy (fill s p n c))
with_port s p c outside = refused not_supported "Url port number %s is out of range"
with_port s p c (stoi_threw e) = threw (of_stoi e)

unfoldable pub finish : Text → Protocol → Captures → Outcome
unfolding fill copy
finish s p c = with_port s p c (read_port p (what c 3))

-- The branches on the protocol.
abbrev pub with_protocol : Text → Captures → Option Protocol → Outcome
with_protocol s c (some p) = finish s p c
with_protocol s c none = refused not_supported "Url protocol %s is not supported yet"

module _ (b : Boost) where
  unfoldable pub matched : Text → Captures → Outcome
  unfolding protocol_of
  matched s c = with_protocol s c (protocol_of (b.to_upper (what c 1)))

  -- The branches on `regex_match`.
  abbrev pub after_match : Text → Matching → Outcome
  after_match s (found (some c)) = matched s c
  after_match s (found none) = refused not_supported "Url string format error"
  after_match s too_complex = threw of_regex

  unfoldable pub parse : Text → Outcome
  unfolding matched c_str
  parse [] = refused empty "Url string is empty"
  parse (x ∷ s) = after_match (x ∷ s) (b.regex_match url_regex (c_str (x ∷ s)))

-- An implementation that behaves so, and never gives up.
abbrev pub perl : Boost
perl = record { regex_match = λ r s. found (backtrack r s); to_upper = map upper }
