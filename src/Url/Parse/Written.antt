-- ===== src/Url/Parse/Written.antt =====
-- The urls that are written from their parts, and the scanning of a text that is put together.
use mile_csa_jsonrpc_client.Base.{
  ℕ, ◌≡◌, refl, Bool, true, false, Option, none, some, [], ◌∷◌, ◌++◌,
}
use mile_csa_jsonrpc_client.Base.{Text, codes, contains, arith}
use mile_csa_jsonrpc_client.Effects.{not_supported}
use mile_csa_jsonrpc_client.Regex.Laws.{before, after}
use mile_csa_jsonrpc_client.Url.Scan.{starts_host}
use mile_csa_jsonrpc_client.Url.Scan.{blank}
use mile_csa_jsonrpc_client.Url.Parse.{of_stoi}
use mile_csa_jsonrpc_client.Url.Parse.{Url, Protocol, http, https, Outcome, parsed, refused}
use mile_csa_jsonrpc_client.Url.Parse.{PortResult, port, outside, stoi_threw, threw, c_str}

-- No byte of the text is in the class.
abbrev pub Free : Text → Text → Type 0
Free cls [] = Unit {0}
Free cls (x ∷ s) = (contains x cls ≡ false) × Free cls s

-- The text ends, or goes on with a byte of the class.
abbrev pub stops : Text → Text → Bool
stops cls [] = true
stops cls (x ∷ s) = contains x cls

pub before-append : (cls m s : Text) → Free cls m → stops cls s ≡ true → before cls (m ++ s) ≡ m
unfolding before
before-append cls [] [] f e = refl
before-append cls [] (x ∷ s) f e = rw (e, before)
before-append cls (x ∷ m) s f e = rw (f.0, before, before-append cls m s f.1 e)

pub after-append : (cls m s : Text) → Free cls m → stops cls s ≡ true → after cls (m ++ s) ≡ s
unfolding after
after-append cls [] [] f e = refl
after-append cls [] (x ∷ s) f e = rw (e, after)
after-append cls (x ∷ m) s f e = rw (f.0, after, after-append cls m s f.1 e)

pub c_str-id : (s : Text) → contains 0 s ≡ false → c_str s ≡ s
unfolding c_str
c_str-id [] h = refl
c_str-id (x ∷ s) h = ground (arith, c_str-id s)

-- The parts of a url with a path: a port text that is empty is not written.
pub record Parts : Type 0 where
  pub secure : Bool
  pub host_name : Text
  pub port_digits : Text
  pub file : Text
  pub query_part : Option Text
  pub anchor : Option Text

abbrev pub scheme_name : Bool → Text
scheme_name true = codes "https"
scheme_name false = codes "http"

abbrev pub protocol_name : Bool → Protocol
protocol_name true = https
protocol_name false = http

abbrev pub marked : ℕ → Option Text → Text
marked c none = []
marked c (some s) = c ∷ s

abbrev pub colon_port : Text → Text
colon_port [] = []
colon_port (c ∷ s) = b':' ∷ (c ∷ s)

abbrev pub or_empty : Option Text → Text
or_empty none = []
or_empty (some s) = s

module _ (u : Parts) where
  open u use {secure, host_name, port_digits, file, query_part, anchor}

  abbrev pub from_query : Text
  from_query = marked 0x3f query_part ++ marked b'#' anchor

  abbrev pub from_path : Text
  from_path = b'/' ∷ (file ++ from_query)

  abbrev pub from_host : Text
  from_host = host_name ++ (colon_port port_digits ++ from_path)

  -- The text of the url.
  abbrev pub compose : Text
  compose = scheme_name secure ++ (codes "://" ++ from_host)

  pub record IsWellFormed : Type 0 where
    pub host_some : starts_host host_name ≡ true
    pub host_free : Free (codes "/ :") host_name
    pub port_free : Free (codes "/ ") port_digits
    pub file_free : Free (codes " #?") file
    pub query_free : Free (codes " #") (or_empty query_part)
    pub no_blank : contains blank compose ≡ false
    pub no_nul : contains 0 compose ≡ false

  -- The object that `Parse` returns once the port is read.
  abbrev pub url_of : ℕ → Url
  url_of n = record {
    url_string = compose;
    protocol = protocol_name secure;
    domain = host_name;
    port = n;
    path = b'/' ∷ file;
    query = or_empty query_part;
    fragment = [];
  }

-- The outcome, from that of reading the port.
abbrev pub outcome_of : Parts → PortResult → Outcome
outcome_of u (port n) = parsed (url_of u n)
outcome_of u outside = refused not_supported "Url port number %s is out of range"
outcome_of u (stoi_threw e) = threw (of_stoi e)
