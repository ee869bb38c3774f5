-- ===== src/Connections/Urls.antt =====
-- `parseEndpoint` of lib/connections.js on a text that is no IP address: what the URL may be.
use node_red_contrib_bull.Prelude.{
  String, ◌≡◌, refl, Bool, true, false, not, ◌&&◌, ◌||◌, Option, none, some, arith, str_eq,
  str_eq_iff, if◌then◌else◌, ◌<>◌, ◌≢◌,
}
use node_red_contrib_bull.Js.Number.{Number}
use node_red_contrib_bull.Js.Value.{str, ok}
use node_red_contrib_bull.Js.Results.{
  Returns, returned, thrown, Returns-at, Returns-if, Returns-test, Returns->>=,
}
use node_red_contrib_bull.Connections.Coercions.{to_port}
use node_red_contrib_bull.Connections.Endpoints.{
  Endpoint, Url, NodeParsers, has_scheme, strip_brackets, bool_eq, check_scheme, endpoint_of_url,
  parse_endpoint_text,
}

-- The URL from which an endpoint is taken, when the TLS setting is `tls`.
pub record IsSource (has tls : Bool) (parsed : Option Url) (e : Endpoint) : Type 0 where
  pub url : Url
  pub read : parsed ≡ some url
  pub no_username : url.username ≡ ""
  pub no_password : url.password ≡ ""
  pub scheme_agrees : (not has || bool_eq (str_eq url.protocol "rediss:") tls) ≡ true
  pub host_read : e.host ≡ strip_brackets url.hostname
  pub has_host : e.host ≢ ""

scheme_checked :
    (has tls : Bool) (name : String) (url : Url) (u : Unit {0})
    → check_scheme has (some tls) name url ≡ ok u
    → (not has || bool_eq (str_eq url.protocol "rediss:") tls) ≡ true
scheme_checked false tls name url u h = refl
scheme_checked true tls name url u h = ground arith

IsSource-of :
    (text : String) (has tls : Bool) (d : Number) (name : String) (parsed : Option Url)
    → Returns (IsSource has tls parsed) (endpoint_of_url text has d (some tls) name parsed)
unfolding endpoint_of_url
IsSource-of text has tls d name none = thrown
IsSource-of text has tls d name (some url) =
    Returns-if (not (str_eq url.protocol "redis:") && not (str_eq url.protocol "rediss:")) thrown (
      Returns-test (not (str_eq url.username "") || not (str_eq url.password "")) (λ _. thrown)
        (λ clean. Returns->>= (check_scheme has (some tls) name url) (λ u checked.
          Returns-test (str_eq (strip_brackets url.hostname) "") (λ _. thrown)
            (λ host. Returns->>= (to_port (str url.port) d "Redis") (λ port _. returned (record {
              url = url;
              read = refl;
              no_username = ground (arith, str_eq_iff url.username "");
              no_password = ground (arith, str_eq_iff url.password "");
              scheme_agrees = scheme_checked has tls name url u checked;
              host_read = refl;
              has_host = ground (arith, str_eq_iff (strip_brackets url.hostname) "");
            }))))))

-- An endpoint accepted from a text that is no IP address, when TLS is set on or off, is that of a URL
-- without a user name and a password, with a host, and where the text has a scheme of its own, it is
-- `rediss:` exactly if TLS is on.
pub parse_endpoint_text-IsSource :
    (node : NodeParsers) (text : String) (d : Number) (tls : Bool) (name : String) (e : Endpoint)
    → node.is_ip text ≡ false
    → parse_endpoint_text node text d (some tls) name ≡ ok e
    → IsSource
        (has_scheme text)
        tls
        (node.parse_url (if has_scheme text then text else "redis://" <> text))
        e
unfolding parse_endpoint_text
parse_endpoint_text-IsSource node text d tls name e no_address h =
    Returns-at e
      (Returns-if (str_eq text "") thrown
        (Returns-test (node.is_ip text) (λ address. ground arith) (λ _. IsSource-of _ _ _ _ _ _)))
      h
