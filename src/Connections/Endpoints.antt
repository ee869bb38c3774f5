-- ===== src/Connections/Endpoints.antt =====
-- lib/connections.js: `parseEndpoint` and `parseEndpointList`. The parsers of Node.js, `net.isIP` and
-- `URL`, are parameters: whatever they answer, the code around them is as here.
use Prim.Native.Char.{Char, code}
use node_red_contrib_bull.Prelude.{
  String, Bool, true, false, not, ◌&&◌, ◌||◌, List, [], ◌∷◌, ◌++◌, map, Option, none, some, ◌<>◌,
  ◌==◌, leb, str_eq, if◌then◌else◌,
}
use node_red_contrib_bull.Js.Text.{trim, is_prefix, split_list}
use node_red_contrib_bull.Js.Number.{Number}
use node_red_contrib_bull.Js.Value.{
  Value, str, arr, Result, ok, ◌>>=◌, throw, is_present, is_object, or_value, to_string, items,
}
use node_red_contrib_bull.Js.Objects.{get}
use node_red_contrib_bull.Connections.Coercions.{to_port}

pub record Endpoint : Type 0 where
  pub host : String
  pub port : Number

-- The parts of a URL object that the code reads.
pub record Url : Type 0 where
  pub protocol : String
  pub username : String
  pub password : String
  pub hostname : String
  pub port : String

-- `isIP(text)` as a truth value, and `new URL(text)`, `none` where it throws.
pub record NodeParsers : Type 0 where
  pub is_ip : String → Bool
  pub parse_url : String → Option Url

is_letter : Char → Bool
is_letter c = let n = code c in (leb b'a' n && leb n b'z') || (leb b'A' n && leb n b'Z')

is_scheme_char : Char → Bool
unfolding is_letter
is_scheme_char c =
    let n = code c in
    is_letter c || (leb b'0' n && leb n b'9') || n == b'+' || n == b'.' || n == b'-'

scheme_rest : String → Bool
scheme_rest String.[] = false
scheme_rest (String.◌∷◌ c s) =
    is_prefix "://" (String.◌∷◌ c s) || (is_scheme_char c && scheme_rest s)

-- `/^[a-z][a-z\d+.-]*:\/\//i.test(text)`
unfoldable pub has_scheme : String → Bool
unfolding scheme_rest is_scheme_char is_letter is_prefix
has_scheme String.[] = false
has_scheme (String.◌∷◌ c s) = is_letter c && scheme_rest s

drop_close : String → String
drop_close String.[] = String.[]
drop_close (String.◌∷◌ c String.[]) = if code c == b']' then String.[] else String.◌∷◌ c String.[]
drop_close (String.◌∷◌ c (String.◌∷◌ d s)) = String.◌∷◌ c (drop_close (String.◌∷◌ d s))

drop_open : String → String
drop_open String.[] = String.[]
drop_open (String.◌∷◌ c s) = if code c == b'[' then s else String.◌∷◌ c s

-- `hostname.replace(/^\[|\]$/g, "")`
unfoldable pub strip_brackets : String → String
unfolding drop_close drop_open
strip_brackets s = drop_close (drop_open s)

-- The endpoint is written as an object.
unfoldable pub parse_endpoint_object : Value → Number → Result Endpoint
parse_endpoint_object endpoint default_port =
    let host = or_value (get "host" endpoint) (get "address" endpoint) in
    if not (is_present host) then throw "Redis endpoint requires a host" else do
      port ← to_port (get "port" endpoint) default_port "Redis"
      ok (record { host = trim (to_string host); port = port })

abbrev pub bool_eq : Bool → Bool → Bool
bool_eq true b = b
bool_eq false b = not b

-- An explicit scheme must agree with the TLS setting, where there is one.
abbrev pub check_scheme : Bool → Option Bool → String → Url → Result (Unit {0})
check_scheme false tls tls_name url = ok tt
check_scheme true none tls_name url = ok tt
check_scheme true (some tls) tls_name url =
    let secure = str_eq url.protocol "rediss:" in
    if bool_eq secure tls
    then ok tt
    else throw (
        url.protocol
        <> "// endpoint requires "
        <> tls_name
        <> " to be "
        <> (if secure then "enabled" else "disabled"))

unfoldable pub endpoint_of_url :
    String → Bool → Number → Option Bool → String → Option Url → Result Endpoint
endpoint_of_url text has default_port tls tls_name none = throw ("Invalid Redis endpoint: " <> text)
endpoint_of_url text has default_port tls tls_name (some url) =
    if not (str_eq url.protocol "redis:") && not (str_eq url.protocol "rediss:")
    then throw ("Unsupported Redis endpoint protocol: " <> url.protocol)
    else if not (str_eq url.username "") || not (str_eq url.password "")
    then throw
        "Redis endpoint URLs cannot include credentials; use the config node credential fields"
    else check_scheme has tls tls_name url >>= λ _.
        if str_eq (strip_brackets url.hostname) ""
        then throw ("Redis endpoint requires a host: " <> text)
        else to_port (str url.port) default_port "Redis" >>= λ port.
            ok (record { host = strip_brackets url.hostname; port = port })

module _ (node : NodeParsers) where
  unfoldable pub parse_endpoint_text : String → Number → Option Bool → String → Result Endpoint
  parse_endpoint_text text default_port tls tls_name =
      let has = has_scheme text in
      if str_eq text ""
      then throw "Redis endpoint cannot be empty"
      else if node.is_ip text
      then ok (record { host = text; port = default_port })
      else endpoint_of_url text has default_port tls tls_name
          (node.parse_url (if has then text else "redis://" <> text))

  unfoldable pub parse_endpoint : Value → Number → Option Bool → String → Result Endpoint
  parse_endpoint endpoint default_port tls tls_name =
      if is_object endpoint
      then parse_endpoint_object endpoint default_port
      else parse_endpoint_text (trim (to_string (or_value endpoint (str "")))) default_port tls
          tls_name

  -- `.map((item) => parseEndpoint(item, …))`: the first endpoint that is refused refuses the list.
  unfoldable pub parse_all : List Value → Number → Option Bool → String → Result (List Endpoint)
  parse_all [] default_port tls tls_name = ok []
  parse_all (v ∷ vs) default_port tls tls_name = do
    e ← parse_endpoint v default_port tls tls_name
    es ← parse_all vs default_port tls tls_name
    ok (e ∷ es)

  abbrev pub keep : (Value → Bool) → List Value → List Value
  keep p [] = []
  keep p (v ∷ vs) = if p v then v ∷ keep p vs else keep p vs

  -- `typeof item === "string" ? item.split(/[\n,]+/) : [item]`
  abbrev pub split_item : Value → List Value
  split_item (str s) = map str (split_list s)
  split_item v = v ∷ []

  abbrev pub split_items : List Value → List Value
  split_items [] = []
  split_items (v ∷ vs) = split_item v ++ split_items vs

  -- `filter(Boolean)` of trimmed texts.
  abbrev pub trimmed_parts : List String → List Value
  trimmed_parts [] = []
  trimmed_parts (s ∷ ss) =
      if str_eq (trim s) "" then trimmed_parts ss else str (trim s) ∷ trimmed_parts ss

  abbrev pub endpoint_values : Value → List Value
  endpoint_values (arr vs) = keep is_present (split_items (items vs))
  endpoint_values v = if is_present v then trimmed_parts (split_list (to_string v)) else []

  unfoldable pub parse_endpoint_list :
      Value → Number → Option Bool → String → Result (List Endpoint)
  parse_endpoint_list value default_port tls tls_name =
      parse_all (endpoint_values value) default_port tls tls_name
