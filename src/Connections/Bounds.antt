-- ===== src/Connections/Bounds.antt =====
-- Ports, pool sizes and endpoints of lib/connections.js: what is accepted is within its bounds.
use node_red_contrib_bull.Prelude.{
  ℕ, ◌≤◌, String, ◌≡◌, Bool, false, ◌||◌, List, [], ◌∷◌, Option, none, some, arith, All, inl, inr,
  subst, ◌⊎◌, ap,
}
use node_red_contrib_bull.Js.Number.{Number, nat, is_above}
use node_red_contrib_bull.Js.Number.Whole.{IsWhole, IsWhole-checks, whole-at_most}
use node_red_contrib_bull.Js.Value.{Value, ok, ◌>>=◌, to_number}
use node_red_contrib_bull.Js.Results.{
  Returns, returned, thrown, Returns-if, Returns->>=, Returns-bind,
}
use node_red_contrib_bull.Connections.Coercions.{
  to_port, not_whole_from, to_pool_max, default_pool_max,
}
use node_red_contrib_bull.Connections.Endpoints.{
  Endpoint, Url, NodeParsers, parse_endpoint_object, endpoint_of_url, parse_endpoint_text,
  parse_endpoint, parse_all, parse_endpoint_list, endpoint_values,
}

-- A TCP port: a whole number from 1 to 65535.
pub record IsPort (n : Number) : Type 0 where
  pub whole : IsWhole 1 n
  pub at_most : whole.value ≤ 65535

IsPort-checks : (n : Number) → (not_whole_from 1 n || is_above n 65535) ≡ false → IsPort n
IsPort-checks n h =
    let whole = IsWhole-checks 0 n (ground arith) (ground arith) in
    record { whole = whole; at_most = whole-at_most 1 65535 n whole (ground arith) }

to_port_cases :
    (value : Value) (default_value n : Number) (label : String)
    → to_port value default_value label ≡ ok n
    → (default_value ≡ n)
      ⊎ (((not_whole_from 1 (to_number value) || is_above (to_number value) 65535) ≡ false)
          × (to_number value ≡ n))
unfolding to_port
to_port_cases value default_value n label h = ground arith

-- A port that is accepted is a whole number from 1 to 65535, or the default.
pub to_port-IsPort :
    (value : Value) (default_value n : Number) (label : String)
    → IsPort default_value
    → to_port value default_value label ≡ ok n
    → IsPort n
unfolding to_port
to_port-IsPort value default_value n label d h =
    elim (to_port_cases value default_value n label h) [
      | inl same ↦ subst IsPort same d
      | inr (checked, same) ↦ subst IsPort same (IsPort-checks (to_number value) checked)
    ]

pub nat-IsPort : (n : ℕ) → 1 ≤ n → n ≤ 65535 → IsPort (nat n)
nat-IsPort n least most = record {
  whole = record { value = n; scale = 0; shape = ap nat (omega arith); at_least = least };
  at_most = most;
}

to_pool_max_cases :
    (value : Value) (n : Number)
    → to_pool_max value ≡ ok n
    → (nat default_pool_max ≡ n)
      ⊎ ((not_whole_from 1 (to_number value) ≡ false) × (to_number value ≡ n))
unfolding to_pool_max
to_pool_max_cases value n h = ground arith

-- A pool maximum that is accepted is a whole number from 1 on.
pub to_pool_max-IsWhole : (value : Value) (n : Number) → to_pool_max value ≡ ok n → IsWhole 1 n
to_pool_max-IsWhole value n h = elim (to_pool_max_cases value n h) [
  | inl same ↦
      subst (IsWhole 1) same ((nat-IsPort default_pool_max (omega arith) (omega arith)).whole)
  | inr (checked, same) ↦
      subst (IsWhole 1) same (IsWhole-checks 0 (to_number value) (ground arith) (ground arith))
]

abbrev pub HasPort : Endpoint → Type 0
HasPort e = IsPort e.port

-- The last step of each parser: an endpoint with a port that is read or the default.
read_port-HasPort :
    (host : String) (value : Value) (d : Number)
    → IsPort d
    → Returns HasPort (to_port value d "Redis" >>= λ port. ok (record { host = host; port = port }))
read_port-HasPort host value d default =
    Returns->>= (to_port value d "Redis")
      (λ n read. returned (to_port-IsPort value d n "Redis" default read))

parse_endpoint_object-HasPort :
    (v : Value) (d : Number) → IsPort d → Returns HasPort (parse_endpoint_object v d)
unfolding parse_endpoint_object
parse_endpoint_object-HasPort v d default = search (Returns-if, thrown, read_port-HasPort)

endpoint_of_url-HasPort :
    (text : String) (has : Bool) (d : Number) (tls : Option Bool) (name : String) (url : Option Url)
    → IsPort d
    → Returns HasPort (endpoint_of_url text has d tls name url)
unfolding endpoint_of_url
endpoint_of_url-HasPort text has d tls name none default = thrown
endpoint_of_url-HasPort text has d tls name (some url) default =
    search (Returns-if, thrown, Returns->>=, read_port-HasPort) depth 9

module _ (node : NodeParsers) where
  parse_endpoint_text-HasPort :
      (text : String) (d : Number) (tls : Option Bool) (name : String)
      → IsPort d
      → Returns HasPort (parse_endpoint_text node text d tls name)
  unfolding parse_endpoint_text
  parse_endpoint_text-HasPort text d tls name default =
      search (Returns-if, thrown, returned, endpoint_of_url-HasPort)

  parse_endpoint-HasPort :
      (v : Value) (d : Number) (tls : Option Bool) (name : String)
      → IsPort d
      → Returns HasPort (parse_endpoint node v d tls name)
  unfolding parse_endpoint
  parse_endpoint-HasPort v d tls name default =
      search (Returns-if, parse_endpoint_object-HasPort, parse_endpoint_text-HasPort)

  parse_all-HasPort :
      (vs : List Value) (d : Number) (tls : Option Bool) (name : String)
      → IsPort d
      → Returns (All HasPort) (parse_all node vs d tls name)
  unfolding parse_all
  parse_all-HasPort [] d tls name default = returned tt
  parse_all-HasPort (v ∷ vs) d tls name default =
      Returns-bind (parse_endpoint-HasPort v d tls name default)
        (λ e p. Returns-bind (parse_all-HasPort vs d tls name default) (λ es ps. returned (p, ps)))

  -- Every endpoint of a list that is accepted has a port from 1 to 65535, if the default is one.
  pub parse_endpoint_list-HasPort :
      (value : Value) (d : Number) (tls : Option Bool) (name : String)
      → IsPort d
      → Returns (All HasPort) (parse_endpoint_list node value d tls name)
  unfolding parse_endpoint_list
  parse_endpoint_list-HasPort value d tls name default =
      parse_all-HasPort (endpoint_values node value) d tls name default
