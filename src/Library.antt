-- ===== src/Library.antt =====
-- The libraries that the package calls, as calls on objects that the libraries own.
use node_red_contrib_bull.Prelude.{String, List, [], ◌∷◌}
use node_red_contrib_bull.Js.Value.{
  Value, Items, nil, cons, arr, str, failure, type_error, Result, ok, err, items,
}
use node_red_contrib_bull.Js.Program.{Program, call, done}

-- The object that a method is called on; a job is named by the value that BullMQ gave for it.
pub data Target : Type 0 where
  queue worker flow_producer : Target
  job : Value → Target

-- A call of a method; or the properties of a library's object read again, after a method that may
-- have changed them.
pub data Call : Type 0 where
  invoke : Target → String → List Value → Call
  look : Value → Call

-- Code that calls the libraries; a promise that rejects is a reply that throws.
abbrev pub Action : Type 0 → Type 0
Action A = Program Call (Result Value) A

-- `await target.method(...args)`
abbrev pub ask : Target → String → List Value → Action Value
ask target method args = call (invoke target method args) done

abbrev pub look_again : Value → Action Value
look_again v = call (look v) done

abbrev pub not_iterable : Value
not_iterable = failure type_error "value is not iterable"

chars : String → List Value
chars String.[] = []
chars (String.◌∷◌ c s) = str (String.◌∷◌ c String.[]) ∷ chars s

-- The elements that `for … of` and argument spread visit.
unfoldable pub iterate : Value → Result (List Value)
unfolding chars
iterate (arr vs) = ok (items vs)
iterate (str s) = ok (chars s)
iterate _ = err not_iterable

abbrev pub map_items : (Value → Value) → Items → Items
map_items f nil = nil
map_items f (cons v vs) = cons (f v) (map_items f vs)

-- `value.map(f)`
unfoldable pub map_array : (Value → Value) → Value → Result Value
map_array f (arr vs) = ok (arr (map_items f vs))
map_array f _ = err (failure type_error "value.map is not a function")
