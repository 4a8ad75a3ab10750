-- ===== src/HttpDoor/Reading.antt =====
-- asp/http_x402.py: what the door reads from a request.
use merita.Prelude.{
  ℕ, zero, suc, String, Bool, true, false, not, Option, none, some, List, [], ◌∷◌, if◌then◌else◌,
  ◌==◌,
}
use merita.Prelude.Int.{pos}
use merita.Prelude.Float.{fin}
use merita.Json.{Json, null, str, float, arr, obj, Items, nil, cons, Fields, end, field, lookup}

-- The headers, with names in lower case as ASGI delivers them; whether the body is empty, and its
-- decoded value, `none` where it is no JSON.
pub record Request : Type 0 where
  pub headers : List (String × String)
  pub body : Option Json

-- `headers.get(name)`
unfoldable pub header : String → List (String × String) → Option String
header name [] = none
header name ((k, v) ∷ hs) = if k == name then some v else header name hs

-- `_PAYMENT_HEADERS`
abbrev pub payment_headers : List String
payment_headers =
    "payment-signature" ∷ "x-payment-signature" ∷ "x-payment" ∷ "payment"
    ∷ "x-payment-authorization" ∷ "authorization-payment" ∷ "x-402-payment" ∷ "x402-payment"
    ∷ "payment-authorization" ∷ []

abbrev given : Option String → Bool
given none = false
given (some v) = not (v == "")

-- the first name, in the list's order, under which a value is given
unfoldable pub first_given : List String → List (String × String) → Option String
unfolding header
first_given [] hs = none
first_given (name ∷ names) hs =
    if given (header name hs) then header name hs else first_given names hs

unfoldable pub payment_header : Request → Option String
unfolding first_given
payment_header r = first_given payment_headers r.headers

-- the body as a dictionary
unfoldable pub body_of : Request → Json
body_of r = elim r.body [
  | none ↦ obj end
  | some j ↦ elim j [ obj d ↦ obj d | other ↦ obj (field "_nondict" other end) ]
]

abbrev is_null : Json → Bool
is_null null = true
is_null _ = false

abbrev is_blank : Json → Bool
is_blank null = true
is_blank (str s) = s == ""
is_blank _ = false

abbrev or_found : Json → Json → Json
or_found a b = if is_null a then b else a

-- the first of the keys that the object holds with a value
unfoldable pub first_key : List String → Fields → Option Json
unfolding lookup
first_key [] d = none
first_key (k ∷ keys) d = elim (lookup k d) [
  | none ↦ first_key keys d
  | some v ↦ if is_blank v then first_key keys d else some v
]

-- the loop over `obj.values()`, with the search one level down
unfoldable pub dig_items : (Json → Json) → Items → Json
dig_items deeper nil = null
dig_items deeper (cons v rest) = or_found (deeper v) (dig_items deeper rest)

unfoldable pub dig_nested : (Json → Json) → Json → Json
unfolding dig_items
dig_nested deeper (obj d) = deeper (obj d)
dig_nested deeper (arr xs) = dig_items deeper xs
dig_nested deeper _ = null

unfoldable pub dig_values : (Json → Json) → Fields → Json
unfolding dig_nested
dig_values deeper end = null
dig_values deeper (field k v rest) = or_found (dig_nested deeper v) (dig_values deeper rest)

-- `_dig`: the levels that are left stand for `_depth`; null where nothing is found
unfoldable pub dig : List String → ℕ → Json → Json
unfolding first_key dig_values
dig keys zero v = null
dig keys (suc n) (obj d) = elim (first_key keys d) [ some v ↦ v | none ↦ dig_values (dig keys n) d ]
dig keys (suc n) _ = null

-- the depth at which `_dig` starts: `_depth` 0 to 6 are searched
abbrev pub levels : ℕ
levels = 7

abbrev pub demo_test : String
demo_test =
    "def check(output):\n    # the deliverable must report a positive numeric price\n    p = output.get('price_usd')\n    return isinstance(p, (int, float)) and p > 0\n"

abbrev pub demo_deliverable : Json
demo_deliverable = obj (field "price_usd" (float (fin (pos 285) 1)) end)
