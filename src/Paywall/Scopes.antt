-- ===== src/Paywall/Scopes.antt =====
-- asp/paywall.py: what the gate reads from the ASGI scope. Header names are compared in lower case,
-- as bytes; header values are texts.
use merita.Prelude.{
  ℕ, String, Bool, false, not, ◌&&◌, ◌||◌, Option, none, some, List, [], ◌∷◌, if◌then◌else◌, ◌==◌,
  codes, lower, codes_eq, prefix_of, contains, any, reverse, eqb,
}

pub record Scope : Type 0 where
  pub kind : String
  pub method : String
  pub path : String
  pub headers : List (String × String)

-- `k.lower() == name`
unfoldable pub is_named : String → String → Bool
unfolding lower
is_named name k = codes_eq (lower (codes k)) (codes name)

abbrev named_any : List String → String → Bool
named_any names k = any (λ n. is_named n k) names

-- the names under which `_payment_header` accepts a payment
unfoldable pub is_payment_name : String → Bool
unfolding is_named
is_payment_name = named_any (
    "payment-signature" ∷ "x-payment-signature" ∷ "x-payment" ∷ "payment"
    ∷ "x-payment-authorization" ∷ "authorization-payment" ∷ "x-402-payment" ∷ "x402-payment"
    ∷ "payment-authorization" ∷ [])

-- the names at which `_looks_like_x402_probe` knows a paid replay
unfoldable pub is_probe_payment_name : String → Bool
unfolding is_named
is_probe_payment_name = named_any (
    "payment-signature" ∷ "x-payment-signature" ∷ "x-payment" ∷ "payment"
    ∷ "x-payment-authorization" ∷ "x-402-payment" ∷ "x402-payment" ∷ "payment-authorization" ∷ [])

unfoldable pub is_x402_name : String → Bool
unfolding is_named
is_x402_name = named_any ("x-402" ∷ "x402-version" ∷ [])

abbrev strip_slashes : List ℕ → List ℕ
strip_slashes [] = []
strip_slashes (c ∷ s) = let rest = strip_slashes s in if eqb c b'/' then rest else c ∷ s

-- `path.rstrip("/").endswith("/mcp")`, read from the end
unfoldable pub is_mcp_path : Scope → Bool
is_mcp_path scope = prefix_of (codes "pcm/") (strip_slashes (reverse (codes scope.path)))

-- `path.startswith("/x402/")`
unfoldable pub is_http_door : Scope → Bool
is_http_door scope = prefix_of (codes "/x402/") (codes scope.path)

-- the first header under `test` with a value
unfoldable pub first_value : (String → Bool) → List (String × String) → Option String
first_value test [] = none
first_value test ((k, v) ∷ hs) = if test k && not (v == "") then some v else first_value test hs

unfoldable pub payment_header : Scope → Option String
unfolding first_value
payment_header scope = first_value is_payment_name scope.headers

-- a header by which a request asks for x402
unfoldable pub signals_x402 : String × String → Bool
unfolding is_x402_name is_named lower contains
signals_x402 (k, v) =
    is_x402_name k || (is_named "accept" k && contains (codes "x402") (lower (codes v)))

unfoldable pub looks_like_x402_probe : Scope → Bool
looks_like_x402_probe scope =
    if not (is_mcp_path scope)
    then false
    else elim (first_value is_probe_payment_name scope.headers) [
      | some v ↦ false
      | none ↦ scope.method == "GET" || any signals_x402 scope.headers
    ]

-- the first `Accept` header decides
unfoldable pub accepts_sse_from : List (String × String) → Bool
unfolding is_named lower contains
accepts_sse_from [] = false
accepts_sse_from ((k, v) ∷ hs) =
    if is_named "accept" k
    then contains (codes "text/event-stream") (lower (codes v))
    else accepts_sse_from hs

unfoldable pub accepts_sse : Scope → Bool
unfolding accepts_sse_from
accepts_sse scope = accepts_sse_from scope.headers
