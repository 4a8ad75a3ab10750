-- ===== src/Paywall/Challenges.antt =====
-- Which requests asp/paywall.py challenges although they call no tool: discovery probes.
use merita.Prelude.{
  String, Bool, true, false, not, ◌&&◌, ◌||◌, ◌≡◌, refl, ◌∙◌, inl, inr, Bool-cases, Option, none,
  some, List, [], ◌∷◌, if◌then◌else◌, ◌==◌, is_none, any, arith, eq_iff,
}
use merita.Prelude.Attempt.{Attempt}
use merita.Json.{Json}
use merita.Facilitator.{Service}
use merita.Paywall.Scopes.{first_value, signals_x402}
use merita.Paywall.{
  Scope, Tariff, forward, canonical_challenge, decide, payment_header, is_mcp_path, is_http_door,
  looks_like_x402_probe, is_payment_name, is_probe_payment_name, is_named,
}

-- the one name under which a payment is accepted, and by which a replay is not known
abbrev pub is_unlisted : String → Bool
is_unlisted = is_named "authorization-payment"

payment_names : (k : String) → is_payment_name k ≡ (is_probe_payment_name k || is_unlisted k)
unfolding is_payment_name is_probe_payment_name
payment_names k = ground arith

-- Where a request has no payment under a name of the probe test, its payment is the unlisted one.
unlisted_value :
    (hs : List (String × String))
    → first_value is_probe_payment_name hs ≡ none
    → first_value is_payment_name hs ≡ first_value is_unlisted hs
unfolding first_value
unlisted_value [] h = refl
unlisted_value ((k, v) ∷ hs) h = elim (Bool-cases (is_probe_payment_name k && not (v == ""))) [
  | inl paid ↦ absurd (ground (arith, rw paid at h))
  | inr other ↦
      let rest = unlisted_value hs (rw other at h) in rw payment_names (ground (arith, rest, other))
]

probe_get :
    (scope : Scope)
    → scope.method ≡ "GET"
    → looks_like_x402_probe scope
      ≡ (is_mcp_path scope && is_none (first_value is_probe_payment_name scope.headers))
unfolding looks_like_x402_probe
probe_get scope method = ground (arith, (eq_iff scope.method "GET").1 method)

-- what asks for x402 on the MCP path, and pays under no name that the probe test knows, is a probe
probe_signalled :
    (scope : Scope)
    → is_mcp_path scope ≡ true
    → first_value is_probe_payment_name scope.headers ≡ none
    → any signals_x402 scope.headers ≡ true
    → looks_like_x402_probe scope ≡ true
unfolding looks_like_x402_probe
probe_signalled scope mcp unknown asks = ground arith

module _ (fac : Service) (paid : List (String × Tariff))
    (precheck : Option (String → Json → Attempt (Bool × String))) where
  -- A GET is challenged exactly on the MCP path, and only if it carries no payment under a name that
  -- the probe test knows; a GET to any other path, such as the health check, goes through untouched.
  get_requests :
      (scope : Scope) (body : Option Json)
      → scope.kind ≡ "http"
      → scope.method ≡ "GET"
      → is_http_door scope ≡ false
      → decide fac paid precheck scope body ≡ (
          if is_mcp_path scope && is_none (first_value is_probe_payment_name scope.headers)
          then canonical_challenge fac paid
          else forward scope.path none)
  unfolding decide
  get_requests scope body kind method door =
      let k = (eq_iff scope.kind "http").1 kind in
      let p : (scope.method == "POST") ≡ false = rw method refl in
      rw (k, door, probe_get scope method, p) (ground arith)

  -- A request to the MCP path that pays under `authorization-payment`, a name that `_payment_header`
  -- accepts, and under no name that the probe test knows, and that signals x402 in a header, is taken
  -- for a probe: whatever its other headers, its method, its payment and its body, it is challenged,
  -- although `_payment_header` finds the payment.
  pub unlisted_payment_is_challenged :
      (scope : Scope) (value : String) (body : Option Json)
      → scope.kind ≡ "http"
      → is_mcp_path scope ≡ true
      → is_http_door scope ≡ false
      → first_value is_unlisted scope.headers ≡ some value
      → first_value is_probe_payment_name scope.headers ≡ none
      → any signals_x402 scope.headers ≡ true
      → (payment_header scope ≡ some value)
        × (decide fac paid precheck scope body ≡ canonical_challenge fac paid)
  unfolding decide payment_header
  unlisted_payment_is_challenged scope value body kind mcp door pays unknown asks =
      let http = (eq_iff scope.kind "http").1 kind in
      (
        unlisted_value scope.headers unknown ∙ pays,
        rw (http, door, probe_signalled scope mcp unknown asks) refl,
      )
