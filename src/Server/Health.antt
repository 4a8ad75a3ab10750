-- ===== src/Server/Health.antt =====
-- `_startup` and /health of asp/server.py: what the server learns at boot, and what it says of itself.
use merita.Prelude.{
  String, Bool, true, false, ◌≡◌, refl, Option, none, some, List, [], ◌∷◌, ◌==◌, if◌then◌else◌, All,
  any,
}
use merita.Facilitator.{Token}
use merita.Paywall.{is_payment_name}
use merita.Server.{Host, sandbox_ok}

-- `fac.supported` and `SANDBOX_OK`
pub record Boot : Type 0 where
  pub supported : Bool
  pub sandbox : Option Bool

abbrev pub unbooted : Boot
unbooted = record { supported = false; sandbox = none }

-- `_startup`; `probe` is the facilitator's `check_supported`, on `supported` as it was
unfoldable pub startup : Host → (Bool → Bool × Bool) → Boot → Boot
unfolding sandbox_ok
startup h probe boot = record {
  supported = if h.fac.configured then (probe boot.supported).1 else boot.supported;
  sandbox = some (sandbox_ok h);
}

pub record Health : Type 0 where
  pub service : String
  pub network : String
  pub x402_configured : Bool
  pub db : Bool
  pub settlement_token : String
  pub settlement_asset : String
  pub exact_scheme_supported : Bool
  pub build : String
  pub accepted_payment_headers : List String
  pub sandbox : Option Bool

abbrev pub listed_headers : List String
listed_headers =
    "x-payment" ∷ "payment" ∷ "x-payment-authorization" ∷ "authorization-payment" ∷ "x-402-payment"
    ∷ "x402-payment" ∷ "payment-authorization" ∷ []

-- `store.health()` says whether the database was reached
unfoldable pub health : Host → Token → Boot → Health
health h token boot = record {
  service = "merita";
  network = "eip155:196";
  x402_configured = h.fac.configured;
  db = h.up 0;
  settlement_token = token.symbol;
  settlement_asset = token.address;
  exact_scheme_supported = boot.supported;
  build = "2026-07-23.payment-signature-header";
  accepted_payment_headers = listed_headers;
  sandbox = boot.sandbox;
}

-- Every header that /health lists is accepted, and one that is accepted is not listed.
listed_are_accepted :
    (h : Host) (token : Token) (boot : Boot)
    → All (λ name. is_payment_name name ≡ true) (health h token boot).accepted_payment_headers
      × (is_payment_name "payment-signature" ≡ true)
      × (any (λ name. name == "payment-signature") (health h token boot).accepted_payment_headers
          ≡ false)
unfolding health is_payment_name
listed_are_accepted h token boot =
    ((refl, (refl, (refl, (refl, (refl, (refl, (refl, tt))))))), refl, refl)
