-- ===== src/Facilitator/Environment.antt =====
-- The credentials of asp/okx_x402.py: what `OkxAuth` reads from the environment, and the headers that it
-- signs a request with. The time, HMAC-SHA256 in base64, and `str.upper` are parameters.
use merita.Prelude.{ℕ, String, Option, none, some, List, [], ◌∷◌, concat, encode}
use merita.Facilitator.{Auth}

-- `os.environ.get(name, "")`
abbrev or_unset : Option String → String
or_unset none = ""
or_unset (some s) = s

unfoldable auth_of : (String → Option String) → Auth
auth_of env = record {
  key = or_unset (env "OKX_API_KEY");
  secret = or_unset (env "OKX_API_SECRET");
  passphrase = or_unset (env "OKX_API_PASSPHRASE");
  pay_to = or_unset (env "MERITA_PAYTO_ADDRESS");
}

-- `OkxAuth.headers`, on the time stamp `ts`
unfoldable signed_headers :
    (List ℕ → List ℕ → String)
    → (String → String)
    → String
    → Auth
    → String
    → String
    → String
    → List (String × String)
signed_headers hmac_b64 upper ts auth method path body =
    let message = concat (ts ∷ upper method ∷ path ∷ body ∷ []) in
    ("Content-Type", "application/json")
    ∷ ("OK-ACCESS-KEY", auth.key)
    ∷ ("OK-ACCESS-SIGN", hmac_b64 (encode auth.secret) (encode message))
    ∷ ("OK-ACCESS-PASSPHRASE", auth.passphrase)
    ∷ ("OK-ACCESS-TIMESTAMP", ts)
    ∷ []
