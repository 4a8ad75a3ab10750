-- ===== src/Router/Reading.antt =====
-- What brain/merita/rails/router.py reads from the answers of the chain seam.
use merita.Prelude.{String, Option, none, some, List, [], ◌∷◌, concat}
use merita.Prelude.Int.{ℤ, pos}
use merita.Prelude.Attempt.{Attempt, returned, raised, ◌>>=◌}
use merita.Json.{Json, null, int, str, obj, Fields, get, lookup, or_else}
use merita.Models.{Receipt, sap_escrow, ace_x402}
use merita.Facilitator.{as_object}

-- `d[key]`
abbrev pub item : String → Fields → Attempt Json
item key d = elim (lookup key d) [ none ↦ raised | some v ↦ returned v ]

-- a field `str | None` of a pydantic model
abbrev pub text_or_none : Json → Attempt (Option String)
text_or_none (str s) = returned (some s)
text_or_none null = returned none
text_or_none _ = raised

-- the escrow's id and the signature of `lock_reward`
unfoldable pub read_lock : Json → Attempt (Json × Json)
read_lock answer = do
  r ← as_object answer
  escrow ← item "escrowId" r
  signature ← item "signature" r
  returned (escrow, signature)

-- the two receipts of `release`, under one signature: the worker's reward and the referee's fee
abbrev pub released : String → String → String → ℤ → ℤ → Option String → List Receipt
released poster worker referee reward fee tx =
    (record {
      rail = sap_escrow;
      leg = "reward";
      payer = poster;
      payee = worker;
      amount_atomic = reward;
      token = "SOL";
      tx = tx;
    })
    ∷ (record {
      rail = sap_escrow;
      leg = "referee_fee";
      payer = poster;
      payee = referee;
      amount_atomic = fee;
      token = "SOL";
      tx = tx;
    })
    ∷ []

unfoldable pub read_signature : Json → Attempt (Option String)
read_signature answer = do
  r ← as_object answer
  signature ← item "signature" r
  text_or_none signature

-- the receipt of a paid call, `none` where Ace served it from free credits; `int_of` is Python's
-- `int(value)`, `none` where it raises
unfoldable pub ace_receipt : (Json → Option ℤ) → String → String → Json → Attempt (Option Receipt)
unfolding get
ace_receipt int_of service worker null = returned none
ace_receipt int_of service worker (obj raw) =
    elim (int_of (or_else (get "amountAtomic" raw) (int (pos 0)))) [
      | none ↦ raised
      | some amount ↦ (do
        tx ← text_or_none (get "txHash" raw)
        returned (
            some (record {
              rail = ace_x402;
              leg = concat ("ace:" ∷ service ∷ []);
              payer = worker;
              payee = "acedatacloud";
              amount_atomic = amount;
              token = "USDC";
              tx = tx;
            })))
    ]
ace_receipt int_of service worker _ = raised

unfoldable pub read_ace :
    (Json → Option ℤ) → String → String → Json → Attempt (Json × Option Receipt)
unfolding get ace_receipt
read_ace int_of service worker answer = do
  r ← as_object answer
  result ← item "data" r
  receipt ← ace_receipt int_of service worker (get "receipt" r)
  returned (result, receipt)
