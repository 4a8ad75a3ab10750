-- ===== src/Referee/Client.antt =====
-- The handles on the sandbox: brain/merita/referee/service.py behind brain/merita/referee/client.py,
-- and asp/verify_client.py. Whatever breaks, they return a verdict with no confidence.
use merita.Prelude.{
  ℕ, String, Bool, true, false, Option, none, some, if◌then◌else◌, concat, [], ◌∷◌,
}
use merita.Prelude.Float.{zero_point}
use merita.Models.{Verdict, deterministic}
use merita.Referee.Sandbox.{Outcome, value, sandbox_unavailable, exception}

-- An HTTP exchange: the transport raised an error of some type, or there is a response with its
-- status and the verdict that pydantic reads from the body, `none` where it raises.
pub data Response : Type 0 where
  transport_error : String → Response
  response : ℕ → Option Verdict → Response

-- service.py: `verify`; FastAPI answers any other exception with 500
unfoldable pub serve : Outcome Verdict → Response
serve (value v) = response 200 (some v)
serve sandbox_unavailable = response 503 none
serve (exception e) = response 500 none

abbrev escalate : String → Verdict
escalate reason = record {
  passed = false;
  tier_used = deterministic;
  confidence = zero_point;
  reason = reason;
  reveal_valid = true;
}

-- verify_client.py: with a container it asks over HTTP, else it runs tier 1 in its own process
pub data Mode : Type 0 where
  remote : Response → Mode
  in_process : Outcome Verdict → Mode

-- `raises` is what httpx's `raise_for_status` does at a status.
module _ (raises : ℕ → Bool) where
  abbrev read_response : Response → (String → Verdict) → Verdict
  read_response (transport_error e) on_error = on_error e
  read_response (response status body) on_error =
      if raises status
      then on_error "HTTPStatusError"
      else elim body [ none ↦ on_error "ValidationError" | some v ↦ v ]

  -- client.py: `VerifierClient.verify` of the brain
  unfoldable pub brain_verify : Response → Verdict
  brain_verify r = read_response r (λ e.
      escalate
        (concat ("deterministic verifier unavailable (" ∷ e ∷ "); escalating to Tier 2" ∷ [])))

  abbrev unavailable : String → Verdict
  unavailable e =
      escalate
        (concat ("deterministic sandbox unavailable (" ∷ e ∷ "); escalate, do not slash" ∷ []))

  unfoldable pub asp_verify : Mode → Verdict
  asp_verify (remote r) = read_response r unavailable
  asp_verify (in_process (value v)) = v
  asp_verify (in_process sandbox_unavailable) =
      escalate "sandbox isolation unverifiable on this host; escalate, do not slash"
  asp_verify (in_process (exception e)) = unavailable e
