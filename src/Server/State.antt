-- ===== src/Server/State.antt =====
-- asp/server.py: what the server keeps (`store` and `graph`), what it is given, and what its tools and
-- routes answer.
use merita.Prelude.{ℕ, String, Bool, Option, List, if◌then◌else◌}
use merita.Prelude.Float.{Float}
use merita.Prelude.Attempt.{Attempt, returned, raised}
use merita.Json.{Json}
use merita.Runtime.{Runtime}
use merita.Models.{Verdict}
use merita.Facilitator.{Service}
use merita.Store.{Db}
use merita.HttpDoor
use merita.HttpDoor.{Judged, judged, timed_out, broken, Door}
use merita.Integrity.{Graph, Arithmetic, Signals}
use merita.Integrity.Fingerprint.{Words}

pub record Site : Type 0 where
  pub ledger : Db
  pub graph : Graph

-- The objects of the module, and what a request reads from its surroundings: the clock, the nonces of
-- `secrets`, and whether each call of the store reaches the database. `slow` says of which runs of the
-- referee last longer than the 45 seconds of the plain-HTTP door; `worker_token` is the environment's
-- MERITA_WORKER_TOKEN.
pub record Host : Type 0 where
  pub rt : Runtime
  pub fac : Service
  pub referee : String → String → String → Json → Attempt Verdict
  pub slow : String → String → String → Json → Bool
  pub words : Words
  pub arithmetic : Arithmetic
  pub round3 : Float → Float
  pub worker_token : String
  pub price_verify : Float
  pub now : ℕ
  pub nonce : ℕ → String
  pub up : ℕ → Bool
  pub real : Float → Float
  pub sql_text : Json → Option (Option String)

-- A verdict as it is answered. `key` is the row's key; the demo routes show it without its prefix.
pub record Judgement : Type 0 where
  pub key : String
  pub passed : Bool
  pub confidence : Float
  pub reason : String
  pub reveal_valid : Bool
  pub commitment : String
  pub payment_receipt : Option String

pub record Screening : Type 0 where
  pub integrity_score : Float
  pub signals : Signals
  pub flags : List String
  pub recommendation : String

-- What a tool or a route answers: a JSON error with its status (a tool's is 200), an empty preflight, a
-- sealed test, a refused commit, a verdict, a screening, the answer of the plain-HTTP door, or an
-- exception that the framework answers.
pub data Response : Type 0 where
  failed : ℕ → String → Response
  preflight crashed : Response
  committed : String → String → Response
  refused : String → Response
  verdict : Judgement → Response
  screened : Screening → Response
  from_door : HttpDoor.Response → Response

-- the referee behind the time limit of the plain-HTTP door
abbrev in_time : Bool → Attempt Verdict → Judged
in_time slow raised = broken
in_time slow (returned v) = if slow then timed_out else judged v

abbrev pub door_of : Host → Door
door_of h = record {
  rt = h.rt;
  fac = h.fac;
  referee = λ s n c d. in_time (h.slow s n c d) (h.referee s n c d);
  price = h.price_verify;
  now = h.now;
  nonce = h.nonce;
  up = h.up;
  real = h.real;
  sql_text = h.sql_text;
}
