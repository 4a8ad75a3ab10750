-- ===== src/Orchestrator/Candidates.antt =====
-- The choice of a worker in `post_bounty` of brain/merita/orchestrator.py, from what the chain lists.
-- The address of a listed agent is a text; an answer with another address is taken as an error.
use merita.Prelude.{
  String, Bool, false, not, ◌&&◌, Option, none, some, List, [], ◌∷◌, ◌==◌, if◌then◌else◌,
}
use merita.Prelude.Float
use merita.Prelude.Float.{Float, zero_point, one_point}
use merita.Prelude.Attempt.{Attempt, returned, raised, ◌>>=◌}
use merita.Json.{
  Json, null, bool, int, float, str, arr, obj, Items, nil, cons, Fields, end, field, get, lookup,
  or_else, truthy,
}
use merita.Runtime.{Runtime}
use merita.Facilitator.{as_object}
use merita.Integrity.{Graph, Arithmetic, assess}
use merita.Referee.Tier2.{to_float}

-- An agent that the chain lists, and its rank.
pub record Ranked : Type 0 where
  pub address : String
  pub rank : Float

-- what `candidates["agents"]` gives to go through: a text or an object gives its characters or keys,
-- which have no `get`
unfoldable pub listed : Json → Attempt Items
listed (arr xs) = returned xs
listed (str s) = if s == "" then returned nil else raised
listed (obj end) = returned nil
listed (obj (field k v rest)) = raised
listed null = raised
listed (bool b) = raised
listed (int z) = raised
listed (float x) = raised

abbrev at_key : String → Fields → Attempt Json
at_key k d = elim (lookup k d) [ none ↦ raised | some v ↦ returned v ]

abbrev is_text : String → Json → Bool
is_text t (str s) = s == t
is_text t other = false

-- the workers: the listed agents but the poster
unfoldable pub workers_of : String → Items → Attempt (List Fields)
workers_of poster nil = returned []
workers_of poster (cons (obj d) rest) = (do
  ds ← workers_of poster rest
  returned (if truthy (obj d) && not (is_text poster (get "address" d)) then d ∷ ds else ds))
workers_of poster (cons other rest) = if truthy other then raised else workers_of poster rest

module _ (rt : Runtime) (ar : Arithmetic) (poster : String) (g : Graph) where
  abbrev as_number : Option Float → Attempt Float
  as_number none = raised
  as_number (some x) = returned x

  -- `float((a.get("reputation") or {}).get("score") or 0.0)`
  unfoldable pub reputation : Fields → Attempt Float
  unfolding to_float
  reputation a = do
    record_of ← as_object (or_else (get "reputation" a) (obj end))
    as_number (to_float rt (or_else (get "score" record_of) (float zero_point)))

  abbrev as_text : Json → Attempt String
  as_text (str s) = returned s
  as_text other = raised

  -- `rank`: reputation and integrity, multiplied
  unfoldable pub rank_of : Fields → Attempt Ranked
  unfolding reputation assess
  rank_of a = do
    rep ← reputation a
    value ← at_key "address" a
    address ← as_text value
    returned (record {
      address = address;
      rank = ar.mul (ar.add one_point rep) (assess ar poster address g).score;
    })

  unfoldable pub rank_all : List Fields → Attempt (List Ranked)
  unfolding rank_of
  rank_all [] = returned []
  rank_all (a ∷ rest) = do r ← rank_of a; rs ← rank_all rest; returned (r ∷ rs)

  -- `max(workers, key=rank)`: the first of the highest
  unfoldable pub best : Ranked → List Ranked → Ranked
  best r [] = r
  best r (s ∷ rest) = best (if Float.lt r.rank s.rank then s else r) rest

  abbrev best_of : List Ranked → Option String
  best_of [] = none
  best_of (r ∷ rest) = some (best r rest).address

  -- from the answer of the discovery to the chosen worker, if there is one
  unfoldable pub choose : Json → Attempt (Option String)
  unfolding listed workers_of rank_all best
  choose answer = do
    top ← as_object answer
    agents ← at_key "agents" top
    items ← listed agents
    workers ← workers_of poster items
    ranks ← rank_all workers
    returned (best_of ranks)
