-- ===== src/Referee/Tier2.antt =====
-- brain/merita/referee/tier2.py: `adjudicate`, on what the paid model call gave.
use merita.Prelude.{
  ℕ, String, Bool, true, Option, none, some, List, [], ◌∷◌, reverse, if◌then◌else◌, concat, codes,
  prefix_of, take_text, is_space,
}
use merita.Prelude.Int.{pos}
use merita.Prelude.Float
use merita.Prelude.Float.{Float, fin, zero_point, one_point}
use merita.Json.{Json, null, bool, int, float, str, arr, obj, lookup}
use merita.Runtime.{Runtime}
use merita.Models.{Verdict, Receipt, adjudicated}

-- 0.70 and 0.45, as the binary64 values that Python reads
abbrev pub release_threshold : Float
release_threshold = fin (pos 3152519739159347) 52

abbrev pub escalate_below : Float
escalate_below = fin (pos 8106479329266893) 54

abbrev verdict : Bool → Float → String → Verdict
verdict passed confidence reason = record {
  passed = passed;
  tier_used = adjudicated;
  confidence = confidence;
  reason = reason;
  reveal_valid = true;
}

unfoldable pub strip_left : List ℕ → List ℕ
strip_left [] = []
strip_left (c ∷ s) = if is_space c then strip_left s else c ∷ s

unfoldable pub strip : List ℕ → List ℕ
unfolding strip_left
strip s = reverse (strip_left (reverse (strip_left s)))

abbrev drop_prefix : List ℕ → List ℕ → List ℕ
drop_prefix [] s = s
drop_prefix (a ∷ p) [] = []
drop_prefix (a ∷ p) (b ∷ s) = drop_prefix p s

unfoldable pub remove_prefix : List ℕ → List ℕ → List ℕ
remove_prefix p s = if prefix_of p s then drop_prefix p s else s

unfoldable pub remove_suffix : List ℕ → List ℕ → List ℕ
unfolding remove_prefix
remove_suffix p s = reverse (remove_prefix (reverse p) (reverse s))

-- the text between the fences that a model may put round its JSON
unfoldable pub unfence : String → List ℕ
unfolding strip remove_prefix remove_suffix
unfence s = strip (remove_suffix (codes "```") (remove_prefix (codes "```json") (strip (codes s))))

-- the model call: `pay_ace` raised, or gave a result and perhaps a receipt
pub data Call : Type 0 where
  unavailable : Call
  answered : Json → Option Receipt → Call

pub record Opinion : Type 0 where
  pub score : Float
  pub confidence : Float
  pub reason : String

infixl 5 ◌>>=◌
abbrev ◌>>=◌ {ℓ κ} : {A : Type ℓ} {B : Type κ} → Option A → (A → Option B) → Option B
none >>= f = none
some a >>= f = f a

module _ (rt : Runtime) where
  -- `float(value)`; `none` where it raises
  unfoldable pub to_float : Json → Option Float
  to_float (bool b) = some (if b then one_point else zero_point)
  to_float (int z) = rt.float_of_int z
  to_float (float x) = some x
  to_float (str s) = rt.float_of_text s
  to_float null = none
  to_float (arr xs) = none
  to_float (obj d) = none

  -- `parsed["score"]` and the rest; `none` where any step raises
  unfoldable pub read_opinion : Json → Option Opinion
  unfolding to_float take_text
  read_opinion (obj d) = do
    score ← (do v ← lookup "score" d; to_float v)
    confidence ← (do v ← lookup "confidence" d; to_float v)
    reason ← lookup "reason" d
    some (record {
      score = score;
      confidence = confidence;
      reason = take_text 200 (rt.str_of reason);
    })
  read_opinion null = none
  read_opinion (bool b) = none
  read_opinion (int z) = none
  read_opinion (float x) = none
  read_opinion (str s) = none
  read_opinion (arr xs) = none

  unfoldable pub opinion : Json → Option Opinion
  unfolding unfence
  opinion result = do parsed ← rt.loads (unfence (rt.str_of result)); read_opinion parsed

  -- the ruling on an opinion, which the model cannot reach
  unfoldable pub rule : Option Opinion → Verdict
  rule none =
      verdict true zero_point
        "adjudicator returned unparseable output; released in favour of the worker"
  rule (some o) =
      if Float.lt o.confidence escalate_below
      then verdict true o.confidence (
          concat (
            "low adjudicator confidence ("
            ∷ rt.format_2f o.confidence
            ∷ "); would escalate to Tier 3. "
            ∷ o.reason
            ∷ []))
      else verdict (Float.le release_threshold o.score) o.confidence o.reason

  -- the verdict, and the receipt that is appended to the job's and observed by the graph
  unfoldable pub adjudicate : Call → Verdict × Option Receipt
  unfolding opinion rule
  adjudicate unavailable =
      (verdict true zero_point "adjudicator unavailable; released in favour of the worker", none)
  adjudicate (answered result receipt) = (rule (opinion result), receipt)
