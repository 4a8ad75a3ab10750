-- ===== src/Referee/Adjudication.antt =====
-- What it takes for the model of tier2.py to fail a worker.
use merita.Prelude.{false, ◌≡◌, refl, ◌↔◌, Option, none, some, arith}
use merita.Prelude.Float
use merita.Prelude.Float.{nan}
use merita.Json.{Json}
use merita.Runtime.{Runtime}
use merita.Models.{Receipt}
use merita.Referee.Tier2.{
  Call, unavailable, answered, Opinion, opinion, rule, adjudicate, escalate_below,
  release_threshold,
}

-- An opinion on which the code fails the worker.
abbrev pub Condemns : Opinion → Type 0
Condemns o =
    (Float.lt o.confidence escalate_below ≡ false) × (Float.le release_threshold o.score ≡ false)

module _ (rt : Runtime) where
  rule_fails :
      (o : Option Opinion) → (rule rt o).passed ≡ false → (p : Opinion) × (o ≡ some p) × Condemns p
  unfolding rule
  rule_fails none h = cc
  rule_fails (some p) h = (p, refl, (ground arith, ground arith))

  -- The second tier fails the worker exactly if the paid call answered with a readable opinion whose
  -- confidence is not below the escalation floor and whose score does not reach the release
  -- threshold. A call that fails, an answer that cannot be read, and low confidence all release.
  pub adjudicate_fails_iff :
      (call : Call)
      → ((adjudicate rt call).0.passed ≡ false) ↔ (
          (result : Json) × (receipt : Option Receipt) × (o : Opinion) × (call
            ≡ answered result receipt)
          × (opinion rt result ≡ some o)
          × Condemns o)
  unfolding adjudicate
  adjudicate_fails_iff unavailable = (λ h. absurd (cc h), λ w. absurd (cc (w.3)))
  adjudicate_fails_iff (answered result receipt) = (
    λ h. let (o, e, bad) = rule_fails (opinion rt result) h in (result, receipt, o, refl, e, bad),
    λ (r, t, o, e, reads, (low, short)).
        let same : r ≡ result = cc in unfold rule in rw (← same, reads, low) short,
  )

  -- An opinion whose confidence is not a number is no low confidence to the code: if its score is
  -- not a number either, the worker is failed.
  nan_opinion_fails :
      (result : Json) (receipt : Option Receipt) (reason_score : Opinion)
      → opinion rt result ≡ some reason_score
      → reason_score.confidence ≡ nan
      → reason_score.score ≡ nan
      → (adjudicate rt (answered result receipt)).0.passed ≡ false
  unfolding adjudicate rule Float.le
  nan_opinion_fails result receipt o reads c s = rw (reads, c, s)
