-- ===== src/Store/Log.antt =====
-- The verdict log of asp/store.py: `record_verdict`, `feed` and `stats`.
use merita.Prelude.{
  ℕ, zero, suc, ◌+◌, ◌-◌, ◌≤◌, Bool, true, false, ◌≡◌, refl, List, [], ◌∷◌, reverse, arith, take,
  length, length-append, length-take, length-reverse, count_if-append, count_if-le-length, is_some,
  take_text, if◌then◌else◌, min,
}
use mathlib.Core.List.{reverse-append}
use merita.Prelude.Int.{ℤ, pos, negsuc}
use merita.Prelude.Float.{Float}
use merita.Store.{LoggedVerdict, Db, record_verdict, clamp_limit, feed, stats}

-- The row as it is stored: the reason is cut to 300 characters and the confidence is a REAL.
abbrev pub stored : (Float → Float) → LoggedVerdict → LoggedVerdict
stored real v = record v { reason = take_text 300 v.reason; confidence = real v.confidence }

-- However the limit is chosen, negative or huge, the feed has at most 200 rows, and as many as the
-- log has up to the limit that is applied.
feed_bounds :
    (limit : ℤ) (db : Db)
    → (length (feed true limit db) ≡ min (clamp_limit limit) (length db.verdicts))
      × (length (feed true limit db) ≤ 200)
unfolding feed
feed_bounds (pos n) db =
    (rw length-take (omega (arith, length-reverse db.verdicts)), rw length-take (omega arith))
feed_bounds (negsuc n) db =
    (rw length-take (omega (arith, length-reverse db.verdicts)), rw length-take (omega arith))

take_pos {ℓ} :
    {A : Type ℓ} (n : ℕ) (v : A) (rows : List A) → 1 ≤ n → take n (v ∷ rows) ≡ v ∷ take (n - 1) rows
take_pos zero v rows h = absurd (omega arith)
take_pos (suc n) v rows h = let e : suc n - 1 ≡ n = omega arith in rw e

clamp_limit_pos : (limit : ℤ) → 1 ≤ clamp_limit limit
clamp_limit_pos (pos n) = omega arith
clamp_limit_pos (negsuc n) = omega arith

module _ (real : Float → Float) where
  -- A verdict that is logged is the first row of the next feed, whatever its limit, before the rows
  -- that were there; it is counted once in the totals, as passed and as settled exactly if it is.
  pub record_then_read :
      (limit : ℤ) (v : LoggedVerdict) (db : Db)
      → let db' = record_verdict real true v db in
        (feed true limit db' ≡ stored real v ∷ take (clamp_limit limit - 1) (reverse db.verdicts))
        × ((stats true db').total ≡ (stats true db).total + 1)
        × ((stats true db').passed ≡ (stats true db).passed + (if v.passed then 1 else 0))
        × ((stats true db').settled
            ≡ (stats true db).settled + (if is_some v.tx_hash then 1 else 0))
  unfolding feed record_verdict stats
  record_then_read limit v db = (
    rw (reverse-append db.verdicts (stored real v ∷ [])) (
        take_pos (clamp_limit limit) (stored real v) (reverse db.verdicts) (clamp_limit_pos limit)),
    rw (length-append db.verdicts (stored real v ∷ [])) refl,
    omega
        (arith, count_if-append (λ (x : LoggedVerdict). x.passed) db.verdicts (stored real v ∷ [])),
    omega (
      arith,
      count_if-append (λ (x : LoggedVerdict). is_some x.tx_hash) db.verdicts (stored real v ∷ []),
    ),
  )

-- The banner is consistent: no more verdicts passed, or were settled, than there are.
stats_bounds :
    (up : Bool) (db : Db)
    → ((stats up db).passed ≤ (stats up db).total) × ((stats up db).settled ≤ (stats up db).total)
unfolding stats
stats_bounds false db = (omega arith, omega arith)
stats_bounds true db = (
  count_if-le-length (λ v. v.passed) db.verdicts,
  count_if-le-length (λ v. is_some v.tx_hash) db.verdicts,
)
