-- ===== src/Integrity/Scores.antt =====
-- The report of `assess` in brain/merita/integrity/graph.py: its score against its signals and flags.
use merita.Prelude.{
  ℕ, zero, suc, ◌+◌, ◌*◌, ◌^◌, ◌<◌, ◌≤◌, true, false, ◌||◌, ◌≡◌, refl, inl, inr, arith, Bool-cases,
}
use native.Mathlib.Nat.{mul-le-mul_right, mul-lt-mul_of_pos_right, lt_of_mul-lt-mul_left}
use merita.Prelude.Int.{pos_part, neg_part}
use merita.Prelude.Float.{Float, fin, inf, neg_inf, nan, lt}
use merita.Integrity.{quarantine_threshold, half, seven_tenths, lesser}

abbrev pub IsNumber : Float → Type 0
IsNumber nan = ⊥
IsNumber other = Unit

cross_lt :
    (p n q m a b c k : ℕ)
    → 0 < a
    → 0 < b
    → p * a + m * b ≤ q * b + n * a
    → q * c < k * a + m * c
    → p * c < k * b + n * c
cross_lt p n q m a b c k pa pb h1 h2 =
    let h3 = mul-le-mul_right c h1 in
    let h4 = mul-lt-mul_of_pos_right h2 pb in lt_of_mul-lt-mul_left a (grind (arith, h3, h4))

pub below_half : (x : Float) → lt x quarantine_threshold ≡ true → lt x half ≡ true
unfolding lt
below_half (fin z k) h = ground arith
below_half inf h = h
below_half neg_inf h = h
below_half nan h = h

pub below_seven_tenths : (x : Float) → lt x quarantine_threshold ≡ true → lt x seven_tenths ≡ true
unfolding lt
below_seven_tenths (fin z k) h = ground arith
below_seven_tenths inf h = h
below_seven_tenths neg_inf h = h
below_seven_tenths nan h = h

pub pow_two_pos : (k : ℕ) → 0 < 2 ^ k
pow_two_pos zero = omega arith
pow_two_pos (suc k) = omega (arith, pow_two_pos k)

-- What is no greater than a number below the threshold is below it.
pub below_threshold :
    (x y : Float)
    → IsNumber x
    → lt y x ≡ false
    → lt y quarantine_threshold ≡ true
    → lt x quarantine_threshold ≡ true
unfolding lt
below_threshold (fin z k) (fin w j) n h1 h2 =
    let low : pos_part z * 2 ^ j + neg_part w * 2 ^ k ≤ pos_part w * 2 ^ k + neg_part z * 2 ^ j =
      ground arith in
    let low2 : pos_part w * 2 ^ 53 < 3152519739159347 * 2 ^ j + neg_part w * 2 ^ 53 =
      ground arith in
    let low3 =
      cross_lt (pos_part z) (neg_part z) (pos_part w) (neg_part w) (2 ^ j) (2 ^ k) (2 ^ 53)
        3152519739159347 (pow_two_pos j) (pow_two_pos k) low low2 in
    ground (arith, low3)
below_threshold (fin z k) inf n h1 h2 = cc
below_threshold (fin z k) neg_inf n h1 h2 = cc
below_threshold (fin z k) nan n h1 h2 = cc
below_threshold inf (fin w j) n h1 h2 = cc
below_threshold inf inf n h1 h2 = cc
below_threshold inf neg_inf n h1 h2 = cc
below_threshold inf nan n h1 h2 = cc
below_threshold neg_inf y n h1 h2 = refl
below_threshold nan y n h1 h2 = absurd n

not_both : (x y : Float) → lt x y ≡ true → lt y x ≡ false
unfolding lt
not_both (fin z k) (fin w j) h = ground arith
not_both (fin z k) inf h = refl
not_both neg_inf (fin w j) h = refl
not_both neg_inf inf h = refl
not_both (fin z k) neg_inf h = cc
not_both (fin z k) nan h = cc
not_both inf y h = cc
not_both neg_inf neg_inf h = cc
not_both neg_inf nan h = cc
not_both nan y h = cc

-- The lesser of two numbers is a number, and is below the threshold if one of them is.
pub lesser-IsNumber : (x y : Float) → IsNumber x → IsNumber y → IsNumber (lesser x y)
unfolding lesser
lesser-IsNumber x y nx ny = elim (Bool-cases (lt y x)) [ inl e ↦ rw e ny | inr e ↦ rw e nx ]

pub lesser_below :
    (x y : Float)
    → IsNumber x
    → IsNumber y
    → lt (lesser x y) quarantine_threshold
      ≡ (lt x quarantine_threshold || lt y quarantine_threshold)
unfolding lesser
lesser_below x y nx ny = elim (Bool-cases (lt y x)) [
  | inl e ↦ rw e (ground (arith, below_threshold y x ny (not_both y x e)))
  | inr e ↦ rw e (ground (arith, below_threshold x y nx e))
]
