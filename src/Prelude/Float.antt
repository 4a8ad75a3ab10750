-- ===== src/Prelude/Float.antt =====
-- Python's floats as values: a finite binary64 is an integer over a power of two, so its order is
-- exact. Arithmetic that rounds is not here.
use Prim.Native.Nat.{ℕ, ◌+◌, ◌*◌, ◌^◌}
use mathlib.Core.Bool.{Bool, true, false, ◌||◌}
use merita.Prelude.Tests.{ltb, eqb}
use merita.Prelude.Int.{ℤ, pos, pos_part, neg_part}

-- `fin z k` is z / 2 ^ k.
pub data Float : Type 0 where
  fin : ℤ → ℕ → Float
  inf neg_inf nan : Float

-- `a < b`, false beside a NaN
unfoldable pub lt : Float → Float → Bool
lt (fin z k) (fin w j) =
    ltb (pos_part z * 2 ^ j + neg_part w * 2 ^ k) (pos_part w * 2 ^ k + neg_part z * 2 ^ j)
lt (fin z k) inf = true
lt neg_inf (fin w j) = true
lt neg_inf inf = true
lt _ _ = false

-- `a == b`, false beside a NaN
unfoldable pub eq : Float → Float → Bool
eq (fin z k) (fin w j) =
    eqb (pos_part z * 2 ^ j + neg_part w * 2 ^ k) (pos_part w * 2 ^ k + neg_part z * 2 ^ j)
eq inf inf = true
eq neg_inf neg_inf = true
eq _ _ = false

-- `a <= b`
unfoldable pub le : Float → Float → Bool
unfolding lt eq
le a b = lt a b || eq a b

abbrev pub zero_point : Float
zero_point = fin (pos 0) 0

abbrev pub one_point : Float
one_point = fin (pos 1) 0
