-- ===== src/BrainApi/Volume.antt =====
-- The scoreboard of brain/merita/main.py, against sums over the receipts.
use merita.Prelude.{
  ℕ, ◌+◌, ◌≤◌, String, Bool, true, false, ◌&&◌, ◌≡◌, refl, inl, inr, List, [], ◌∷◌, arith,
  if◌then◌else◌, All, ltb, is_some, Bool-cases,
}
use merita.Prelude.Int.{ℤ, pos, negsuc, pos_part, neg_part, ◌+ℤ◌}
use merita.Models.{Rail, sap_escrow, ace_x402, Receipt, is_countable}
use merita.Orchestrator.{Bounty}
use merita.BrainApi.{
  Bounties, ByRail, Board, add_on, is_settled, count_receipt, count_receipts, count_bounty,
  count_all, nothing, volume, is_quarantined,
}

-- No receipt takes money back.
abbrev pub NoneNegative : Bounties → Type 0
NoneNegative state =
    All (λ (p : String × Bounty). All (λ (r : Receipt). neg_part r.amount_atomic ≡ 0) p.1.receipts)
      state

abbrev pub at : Rail → ByRail → ℤ
at sap_escrow c = c.sap
at ace_x402 c = c.ace

abbrev pub same_rail : Rail → Rail → Bool
same_rail sap_escrow sap_escrow = true
same_rail ace_x402 ace_x402 = true
same_rail sap_escrow ace_x402 = false
same_rail ace_x402 sap_escrow = false

-- the amount of a receipt on the rail; and if it has a transaction and is positive
abbrev pub moved_by : Rail → Receipt → ℕ
moved_by rail r = if same_rail rail r.rail then pos_part r.amount_atomic else 0

abbrev pub proved_by : Rail → Receipt → ℕ
proved_by rail r = if is_some r.tx && ltb 0 (pos_part r.amount_atomic) then moved_by rail r else 0

abbrev pub sum_of : (Receipt → ℕ) → List Receipt → ℕ
sum_of f [] = 0
sum_of f (r ∷ rs) = f r + sum_of f rs

-- What moved on the rail for all bounties; and what of it is proved by a transaction and was for a
-- bounty that was settled.
abbrev pub moved : Rail → Bounties → ℕ
moved rail [] = 0
moved rail ((bid, b) ∷ rest) = sum_of (moved_by rail) b.receipts + moved rail rest

abbrev pub defended : Rail → Bounties → ℕ
defended rail [] = 0
defended rail ((bid, b) ∷ rest) =
    (if is_settled b.state then sum_of (proved_by rail) b.receipts else 0) + defended rail rest

pos_add : (n : ℕ) (z : ℤ) → neg_part z ≡ 0 → pos n +ℤ z ≡ pos (n + pos_part z)
unfolding ◌+ℤ◌
pos_add n (pos m) e = ground arith
pos_add n (negsuc m) e = absurd (ground (arith, e))

at-add_on :
    (rail r : Rail) (z : ℤ) (c : ByRail) (n : ℕ)
    → neg_part z ≡ 0
    → at rail c ≡ pos n
    → at rail (add_on r z c) ≡ pos (n + (if same_rail rail r then pos_part z else 0))
unfolding add_on
at-add_on sap_escrow sap_escrow z c n e h = rw (h, pos_add n z e) refl
at-add_on sap_escrow ace_x402 z c n e h = rw h (ground arith)
at-add_on ace_x402 sap_escrow z c n e h = rw h (ground arith)
at-add_on ace_x402 ace_x402 z c n e h = rw (h, pos_add n z e) refl

module _ (rail : Rail) where
  -- The board has so much on the rail, and so much of it countable.
  abbrev Has : ℕ → ℕ → Board → Type 0
  Has gross countable board =
      (at rail board.gross ≡ pos gross) × (at rail board.countable ≡ pos countable)

  abbrev if_settled : Bool → ℕ → ℕ
  if_settled s n = if s then n else 0

  count_receipt-Has :
      (s : Bool) (r : Receipt) (board : Board) (m n : ℕ)
      → neg_part r.amount_atomic ≡ 0
      → Has m n board
      → Has (m + moved_by rail r) (n + if_settled s (proved_by rail r)) (count_receipt s r board)
  unfolding count_receipt is_countable
  count_receipt-Has s r board m n e (g, c) = (
    at-add_on rail r.rail r.amount_atomic board.gross m e g,
    elim (Bool-cases (is_countable r && s)) [
      | inl counts ↦
          let more = at-add_on rail r.rail r.amount_atomic board.countable n e c in
          rw counts (ground (arith, more, counts, e))
      | inr other ↦ rw other (ground (arith, c, other, e))
    ],
  )

  count_receipts-Has :
      (s : Bool) (rs : List Receipt) (board : Board) (m n : ℕ)
      → All (λ (r : Receipt). neg_part r.amount_atomic ≡ 0) rs
      → Has m n board
      → Has
          (m + sum_of (moved_by rail) rs)
          (n + if_settled s (sum_of (proved_by rail) rs))
          (count_receipts s rs board)
  unfolding count_receipts
  count_receipts-Has s [] board m n nonneg (g, c) = (ground (arith, g), ground (arith, c))
  count_receipts-Has s (r ∷ rs) board m n (e, nonneg) h =
      let (g, c) =
        count_receipts-Has s rs (count_receipt s r board) (m + moved_by rail r)
          (n + if_settled s (proved_by rail r)) nonneg (count_receipt-Has s r board m n e h) in
      (ground (arith, g), ground (arith, c))

  count_all-Has :
      (state : Bounties) (board : Board) (m n : ℕ)
      → NoneNegative state
      → Has m n board
      → Has (m + moved rail state) (n + defended rail state) (count_all state board)
  unfolding count_all count_bounty
  count_all-Has [] board m n nonneg (g, c) = (ground (arith, g), ground (arith, c))
  count_all-Has ((bid, b) ∷ rest) board m n (e, nonneg) h =
      let (g, c) =
        count_all-Has rest (count_bounty b board) (m + sum_of (moved_by rail) b.receipts)
          (n + if_settled (is_settled b.state) (sum_of (proved_by rail) b.receipts)) nonneg
          (count_receipts-Has (is_settled b.state) b.receipts
            (record board {
              quarantined_jobs = board.quarantined_jobs + (if is_quarantined b.state then 1 else 0);
              settled_jobs = board.settled_jobs + (if is_settled b.state then 1 else 0);
            })
            m n e h) in
      (ground (arith, g), ground (arith, c))

  proved_within : (rs : List Receipt) → sum_of (proved_by rail) rs ≤ sum_of (moved_by rail) rs
  proved_within [] = omega arith
  proved_within (r ∷ rs) = ground (arith, proved_within rs)

  defended_within : (state : Bounties) → defended rail state ≤ moved rail state
  defended_within [] = omega arith
  defended_within ((bid, b) ∷ rest) = ground (arith, defended_within rest, proved_within b.receipts)

  -- The scoreboard says what can be defended. Whatever the bounties are and whatever became of them, where
  -- no receipt has a negative amount: on each rail the gross volume is the sum of all receipts, and the
  -- countable volume is the sum of those that have a transaction, are positive, and belong to a bounty
  -- that was settled; so it is a part of the gross volume.
  pub volume_counts :
      (state : Bounties)
      → NoneNegative state
      → (at rail (volume state).gross ≡ pos (moved rail state))
        × (at rail (volume state).countable ≡ pos (defended rail state))
        × (defended rail state ≤ moved rail state)
  unfolding volume
  volume_counts state nonneg =
      let (g, c) =
        count_all-Has state
          (record { gross = nothing; countable = nothing; quarantined_jobs = 0; settled_jobs = 0 })
          0 0 nonneg (starts rail) in
      (ground (arith, g), ground (arith, c), defended_within state)
    where
      starts : (rail : Rail) → (at rail nothing ≡ pos 0) × (at rail nothing ≡ pos 0)
      starts sap_escrow = (refl, refl)
      starts ace_x402 = (refl, refl)
