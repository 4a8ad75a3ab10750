-- ===== src/BrainApi/Kept.antt =====
-- The bounties that brain/merita/main.py keeps and shows.
use merita.Prelude.{
  String, ◌≡◌, refl, inl, inr, Option, none, List, [], ◌∷◌, ◌==◌, Bool-cases, All, update_at,
}
use merita.Prelude.Int.{ℤ}
use merita.Prelude.Attempt.{Attempt, returned, raised}
use merita.Json.{Json}
use merita.Runtime.{Runtime}
use merita.Models.{Verdict}
use merita.Integrity.{Arithmetic}
use merita.Integrity.Fingerprint.{Words}
use merita.Sidecar.{Sidecar}
use merita.Orchestrator.{Bounty}
use merita.Orchestrator.Closing.{IsOver, run-IsOver}
use merita.BrainApi.{Bounties, run_route}
use merita.BrainApi.Service.{Brain, Trigger, run_of, run_bounty, run_bounties, offer_of}

-- What holds of a new value and of the old ones holds of the values of an updated dictionary.
All-update_at {ℓ κ} :
    {A : Type ℓ} (P : A → Type κ) (f : Option A → A) (k : String) (d : List (String × A))
    → ((o : Option A) → P (f o))
    → All (λ p. P p.1) d
    → All (λ p. P p.1) (update_at f k d)
unfolding update_at
All-update_at P f k [] new old = (new _, tt)
All-update_at P f k ((j, a) ∷ rest) new (here, old) = elim (Bool-cases (j == k)) [
  | inl same ↦ rw same (new _, old)
  | inr other ↦ rw other (here, All-update_at P f k rest new old)
]

module _ (rt : Runtime) (words : Words) (ar : Arithmetic) (sidecar : Sidecar)
    (int_of : Json → Option ℤ) (referee_pda referee_wallet poster_wallet : String)
    (referee : String → String → String → Option Json → Verdict)
    (prompt : String → Option Json → String) where
  -- Every bounty that the process keeps is over.
  abbrev pub AreOver : Brain → Type 0
  AreOver brain =
      All
        (λ p.
          IsOver rt words ar sidecar int_of referee_pda referee_wallet referee brain.tests prompt
            p.1)
        brain.bounties

  abbrev Over : Bounty → Type 0
  Over b =
      IsOver rt words ar sidecar int_of referee_pda referee_wallet referee (λ id. none) prompt b

  run_route-Over :
      (o : Attempt Bounty) (why : String) (bounties : Bounties)
      → ((b : Bounty) → o ≡ returned b → Over b)
      → All (λ p. Over p.1) bounties
      → All (λ p. Over p.1) (run_route o why bounties).1
  unfolding run_route
  run_route-Over raised why bounties ran over = over
  run_route-Over (returned b) why bounties ran over =
      All-update_at Over (λ old. b) b.id bounties (λ old. ran b refl) over

  run_bounty-AreOver :
      (t : Trigger) (brain : Brain)
      → AreOver brain
      → AreOver
          (run_bounty rt words ar sidecar int_of referee_pda referee_wallet poster_wallet referee
            prompt t brain).1
  unfolding run_bounty
  run_bounty-AreOver t brain over =
      let out =
        run_of rt words ar sidecar int_of referee_pda referee_wallet poster_wallet referee prompt
          brain t brain.world in
      run_route-Over out.0 t.why brain.bounties
        (λ b e.
          (run-IsOver rt words ar sidecar int_of referee_pda referee_wallet referee brain.tests
            prompt t.bid t.nonce t.request.service (offer_of poster_wallet referee_pda t.request)
            t.request.args brain.world b e).0)
        over

  -- No reader sees a bounty half done. Whatever runs are asked of the brain, one after another, with
  -- whatever answers of the chain seam: if every bounty that it kept was over, every bounty that it then
  -- keeps is expired, quarantined, settled or failed; a run that raises keeps none.
  kept_bounties-AreOver :
      (ts : List Trigger) (brain : Brain)
      → AreOver brain
      → AreOver (
          run_bounties rt words ar sidecar int_of referee_pda referee_wallet poster_wallet referee
            prompt ts brain)
  unfolding run_bounties
  kept_bounties-AreOver [] brain over = over
  kept_bounties-AreOver (t ∷ ts) brain over =
      kept_bounties-AreOver ts
        (run_bounty rt words ar sidecar int_of referee_pda referee_wallet poster_wallet referee
          prompt t brain).1
        (run_bounty-AreOver t brain over)
