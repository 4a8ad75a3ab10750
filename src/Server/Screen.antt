-- ===== src/Server/Screen.antt =====
-- The collusion screen that asp/server.py sells, on the graph that the server itself feeds.
use merita.Prelude.{
  String, false, ◌≡◌, ◌≢◌, refl, ap, ◌∙◌, inl, inr, none, some, List, [], ◌∷◌, ◌++◌, ◌==◌, arith,
  eq_iff, value_at, value_at-update_at,
}
use merita.Prelude.Float.{one_point, lt, eq, le}
use merita.Store.{Db}
use merita.Integrity.{
  Graph, new_graph, Arithmetic, pairing_entropy, cycle_conservation, spec_diversity,
  funding_independence, ancestors, ancestors_from, report_of, minimum, flags_of, signals_of,
  Signals, observe_spec, or_empty,
}
use merita.Integrity.Fingerprint.{fingerprint}
use merita.Server.{
  Site, Host, Ask, Screening, screened, step, serve, assess_integrity, screening_of, recommendation,
}
use merita.Server.Requests.{adds_spec, step-graph}

-- No request commits a test under the address, as if it were a task.
abbrev pub NeverATask : String → List (Host × Ask) → Type 0
NeverATask address [] = Unit
NeverATask address ((h, ask) ∷ rest) = (adds_spec ask ≢ some address) × NeverATask address rest

-- A graph without payments and without funders, and without a spec of the address.
abbrev pub KnowsNothingOf : String → Graph → Type 0
KnowsNothingOf address g =
    (g.edges ≡ []) × (g.pairs ≡ []) × (g.funding_parent ≡ []) × (value_at address g.specs ≡ none)

step-KnowsNothingOf :
    (h : Host) (ask : Ask) (address : String) (site : Site)
    → adds_spec ask ≢ some address
    → KnowsNothingOf address site.graph
    → KnowsNothingOf address (step h ask site).1.graph
step-KnowsNothingOf h ask address site other (e, p, f, s) = elim (step-graph h ask site) [
  | inl same ↦ rw same (e, p, f, s)
  | inr (t, is, spec, added) ↦ rw added (
      unfold observe_spec in
      (
        e,
        p,
        f,
        rw
            (value_at-update_at (λ o. or_empty o ++ fingerprint h.words spec ∷ []) t address
              site.graph.specs)
            (ground (arith, s, other, is, eq_iff t address)),
      ))
]

serve-KnowsNothingOf :
    (asks : List (Host × Ask)) (address : String) (site : Site)
    → NeverATask address asks
    → KnowsNothingOf address site.graph
    → KnowsNothingOf address (serve asks site).graph
unfolding serve
serve-KnowsNothingOf [] address site never k = k
serve-KnowsNothingOf ((h, ask) ∷ rest) address site (other, never) k =
    serve-KnowsNothingOf rest address (step h ask site).1 never
      (step-KnowsNothingOf h ask address site other k)

abbrev pub spotless : Host → Screening
spotless h = record {
  integrity_score = h.round3 one_point;
  signals = record {
    pairing_entropy = h.round3 one_point;
    cycle_conservation = h.round3 one_point;
    spec_diversity = h.round3 one_point;
    funding_independence = h.round3 one_point;
  };
  flags = [];
  recommendation = "clean";
}

abbrev all_clear : Signals
all_clear = record {
  pairing_entropy = one_point;
  cycle_conservation = one_point;
  spec_diversity = one_point;
  funding_independence = one_point;
}

module _ (ar : Arithmetic) (g : Graph) where
  pairing_entropy-nothing :
      (worker : String) → g.pairs ≡ [] → pairing_entropy ar worker g ≡ one_point
  unfolding pairing_entropy value_at
  pairing_entropy-nothing worker p = rw p refl

  cycle_conservation-nothing :
      (worker : String) → g.edges ≡ [] → cycle_conservation ar worker g ≡ one_point
  unfolding cycle_conservation value_at
  cycle_conservation-nothing worker e = rw e refl

  spec_diversity-nothing :
      (poster : String) → value_at poster g.specs ≡ none → spec_diversity ar poster g ≡ one_point
  unfolding spec_diversity
  spec_diversity-nothing poster s = rw s refl

  funding_independence-nothing :
      (a b : String) → g.funding_parent ≡ [] → funding_independence a b g ≡ one_point
  unfolding funding_independence ancestors ancestors_from value_at
  funding_independence-nothing a b f = rw f refl

  signals_of-nothing :
      (poster worker : String)
      → poster ≢ worker
      → KnowsNothingOf poster g
      → signals_of ar poster worker g ≡ all_clear
  unfolding signals_of
  signals_of-nothing poster worker differ (e, p, f, s) =
      let other : (poster == worker) ≡ false = ground (arith, eq_iff poster worker, differ) in
      rw
        (
          other,
          pairing_entropy-nothing worker p,
          cycle_conservation-nothing worker e,
          spec_diversity-nothing poster s,
          funding_independence-nothing poster worker f,
        )
        refl

screening_of-all_clear :
    (h : Host) → screened (screening_of h (report_of all_clear)) ≡ screened (spotless h)
unfolding report_of minimum flags_of recommendation lt eq le
screening_of-all_clear h = refl

-- The screen that is sold never warns. A server that was started with an empty graph may have been
-- asked anything since: as long as no test was committed under the buyer's address as if it were a task,
-- every other address is clean, with the highest score, every signal at its best and no flag, whoever
-- it has traded with.
pub screen_never_warns :
    (asks : List (Host × Ask)) (db : Db) (h : Host) (counterparty my_address : String)
    → my_address ≢ counterparty
    → NeverATask my_address asks
    → (assess_integrity h counterparty my_address
        (serve asks (record { ledger = db; graph = new_graph }))).0
      ≡ screened (spotless h)
unfolding assess_integrity
screen_never_warns asks db h counterparty my_address differ never =
    let start : Site = record { ledger = db; graph = new_graph } in
    let known =
      serve-KnowsNothingOf asks my_address start never
        (refl, refl, refl, unfold value_at in refl) in
    ap (λ s. screened (screening_of h (report_of s)))
      (signals_of-nothing h.arithmetic (serve asks start).graph my_address counterparty differ
        known)
    ∙ screening_of-all_clear h
