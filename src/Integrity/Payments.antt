-- ===== src/Integrity/Payments.antt =====
-- What brain/merita/integrity/graph.py keeps, how it is filled, and what its signals count in it.
use merita.Prelude.{
  ℕ, ◌+◌, String, Bool, ◌||◌, Option, none, some, List, [], ◌∷◌, ◌++◌, ◌==◌, if◌then◌else◌, min,
  any, value_at, update_at,
}
use merita.Prelude.Int.{pos_part}
use merita.Models.{Receipt, is_countable}
use merita.Integrity.Fingerprint.{Words, fingerprint}

pub record Edge : Type 0 where
  pub payer : String
  pub payee : String
  pub amount : ℕ

-- a `Counter`, and a dictionary of them
abbrev pub Counter : Type 0
Counter = List (String × ℕ)

pub record Graph : Type 0 where
  pub edges : List Edge
  pub pairs : List (String × Counter)
  pub specs : List (String × List String)
  pub funding_parent : List (String × String)

-- `IntegrityGraph()`
abbrev pub new_graph : Graph
new_graph = record { edges = []; pairs = []; specs = []; funding_parent = [] }

abbrev pub or_zero : Option ℕ → ℕ
or_zero none = 0
or_zero (some n) = n

abbrev pub or_empty {ℓ} : {A : Type ℓ} → Option (List A) → List A
or_empty none = []
or_empty (some xs) = xs

-- `counter[k] += n`
unfoldable pub bump : String → ℕ → Counter → Counter
bump k n = update_at (λ o. or_zero o + n) k

-- `d[j][k] += n`
unfoldable pub bump_in : String → String → ℕ → List (String × Counter) → List (String × Counter)
unfolding bump
bump_in j k n = update_at (λ o. bump k n (or_empty o)) j

-- `_ancestors`: the chain of funders, `depth` of them at most, cut at an empty name and at a cycle
unfoldable pub ancestors_from : ℕ → String → List String → List (String × String) → List String
ancestors_from ℕ.zero cur seen parents = seen
ancestors_from (ℕ.suc depth) cur seen parents = elim (value_at cur parents) [
  | none ↦ seen
  | some parent ↦
      let rest = ancestors_from depth parent (parent ∷ seen) parents in
      if parent == "" || any (λ s. s == parent) seen then seen else rest
]

unfoldable pub ancestors : String → List (String × String) → List String
unfolding ancestors_from
ancestors w parents = ancestors_from 4 w [] parents

-- `sum(values)`
unfoldable pub total : Counter → ℕ
total [] = 0
total ((k, n) ∷ rest) = n + total rest

-- `counter.get(k, 0)` and `d.get(k, {})`
unfoldable pub count_at : String → Counter → ℕ
count_at k d = or_zero (value_at k d)

unfoldable pub counter_at : String → List (String × Counter) → Counter
counter_at k d = or_empty (value_at k d)

-- the `adj` of `_cycle_conservation`, over the edges in their order
unfoldable pub adjacency : List Edge → List (String × Counter) → List (String × Counter)
unfolding bump_in
adjacency [] d = d
adjacency (e ∷ es) d = adjacency es (bump_in e.payer e.payee e.amount d)

-- A→B→C→A, over the items of `adj[B]`
unfoldable pub three_cycles : List (String × Counter) → String → Counter → ℕ
unfolding count_at counter_at
three_cycles adj worker [] = 0
three_cycles adj worker ((c, n) ∷ rest) =
    min n (count_at worker (counter_at c adj)) + three_cycles adj worker rest

-- what comes back, over the items of `adj[worker]`
unfoldable pub returned_to : List (String × Counter) → String → Counter → ℕ
unfolding count_at counter_at three_cycles
returned_to adj worker [] = 0
returned_to adj worker ((b, n) ∷ rest) =
    count_at worker (counter_at b adj)
    + three_cycles adj worker (counter_at b adj)
    + returned_to adj worker rest

unfoldable pub observe : Receipt → Graph → Graph
unfolding is_countable bump_in
observe r g =
    if is_countable r
    then record g {
      edges =
          g.edges
          ++ (record { payer = r.payer; payee = r.payee; amount = pos_part r.amount_atomic }) ∷ [];
      pairs = bump_in r.payee r.payer 1 g.pairs;
    }
    else g

unfoldable pub observe_funding : String → String → Graph → Graph
observe_funding wallet funder g = record g {
  funding_parent = update_at (λ o. funder) wallet g.funding_parent;
}

unfoldable pub observe_spec : Words → String → String → Graph → Graph
observe_spec words poster spec g = record g {
  specs = update_at (λ o. or_empty o ++ fingerprint words spec ∷ []) poster g.specs;
}

-- `anc_a & anc_b`
unfoldable pub share_ancestor : String → String → Graph → Bool
unfolding ancestors
share_ancestor a b g =
    any (λ x. any (λ y. y == x) (ancestors b g.funding_parent)) (ancestors a g.funding_parent)
