-- ===== src/Integrity/Ancestors.antt =====
-- `_ancestors` of brain/merita/integrity/graph.py: the walk along the funders, which ends on any graph, also
-- round a cycle, finds every funder within its four steps and nothing else.
use merita.Prelude.{
  ℕ, zero, suc, ◌<◌, String, true, ◌≡◌, ◌≢◌, refl, ap, sym, ◌∙◌, ◌⊎◌, inl, inr, ◌↔◌, Option, none,
  some, List, [], ◌∷◌, ◌==◌, arith, any, value_at, Bool-cases, Option-cases, String-cases,
  if◌then◌else◌, eq_iff, eq_refl,
}
use merita.Integrity.{ancestors_from, ancestors}

abbrev Parents : Type 0
Parents = List (String × String)

-- the funder of a wallet, where it has one
abbrev pub funder : Parents → String → Option String
funder ps w = elim (value_at w ps) [ none ↦ none | some p ↦ if p == "" then none else some p ]

-- the funder of the funder …, so many steps away
abbrev pub funder_at : ℕ → Parents → String → Option String
funder_at zero ps w = some w
funder_at (suc n) ps w = elim (funder ps w) [ none ↦ none | some p ↦ funder_at n ps p ]

funder_at-on :
    (n : ℕ) (ps : Parents) (w p : String)
    → funder ps w ≡ some p
    → funder_at (suc n) ps w ≡ funder_at n ps p
funder_at-on n ps w p e =
    ap (λ o. elim o as (λ o. Option String) [ none ↦ none | some q ↦ funder_at n ps q ]) e

funder_at-none :
    (n : ℕ) (ps : Parents) (w : String) → funder ps w ≡ none → funder_at (suc n) ps w ≡ none
funder_at-none n ps w e =
    ap (λ o. elim o as (λ o. Option String) [ none ↦ none | some q ↦ funder_at n ps q ]) e

abbrev pub Has : String → List String → Type 0
Has x seen = any (λ s. s == x) seen ≡ true

Has-head : (x : String) (seen : List String) → Has x (x ∷ seen)
Has-head x seen = rw (eq_refl x) refl

Has-same : (x p : String) (seen : List String) → p ≡ x → Has x (p ∷ seen)
Has-same x p seen e = rw ((eq_iff p x).1 e) refl

Has-tail : (x p : String) (seen : List String) → Has x seen → Has x (p ∷ seen)
Has-tail x p seen h = ground (arith, h)

Has-cases : (x p : String) (seen : List String) → Has x (p ∷ seen) → (x ≡ p) ⊎ Has x seen
Has-cases x p seen h = elim (Bool-cases (p == x)) [
  | inl e ↦ inl (sym ((eq_iff p x).0 e))
  | inr e ↦ inr (rw e at h)
]

-- The walk at one step: it stops without a funder or at one that was seen, or it goes on.
data Step (d : ℕ) (cur : String) (seen : List String) (ps : Parents) : Type 0 where
  no_funder : funder ps cur ≡ none → ancestors_from (suc d) cur seen ps ≡ seen → Step d cur seen ps
  round :
      (p : String)
      → funder ps cur ≡ some p
      → Has p seen
      → ancestors_from (suc d) cur seen ps ≡ seen
      → Step d cur seen ps
  on :
      (p : String)
      → funder ps cur ≡ some p
      → ancestors_from (suc d) cur seen ps ≡ ancestors_from d p (p ∷ seen) ps
      → Step d cur seen ps

walk-Step : (d : ℕ) (cur : String) (seen : List String) (ps : Parents) → Step d cur seen ps
unfolding ancestors_from
walk-Step d cur seen ps = elim (Option-cases (value_at cur ps)) [
  | inl e ↦ no_funder (rw (funder, e) refl) (rw (ancestors_from, e) refl)
  | inr (p, e) ↦ elim (Bool-cases (p == "")) [
    | inl blank ↦ no_funder (rw (funder, e, blank) refl) (rw (ancestors_from, e, blank) refl)
    | inr named ↦ elim (Bool-cases (any (λ s. s == p) seen)) [
      | inl again ↦
          round p (rw (funder, e, named) refl) again (rw (ancestors_from, e, named, again) refl)
      | inr fresh ↦ on p (rw (funder, e, named) refl) (rw (ancestors_from, e, named, fresh) refl)
    ]
  ]
]

walk_keeps :
    (d : ℕ) (cur : String) (seen : List String) (ps : Parents) (x : String)
    → Has x seen
    → Has x (ancestors_from d cur seen ps)
walk_keeps zero cur seen ps x h = unfold ancestors_from in h
walk_keeps (suc d) cur seen ps x h = elim (walk-Step d cur seen ps) [
  | no_funder e stop ↦ rw stop h
  | round p e again stop ↦ rw stop h
  | on p e go ↦ rw go (walk_keeps d p (p ∷ seen) ps x (Has-tail x p seen h))
]

walk_sound :
    (d : ℕ) (cur : String) (seen : List String) (ps : Parents) (x : String)
    → Has x (ancestors_from d cur seen ps)
    → Has x seen ⊎ ((n : ℕ) × (n < d) × (funder_at (suc n) ps cur ≡ some x))
walk_sound zero cur seen ps x h = inl (unfold ancestors_from in h)
walk_sound (suc d) cur seen ps x h = elim (walk-Step d cur seen ps) [
  | no_funder e stop ↦ inl (rw stop at h)
  | round p e again stop ↦ inl (rw stop at h)
  | on p e go ↦ elim (walk_sound d p (p ∷ seen) ps x (rw go at h)) [
    | inl known ↦ elim (Has-cases x p seen known) [
      | inl is ↦ inr (zero, omega arith, funder_at-on zero ps cur p e ∙ ap some (sym is))
      | inr old ↦ inl old
    ]
    | inr (n, less, far) ↦ inr (suc n, omega (arith, less), funder_at-on (suc n) ps cur p e ∙ far)
  ]
]

-- Whatever was seen, but for the wallet at hand, has its funder among what was seen.
abbrev Closed : Parents → String → List String → Type 0
Closed ps cur seen = (s p : String) → Has s seen → s ≢ cur → funder ps s ≡ some p → Has p seen

stays :
    (n : ℕ) (ps : Parents) (seen : List String) (w x : String)
    → ((s p : String) → Has s seen → funder ps s ≡ some p → Has p seen)
    → Has w seen
    → funder_at n ps w ≡ some x
    → Has x seen
stays zero ps seen w x closed h e = let same : w ≡ x = cc in rw (← same) h
stays (suc n) ps seen w x closed h e = elim (Option-cases (funder ps w)) [
  | inl ends ↦ absurd (ground (arith, sym (funder_at-none n ps w ends) ∙ e))
  | inr (p, next) ↦
      stays n ps seen p x closed (closed w p h next) (sym (funder_at-on n ps w p next) ∙ e)
]

Closed-round :
    (ps : Parents) (cur p : String) (seen : List String)
    → Closed ps cur seen
    → funder ps cur ≡ some p
    → Has p seen
    → (s q : String) → Has s seen
    → funder ps s ≡ some q
    → Has q seen
Closed-round ps cur p seen closed e again s q h f = elim (String-cases s cur) [
  | inl same ↦ let is : p ≡ q = cc in rw (← is) again
  | inr other ↦ closed s q h other f
]

Closed-on :
    (ps : Parents) (cur p : String) (seen : List String)
    → Closed ps cur seen
    → funder ps cur ≡ some p
    → Closed ps p (p ∷ seen)
Closed-on ps cur p seen closed e s q h other f = elim (Has-cases s p seen h) [
  | inl is ↦ absurd (other is)
  | inr old ↦ elim (String-cases s cur) [
    | inl same ↦ let is : p ≡ q = cc in Has-same q p seen is
    | inr else_ ↦ Has-tail q p seen (closed s q old else_ f)
  ]
]

walk_complete :
    (d n : ℕ) (cur : String) (seen : List String) (ps : Parents) (x : String)
    → Closed ps cur seen
    → n < d
    → funder_at (suc n) ps cur ≡ some x
    → Has x (ancestors_from d cur seen ps)
walk_complete zero n cur seen ps x closed less far = absurd (omega (arith, less))
walk_complete (suc d) zero cur seen ps x closed less far = elim (walk-Step d cur seen ps) [
  | no_funder e stop ↦ absurd (ground (arith, sym (funder_at-none zero ps cur e) ∙ far))
  | round p e again stop ↦ rw stop (
      stays zero ps seen p x (Closed-round ps cur p seen closed e again) again
        (sym (funder_at-on zero ps cur p e) ∙ far))
  | on p e go ↦
      let same : some p ≡ some x = sym (funder_at-on zero ps cur p e) ∙ far in
      let is : p ≡ x = cc in rw go (walk_keeps d p (p ∷ seen) ps x (Has-same x p seen is))
]
walk_complete (suc d) (suc n) cur seen ps x closed less far = elim (walk-Step d cur seen ps) [
  | no_funder e stop ↦ absurd (ground (arith, sym (funder_at-none (suc n) ps cur e) ∙ far))
  | round p e again stop ↦ rw stop (
      stays (suc n) ps seen p x (Closed-round ps cur p seen closed e again) again
        (sym (funder_at-on (suc n) ps cur p e) ∙ far))
  | on p e go ↦ rw go (
      walk_complete d n p (p ∷ seen) ps x (Closed-on ps cur p seen closed e) (omega (arith, less))
        (sym (funder_at-on (suc n) ps cur p e) ∙ far))
]

-- The search for a wallet's funders ends, also where they go round in a circle, and it finds exactly the
-- funders that are one to four steps away: their names, and no other, are among the ancestors.
pub ancestors_iff :
    (w x : String) (ps : List (String × String))
    → Has x (ancestors w ps) ↔ ((n : ℕ) × (n < 4) × (funder_at (suc n) ps w ≡ some x))
unfolding ancestors
ancestors_iff w x ps = (
  λ h. elim (walk_sound 4 w [] ps x h) [ inl nothing ↦ cc | inr far ↦ far ],
  λ (n, less, far). walk_complete 4 n w [] ps x (λ s p h. cc) less far,
)
