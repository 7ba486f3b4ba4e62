-- ===== src/Service/Stamps.antt =====
-- What is sent is stamped with the details of the token.
use insights_remote.Base.{String, List, [], ◌∷◌, map, ◌≡◌, ◌≢◌, refl, arith, eq_iff, All}
use insights_remote.Base.Int.{ℤ}
use insights_remote.Tokens.{NamespaceDetails}
use insights_remote.Types.{Fact, Facts, Problem, Problems}
use insights_remote.Service.{
  default_source, or_default, stamp_fact, stamp_facts, stamp_problem, stamp_problems,
}

-- The fact names the environment and the project of the details, and a source.
abbrev pub IsOwnedFact : NamespaceDetails → Fact → Type 0
IsOwnedFact d f =
    (f.environment_id ≡ d.environment_id)
    × (f.environment_name ≡ d.environment_name)
    × (f.project_name ≡ d.project_name)
    × (f.source ≢ "")

abbrev pub IsOwned : NamespaceDetails → ℤ → Facts → Type 0
IsOwned d n m =
    (m.environment_id ≡ n)
    × (m.environment_name ≡ d.environment_name)
    × (m.project_name ≡ d.project_name)
    × All (IsOwnedFact d) m.facts

abbrev pub AreOwned : NamespaceDetails → ℤ → Problems → Type 0
AreOwned d n m =
    (m.environment_id ≡ n)
    × (m.environment_name ≡ d.environment_name)
    × (m.project_name ≡ d.project_name)
    × All (λ p. (p.environment_id ≡ n) × (p.source ≢ "")) m.problems

or_default-ne-nil : (source : String) → or_default source ≢ ""
or_default-ne-nil source = ground (arith, eq_iff source "", eq_iff default_source "")

facts_owned : (d : NamespaceDetails) (fs : List Fact) → All (IsOwnedFact d) (map (stamp_fact d) fs)
unfolding stamp_fact
facts_owned d [] = tt
facts_owned d (f ∷ fs) = ((refl, refl, refl, or_default-ne-nil f.source), facts_owned d fs)

pub stamp_facts-IsOwned :
    (d : NamespaceDetails) (n : ℤ) (m : Facts) → IsOwned d n (stamp_facts d n m)
unfolding stamp_facts
stamp_facts-IsOwned d n m = (refl, refl, refl, facts_owned d m.facts)

problems_owned :
    (n : ℤ) (ps : List Problem)
    → All (λ p. (p.environment_id ≡ n) × (p.source ≢ "")) (map (stamp_problem n) ps)
unfolding stamp_problem
problems_owned n [] = tt
problems_owned n (p ∷ ps) = ((refl, or_default-ne-nil p.source), problems_owned n ps)

pub stamp_problems-AreOwned :
    (d : NamespaceDetails) (n : ℤ) (ps : List Problem) → AreOwned d n (stamp_problems d n ps)
unfolding stamp_problems
stamp_problems-AreOwned d n ps = (refl, refl, refl, problems_owned n ps)
