-- ===== src/Command/Parts.antt =====
-- Which parts of the program cmd/main.go starts, and in what order.
use mathlib.Core.List.{append_assoc}
use insights_remote.Base.{List, [], ◌∷◌, ◌++◌, ◌≡◌, refl, ◌∙◌, ap, sym, ◌⊎◌, inl, inr, arith}
use insights_remote.Base.Exec.{Error, Outcome, ok, err, ◌>>◌}
use insights_remote.PostProcess.DependencyTrack.{Libraries}
use insights_remote.Tokens.{Jwt}
use insights_remote.World.{World}
use insights_remote.Command.Config.{Environment}
use insights_remote.Command.Calls.{Startup, Log, Start, Answers}
use insights_remote.Command.{main, Flags, stopped, fatal}

-- The log with the calls of a plan behind it.
abbrev pub onto : List Startup → Log → Log
onto [] log = log
onto (c ∷ p) log = onto p (c ∷ log)

onto-append : (p q : List Startup) (log : Log) → onto (p ++ q) log ≡ onto q (onto p log)
onto-append [] q log = refl
onto-append (c ∷ p) q log = onto-append p q (c ∷ log)

module _ (answers : Answers) where
  -- All calls of the plan were made, in order; or they were up to one that was refused, with its error.
  abbrev Follows : List Startup → Log → Outcome (Unit {0}) × Log → Type 0
  Follows p log r =
      (r ≡ (ok tt, onto p log))
      ⊎ ((q : List Startup) × (c : Startup) × (rest : List Startup) × (e : Error) × (p
            ≡ q ++ c ∷ rest)
          × (answers (onto q log) c ≡ inl e)
          × (r ≡ (err e, c ∷ onto q log)))

  then-Follows :
      (m n : Start) (p q : List Startup) (log : Log)
      → Follows p log (m log)
      → ((l : Log) → Follows q l (n l))
      → Follows (p ++ q) log ((m >> n) log)
  then-Follows m n p q log (inl done) later = elim (later (onto p log)) [
    | inl all_done ↦ inl (ground (arith, done, all_done, onto-append p q log))
    | inr (q', c, rest, e, splits, refused, ends) ↦ inr (
      p ++ q',
      c,
      rest,
      e,
      ap (λ z. p ++ z) splits ∙ sym (append_assoc p q' (c ∷ rest)),
      ap (λ z. answers z c) (onto-append p q' log) ∙ refused,
      ground (arith, done, ends, onto-append p q' log),
    )
  ]
  then-Follows m n p q log (inr (p', c, rest, e, splits, refused, ends)) later = inr (
    p',
    c,
    rest ++ q,
    e,
    ap (λ z. z ++ q) splits ∙ append_assoc p' (c ∷ rest) q,
    refused,
    ground (arith, ends),
  )

  -- The parts of a `do` block, one after the other.
  infixr 4 ◌then◌
  ◌then◌ :
      {m n : Start} {p q : List Startup}
      → ((l : Log) → Follows p l (m l))
      → ((l : Log) → Follows q l (n l))
      → (l : Log) → Follows (p ++ q) l ((m >> n) l)
  ◌then◌ {m} {n} {p} {q} first later l = then-Follows m n p q l (first l) later

module _ (libraries : Libraries) (w : World) (j : Jwt) (env : Environment) (answers : Answers)
    (flags : Flags) where
  -- The program ends as its manager stops, after all the calls of the plan; or by the first call that
  -- was refused.
  abbrev pub Starts : List Startup → Type 0
  Starts p =
      (main libraries w j env answers flags ≡ (stopped, onto p []))
      ⊎ ((q : List Startup) × (c : Startup) × (rest : List Startup) × (e : Error) × (p
            ≡ q ++ c ∷ rest)
          × (answers (onto q []) c ≡ inl e)
          × (main libraries w j env answers flags ≡ (fatal, c ∷ onto q [])))
