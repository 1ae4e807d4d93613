-- ===== src/Liveness/Partitioned.antt =====
-- The search of `liveRangeContains` for the next user meets what `upper_bound` requires.
use fcd.Base.{ℕ, ◌≤◌, inl, inr, Bool-cases, List, [], ◌∷◌, All-map, ltb, ltb→lt, lt→ltb, arith}
use fcd.Liveness.Search.{UseRoot, compare_statement_less, IsPartitioned, Ascending}

-- The search for the next user is on a partitioned list.
pub next-IsPartitioned :
    (index : ℕ) (us : List UseRoot) → Ascending us → IsPartitioned (compare_statement_less index) us
next-IsPartitioned index [] h = tt
next-IsPartitioned index (u ∷ us) h = elim (Bool-cases (ltb index u.start)) [
  | inl q ↦ inr (
    q,
    All-map (λ (v : UseRoot). u.start ≤ v.start) _ us
        (λ v k. let before = ltb→lt index u.start q in lt→ltb index v.start (omega arith)) h.0,
  )
  | inr q ↦ inl (q, next-IsPartitioned index us h.1)
]
