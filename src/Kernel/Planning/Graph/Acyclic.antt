-- ===== src/Kernel/Planning/Graph/Acyclic.antt =====
-- That a plan which the walk of `_graph` lets through has no cycle.
use walter.Prelude.{
  Within, ℕ, zero, suc, String, true, false, ◌≡◌, sym, ap, subst, Option, none, some, List, [], ◌∷◌,
  ◌==◌, eq_iff, eq_refl, All, elem, arith, ◌⊎◌, inl, inr, Bool-cases, Option-cases,
}
use walter.Prelude.Dict.{Dict, lookup}
use walter.Models.{Run, TaskNode}
use walter.Kernel.Monad.{Result, ok, Result-cases}
use walter.Kernel.Lineage.{references}
use walter.Kernel.Planning.Graph.{
  is_retired, successor, visit_one, visit_all, visit, graph_fuel, visit_tasks, graph,
}

-- What a reference leads to is in the list.
abbrev pub IsIn : Option String → List String → Type 0
IsIn none keys = Unit
IsIn (some key) keys = elem key keys ≡ true

abbrev pub Placed : Run → TaskNode → List String → String → Type 0
Placed run task keys dep =
    (next : Option String) × (successor run task dep ≡ ok next) × IsIn next keys

-- Every task of the list stands before all that it depends on, and only once.
abbrev pub IsOrdered : Run → List String → Type 0
IsOrdered run [] = Unit
IsOrdered run (key ∷ rest) =
    (elem key rest ≡ false)
    × ((task : TaskNode) × (lookup key run.tasks ≡ some task)
        × All (Placed run task rest) (references task))
    × IsOrdered run rest

IsIn-Within :
    (next : Option String) (xs ys : List String) → Within xs ys → IsIn next xs → IsIn next ys
IsIn-Within none xs ys w h = tt
IsIn-Within (some key) xs ys w h = w key h

-- A part of the walk: it keeps the order, forgets nothing, and adds nothing that is being visited.
record Walked (run : Run) (visiting visited visited' : List String) : Type 0 where
  ordered : IsOrdered run visited'
  kept : Within visited visited'
  apart : (k : String) → elem k visiting ≡ true → elem k visited ≡ false → elem k visited' ≡ false

Walked-refl :
    (run : Run) (visiting visited : List String)
    → IsOrdered run visited
    → Walked run visiting visited visited
Walked-refl run visiting visited h = record { ordered = h; kept = λ k e. e; apart = λ k e f. f }

Walked-trans :
    {run : Run} {visiting a b c : List String}
    → Walked run visiting a b
    → Walked run visiting b c
    → Walked run visiting a c
Walked-trans p q = record {
  ordered = q.ordered;
  kept = λ k e. q.kept k (p.kept k e);
  apart = λ k e f. q.apart k e (p.apart k e f);
}

module _ (visit : String → List String → Result (List String)) (run : Run) (task : TaskNode)
    (visiting : List String)
    (h : (key : String) (visited visited' : List String)
      → IsOrdered run visited
      → visit key visited ≡ ok visited'
      → Walked run visiting visited visited' × (elem key visited' ≡ true)) where
  visit_one-Walked :
      (next : Option String) (visited visited' : List String)
      → IsOrdered run visited
      → visit_one visit run task next visited ≡ ok visited'
      → Walked run visiting visited visited' × IsIn next visited'
  visit_one-Walked none visited visited' o e = (
    subst (Walked run visiting visited) (ground (arith, e)) (Walked-refl run visiting visited o),
    tt,
  )
  visit_one-Walked (some key) visited visited' o e = h key visited visited' o e

  visit_all-Walked :
      (deps visited visited' : List String)
      → IsOrdered run visited
      → visit_all visit run task deps visited ≡ ok visited'
      → Walked run visiting visited visited' × All (Placed run task visited') deps
  unfolding visit_all
  visit_all-Walked [] visited visited' o e = (
    subst (Walked run visiting visited) (ground (arith, e)) (Walked-refl run visiting visited o),
    tt,
  )
  visit_all-Walked (dep ∷ rest) visited visited' o e =
      elim (Result-cases (successor run task dep)) [
        | inr (_, e1) ↦ absurd (ground arith)
        | inl (next, e1) ↦ elim (Result-cases (visit_one visit run task next visited)) [
          | inr (_, e2) ↦ absurd (ground arith)
          | inl (mid, e2) ↦
              let (first, placed) = visit_one-Walked next visited mid o e2 in
              let (others, later) =
                visit_all-Walked rest mid visited' first.ordered (ground arith) in
              (
                Walked-trans first others,
                ((next, e1, IsIn-Within next mid visited' others.kept placed), later),
              )
        ]
      ]

push-Walked :
    (run : Run) (visiting visited visited' : List String) (key : String) (task : TaskNode)
    → elem key visiting ≡ false
    → elem key visited ≡ false
    → lookup key run.tasks ≡ some task
    → Walked run (key ∷ visiting) visited visited'
    → All (Placed run task visited') (references task)
    → Walked run visiting visited (key ∷ visited')
push-Walked run visiting visited visited' key task outside fresh found w placed = record {
  ordered = (w.apart key (ground (arith, eq_refl key)) fresh, (task, found, placed), w.ordered);
  kept = λ k e. ground (arith, w.kept k e);
  apart = λ k e f. stays_out k e (w.apart k (ground arith) f);
}
  where
    stays_out :
        (k : String)
        → elem k visiting ≡ true
        → elem k visited' ≡ false
        → elem k (key ∷ visited') ≡ false
    stays_out k e f = elim (Bool-cases (key == k)) [
      | inl same ↦ absurd (cc (e, outside, ap (λ j. elem j visiting) ((eq_iff key k).0 same)))
      | inr other ↦ ground arith
    ]

Walked-to :
    {run : Run} {visiting visited a b : List String} (key : String)
    → a ≡ b
    → Walked run visiting visited a × (elem key a ≡ true)
    → Walked run visiting visited b × (elem key b ≡ true)
Walked-to {run} {visiting} {visited} key p w =
    subst (λ l. Walked run visiting visited l × (elem key l ≡ true)) p w

visit-Walked :
    (fuel : ℕ) (run : Run) (visiting : List String) (key : String) (visited visited' : List String)
    → IsOrdered run visited
    → visit fuel run visiting key visited ≡ ok visited'
    → Walked run visiting visited visited' × (elem key visited' ≡ true)
unfolding visit
visit-Walked zero run visiting key visited visited' o e = absurd (ground arith)
visit-Walked (suc fuel) run visiting key visited visited' o e =
    elim (Bool-cases (elem key visiting)) [
      | inl cycle ↦ absurd (ground arith)
      | inr outside ↦ elim (Bool-cases (elem key visited)) [
        | inl before ↦ Walked-to key (ground arith) (Walked-refl run visiting visited o, before)
        | inr fresh ↦ elim (Option-cases (lookup key run.tasks)) [
          | inl e1 ↦ absurd (ground arith)
          | inr (task, e1) ↦
              elim (Result-cases
                (visit_all (visit fuel run (key ∷ visiting)) run task (references task) visited)) [
                  | inr (_, e2) ↦ absurd (ground arith)
                  | inl (mid, e2) ↦
                      let (w, placed) =
                        visit_all-Walked (visit fuel run (key ∷ visiting)) run task (key ∷ visiting)
                          (λ k a b. visit-Walked fuel run (key ∷ visiting) k a b) (references task)
                          visited mid o e2 in
                      Walked-to key (ground arith) (
                        push-Walked run visiting visited mid key task outside fresh e1 w placed,
                        ground (arith, eq_refl key),
                      )
                ]
        ]
      ]
    ]

visit_tasks-Walked :
    (run : Run) (slots : Dict TaskNode) (visited visited' : List String)
    → IsOrdered run visited
    → visit_tasks run slots visited ≡ ok visited'
    → Walked run [] visited visited'
      × All
          (λ (slot : String × TaskNode).
            (is_retired slot.1.status ≡ true) ⊎ (elem slot.0 visited' ≡ true))
          slots
unfolding visit_tasks
visit_tasks-Walked run [] visited visited' o e =
    (subst (Walked run [] visited) (ground (arith, e)) (Walked-refl run [] visited o), tt)
visit_tasks-Walked run ((key, task) ∷ rest) visited visited' o e =
    elim (Bool-cases (is_retired task.status)) [
      | inl retired ↦
          let (w, others) = visit_tasks-Walked run rest visited visited' o (ground arith) in
          (w, (inl retired, others))
      | inr live ↦ elim (Result-cases (visit (graph_fuel run) run [] key visited)) [
        | inr (_, e1) ↦ absurd (ground arith)
        | inl (mid, e1) ↦
            let (first, there) = visit-Walked (graph_fuel run) run [] key visited mid o e1 in
            let (w, others) =
              visit_tasks-Walked run rest mid visited' first.ordered (ground arith) in
            (Walked-trans first w, (inr (w.kept key there), others))
      ]
    ]

-- The walk lists every task that is not retired, and each task of the list behind which all that it
-- depends on stands.
graph-IsOrdered :
    (run : Run) (visited : List String)
    → graph run ≡ ok visited
    → IsOrdered run visited
      × All
          (λ (slot : String × TaskNode).
            (is_retired slot.1.status ≡ true) ⊎ (elem slot.0 visited ≡ true))
          run.tasks
unfolding graph
graph-IsOrdered run visited e =
    let (w, all) = visit_tasks-Walked run run.tasks [] visited tt e in (w.ordered, all)

-- Task `a` declares a reference that leads to task `b`.
abbrev pub DependsOn : Run → String → String → Type 0
DependsOn run a b =
    (task : TaskNode) × (lookup a run.tasks ≡ some task)
    × (dep : String) × (elem dep (references task) ≡ true)
    × (successor run task dep ≡ ok (some b))

-- One dependency or more.
pub data Chain (run : Run) (a : String) : String → Type 0 where
  one : {b : String} → DependsOn run a b → Chain run a b
  more : {b c : String} → Chain run a b → DependsOn run b c → Chain run a c

Placed-at :
    (run : Run) (task : TaskNode) (keys deps : List String) (dep b : String)
    → All (Placed run task keys) deps
    → elem dep deps ≡ true
    → successor run task dep ≡ ok (some b)
    → elem b keys ≡ true
Placed-at run task keys [] dep b h m e = absurd (ground arith)
Placed-at run task keys (d ∷ rest) dep b h m e = elim (Bool-cases (d == dep)) [
  | inl same ↦ at_head h.0.0 (ap (λ k. successor run task k) ((eq_iff d dep).0 same)) h.0.1 h.0.2
  | inr other ↦ Placed-at run task keys rest dep b h.1 (ground arith) e
]
  where
    at_head :
        (next : Option String)
        → successor run task d ≡ successor run task dep
        → successor run task d ≡ ok next
        → IsIn next keys
        → elem b keys ≡ true
    at_head none p q i = absurd (cc (p, q, e))
    at_head (some c) p q i = cc (p, q, e, i)

-- A dependency of a listed task stands behind it.
depends_behind :
    (run : Run) (key : String) (rest : List String) (b : String)
    → IsOrdered run (key ∷ rest)
    → DependsOn run key b
    → elem b rest ≡ true
depends_behind run key rest b o (task, found, dep, m, e) =
    Placed-at run o.1.0 rest (references o.1.0) dep b o.1.2
      (subst (λ (t : TaskNode). elem dep (references t) ≡ true) same m)
      (subst (λ (t : TaskNode). successor run t dep ≡ ok (some b)) same e)
  where
    same : task ≡ o.1.0
    same = cc (found, o.1.1)

closed :
    (run : Run) (keys : List String) (a b : String)
    → IsOrdered run keys
    → elem a keys ≡ true
    → DependsOn run a b
    → elem b keys ≡ true
closed run [] a b o m d = absurd (ground arith)
closed run (key ∷ rest) a b o m d = elim (Bool-cases (key == a)) [
  | inl same ↦ ground (
    arith,
    depends_behind run key rest b o
        (subst (λ k. DependsOn run k b) (sym ((eq_iff key a).0 same)) d),
  )
  | inr other ↦ ground (arith, closed run rest a b o.2 (ground arith) d)
]

Chain-closed :
    (run : Run) (keys : List String) (a b : String)
    → IsOrdered run keys
    → elem a keys ≡ true
    → Chain run a b
    → elem b keys ≡ true
Chain-closed run keys a b o m (one d) = closed run keys a b o m d
Chain-closed run keys a c o m (more {b} ch d) =
    closed run keys b c o (Chain-closed run keys a b o m ch) d

Chain-behind :
    (run : Run) (key : String) (rest : List String) (b : String)
    → IsOrdered run (key ∷ rest)
    → Chain run key b
    → elem b rest ≡ true
Chain-behind run key rest b o (one d) = depends_behind run key rest b o d
Chain-behind run key rest c o (more {b} ch d) =
    closed run rest b c o.2 (Chain-behind run key rest b o ch) d

no-Chain_back :
    (run : Run) (keys : List String) (a : String)
    → IsOrdered run keys
    → elem a keys ≡ true
    → Chain run a a
    → ⊥
no-Chain_back run [] a o m ch = ground arith
no-Chain_back run (key ∷ rest) a o m ch = elim (Bool-cases (key == a)) [
  | inl same ↦
      let e = (eq_iff key a).0 same in
      at_key (Chain-behind run key rest key o (subst (λ k. Chain run k k) (sym e) ch)) o.0
  | inr other ↦ no-Chain_back run rest a o.2 (ground arith) ch
]
  where
    at_key : elem key rest ≡ true → elem key rest ≡ false → ⊥
    at_key p q = cc

live_listed :
    (slots : Dict TaskNode) (visited : List String) (key : String) (task : TaskNode)
    → All
        (λ (slot : String × TaskNode).
          (is_retired slot.1.status ≡ true) ⊎ (elem slot.0 visited ≡ true))
        slots
    → lookup key slots ≡ some task
    → is_retired task.status ≡ false
    → elem key visited ≡ true
unfolding lookup
live_listed [] visited key task h found live = absurd (ground arith)
live_listed ((k, t) ∷ rest) visited key task h found live = elim (Bool-cases (k == key)) [
  | inl same ↦ elim h.0 [
    | inl retired ↦ absurd (ground arith)
    | inr there ↦ subst (λ j. elem j visited ≡ true) ((eq_iff k key).0 same) there
  ]
  | inr other ↦ live_listed rest visited key task h.1 (ground arith) live
]

-- If `_graph` lets the plan of a run through, no task of it that is not retired depends on itself,
-- directly or through any number of other tasks.
pub graph_acyclic :
    (run : Run) (visited : List String) (key : String) (task : TaskNode)
    → graph run ≡ ok visited
    → lookup key run.tasks ≡ some task
    → is_retired task.status ≡ false
    → ¬ Chain run key key
graph_acyclic run visited key task e found live ch =
    let (ordered, all) = graph-IsOrdered run visited e in
    no-Chain_back run visited key ordered (live_listed run.tasks visited key task all found live) ch
