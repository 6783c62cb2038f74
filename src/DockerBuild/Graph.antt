-- ===== src/DockerBuild/Graph.antt =====
-- `get_dependency_subgraph` of docker/build.py, with `graphlib.TopologicalSorter`. A Python set is a
-- list here; where Python takes any element of a set, the model takes the first.
use public_endorsement_servi.Base.{
  ℕ, zero, suc, Bool, true, false, not, Option, none, some, List, [], ◌∷◌, ◌++◌, Text, Dict, lookup,
  contains, values, all_of, filter_by, length, Outcome, ok, exited,
}
use public_endorsement_servi.Base.Integers.{pos}

-- The TypedDict `ImageConfig`.
pub record ImageConfig : Type 0 where
  pub deps : Dict Text
  pub local : Option Bool

abbrev pub Graph : Type 0
Graph = Dict (List Text)

-- {name: set(conf["deps"].values()) for name, conf in image_configs_map.items()}
unfoldable pub full_graph : Dict ImageConfig → Graph
full_graph [] = []
full_graph ((name, conf) ∷ configs) = (name, values conf.deps) ∷ full_graph configs

-- What a node depends on, if it is in the graph.
unfoldable pub preds : Graph → Text → List Text
unfolding lookup
preds g n = elim (lookup n g) [ none ↦ [] | some ns ↦ ns ]

-- The `while nodes_to_visit` loop, with fuel for its rounds.
unfoldable pub visit : ℕ → Graph → List Text → List Text → Option (List Text)
unfolding preds contains
visit zero g todo visited = none
visit (suc fuel) g [] visited = some visited
visit (suc fuel) g (n ∷ todo) visited = elim (contains visited n) [
  | true ↦ visit fuel g todo visited
  | false ↦ visit fuel g (preds g n ++ todo) (n ∷ visited)
]

-- {node: full_graph[node] for node in visited_nodes if node in full_graph}
unfoldable pub subgraph : Graph → List Text → Graph
unfolding lookup
subgraph g [] = []
subgraph g (n ∷ nodes) =
    let rest = subgraph g nodes in elim (lookup n g) [ none ↦ rest | some ns ↦ (n, ns) ∷ rest ]

-- xs, without what `seen` or an earlier place holds.
unfoldable pub fresh : List Text → List Text → List Text
unfolding contains
fresh seen [] = []
fresh seen (x ∷ xs) = elim (contains seen x) [
  | true ↦ fresh seen xs
  | false ↦ x ∷ fresh (x ∷ seen) xs
]

unfoldable pub listed : Graph → List Text
listed [] = []
listed ((n, ns) ∷ g) = n ∷ ns ++ listed g

-- The nodes that the sorter knows: the keys and what they depend on.
unfoldable pub nodes_of : Graph → List Text
unfolding fresh listed
nodes_of g = fresh [] (listed g)

-- A node is ready once all that it depends on is done.
unfoldable pub is_ready : Graph → List Text → Text → Bool
unfolding preds contains
is_ready g done n = all_of (λ p. contains done p) (preds g n)

-- `static_order`, in rounds of `get_ready` and `done`; `none` is a CycleError, where nodes are left
-- and none is ready.
unfoldable pub sort_rounds : ℕ → Graph → List Text → List Text → Option (List Text)
unfolding is_ready
sort_rounds rounds g done [] = some done
sort_rounds zero g done (n ∷ pending) = none
sort_rounds (suc rounds) g done (n ∷ pending) =
    let ready = filter_by (λ m. is_ready g done m) (n ∷ pending) in
    elim ready [
      | [] ↦ none
      | r ∷ rs ↦
          sort_rounds rounds g (done ++ (r ∷ rs))
            (filter_by (λ m. not (is_ready g done m)) (n ∷ pending))
    ]

-- list(graphlib.TopologicalSorter(graph).static_order())
unfoldable pub static_order : Graph → Option (List Text)
unfolding sort_rounds nodes_of
static_order g = sort_rounds (length (nodes_of g)) g [] (nodes_of g)

-- The `try` around the sorter: a cycle ends the process.
unfoldable pub order_or_exit : Graph → Outcome (List Text)
unfolding static_order
order_or_exit g = elim (static_order g) [ none ↦ exited (pos 1) | some order ↦ ok order ]

-- `none` is the end of the fuel.
unfoldable pub get_dependency_subgraph :
    ℕ → List Text → Dict ImageConfig → Option (Outcome (List Text))
unfolding visit subgraph full_graph order_or_exit
get_dependency_subgraph fuel targets configs =
    let g = full_graph configs in
    elim (visit fuel g targets []) [
      | none ↦ none
      | some visited ↦ some (order_or_exit (subgraph g visited))
    ]
