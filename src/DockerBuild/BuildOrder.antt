-- ===== src/DockerBuild/BuildOrder.antt =====
-- The order in which docker/build.py builds the images.
use public_endorsement_servi.Base.{
  ℕ, ◌<◌, ◌≡◌, refl, sym, subst, ◌⊎◌, inl, inr, some, List, [], ◌∷◌, arith, Option-cases, In, Text,
  Dict, lookup, values, ok, raised, recursion_error,
}
use public_endorsement_servi.DockerBuild.Graph.{
  ImageConfig, Graph, full_graph, preds, visit, subgraph, order_or_exit, nodes_of, listed,
}
use public_endorsement_servi.DockerBuild.Reach.{Reach, target, dependency, visit_iff, visit_total}
use public_endorsement_servi.DockerBuild.Order.{IsOrdered, static_order-IsOrdered}
use public_endorsement_servi.DockerBuild.Acyclic.{In-fresh, static_order_total}
use public_endorsement_servi.DockerBuild.Tags.{get_build_order, order_of_visit, visit_rounds}
use public_endorsement_servi.DockerBuild.Needed.{
  Needed, is_given, depended, AreOrdered, lookup-full_graph, preds-full_graph, deps-preds,
  subgraph-lookup, preds-subgraph, In-listed, fresh-In, preds-subgraph_In, listed-subgraph,
  order_or_exit-ok,
}

IsOrdered-AreOrdered :
    (configs : Dict ImageConfig) (g : Graph) (done images : List Text)
    → ((n : Text) (conf : ImageConfig) (p : Text)
        → In n images
        → lookup n configs ≡ some conf
        → In p (values conf.deps)
        → In p (preds g n))
    → IsOrdered g done images
    → AreOrdered configs done images
IsOrdered-AreOrdered configs g done [] same h = tt
IsOrdered-AreOrdered configs g done (n ∷ images) same h = (
  λ conf p e i. h.0 p (same n conf p (inl refl) e i),
  IsOrdered-AreOrdered configs g (n ∷ done) images (λ m conf p i. same m conf p (inr i)) h.1,
)

listed-nodes : (g : Graph) (n : Text) → In n (listed g) → In n (nodes_of g)
unfolding nodes_of
listed-nodes g n h = elim (In-fresh [] (listed g) n h) [ inl s ↦ absurd s | inr m ↦ m ]

nodes-listed : (g : Graph) (n : Text) → In n (nodes_of g) → In n (listed g)
unfolding nodes_of
nodes-listed g n h = fresh-In [] (listed g) n h

module _ (configs : Dict ImageConfig) where
  all-AreOrdered :
      (images : List Text)
      → order_or_exit (full_graph configs) ≡ ok images
      → AreOrdered configs [] images
        × ((n : Text) (conf : ImageConfig) → lookup n configs ≡ some conf → In n images)
  all-AreOrdered images e =
      let g = full_graph configs in
      let (ordered, same) = static_order-IsOrdered g images (order_or_exit-ok g images e) in
      (
        IsOrdered-AreOrdered configs g [] images (λ n conf p m f i. deps-preds configs n p conf f i)
            ordered,
        λ n conf f. (same n).1 (
            listed-nodes g n
              (In-listed g n (values conf.deps) (lookup-full_graph configs n conf f))),
      )

  Needed-Reach :
      (given : List Text) (n : Text) → Needed configs given n → Reach (full_graph configs) given n
  Needed-Reach given n (is_given _ h) = target n h
  Needed-Reach given m (depended n _ conf r e i) =
      dependency n m (Needed-Reach given n r) (deps-preds configs n m conf e i)

  Reach-Needed :
      (given : List Text) (n : Text) → Reach (full_graph configs) given n → Needed configs given n
  Reach-Needed given n (target _ h) = is_given n h
  Reach-Needed given m (dependency n _ r h) =
      let (conf, e, i) = preds-full_graph configs n m h in
      depended n m conf (Reach-Needed given n r) e i

  some-AreOrdered :
      (fuel : ℕ) (given visited images : List Text)
      → visit fuel (full_graph configs) given [] ≡ some visited
      → order_or_exit (subgraph (full_graph configs) visited) ≡ ok images
      → AreOrdered configs [] images
        × ((n : Text) (conf : ImageConfig)
            → Needed configs given n
            → lookup n configs ≡ some conf
            → In n images)
        × ((n : Text) → In n images → Needed configs given n)
  some-AreOrdered fuel given visited images v e =
      let g = full_graph configs in
      let s = subgraph g visited in
      let seen = λ (n : Text). visit_iff g given fuel visited v n in
      let (ordered, same) = static_order-IsOrdered s images (order_or_exit-ok s images e) in
      let reached = λ (n : Text) (m : In n images).
        let out : Reach g given n =
          elim (listed-subgraph g visited n (nodes-listed s n ((same n).0 m))) [
            | inl i ↦ (seen n).0 i
            | inr (k, i, p) ↦ dependency k n ((seen k).0 i) p
          ] in
        out in
      (
        IsOrdered-AreOrdered configs s [] images
            (λ n conf p m f i.
              subst (In p) (sym (preds-subgraph g visited n ((seen n).1 (reached n m))))
                (deps-preds configs n p conf f i))
            ordered,
        λ n conf r f.
            let inside = (seen n).1 (Needed-Reach given n r) in
            let kept =
              subgraph-lookup g visited n (values conf.deps) inside
                (lookup-full_graph configs n conf f) in
            (same n).1 (listed-nodes s n (In-listed s n (values conf.deps) kept)),
        λ n m. Reach-Needed given n (reached n m),
      )

  order_of_visit-AreOrdered :
      (given images : List Text) (fuel : ℕ)
      → order_of_visit configs (visit fuel (full_graph configs) given []) ≡ ok images
      → AreOrdered configs [] images
        × ((n : Text) (conf : ImageConfig)
            → Needed configs given n
            → lookup n configs ≡ some conf
            → In n images)
        × ((n : Text) → In n images → Needed configs given n)
  order_of_visit-AreOrdered given images fuel e =
      elim (Option-cases (visit fuel (full_graph configs) given [])) [
        | inl stuck ↦ let bad : raised recursion_error ≡ ok images = rw stuck at e in cc
        | inr (visited, v) ↦ some-AreOrdered fuel given visited images v (rw v at e)
      ]

  -- In the order in which the images are built, each stands behind all the dependencies that its
  -- configuration names. The images with a configuration are there that the targets need, or all of
  -- them if there is no target; and nothing is there but what the targets need, if there is one.
  pub get_build_order-AreOrdered :
      (targets images : List Text)
      → get_build_order configs targets ≡ ok images
      → AreOrdered configs [] images
        × ((n : Text) (conf : ImageConfig)
            → (targets ≡ []) ⊎ Needed configs targets n
            → lookup n configs ≡ some conf
            → In n images)
        × ((n : Text) → In n images → (targets ≡ []) ⊎ Needed configs targets n)
  unfolding get_build_order
  get_build_order-AreOrdered [] images e =
      let (ordered, there) = all-AreOrdered images e in
      (ordered, λ n conf r f. there n conf f, λ n m. inl refl)
  get_build_order-AreOrdered (t ∷ targets) images e =
      let (ordered, there, needed) =
        order_of_visit-AreOrdered (t ∷ targets) images (visit_rounds configs (t ∷ targets)) e in
      (
        ordered,
        λ n conf r f. elim r [ inl none_given ↦ cc | inr needs ↦ there n conf needs f ],
        λ n m. inr (needed n m),
      )

  module _ (rank : Text → ℕ)
      (falls : (n p : Text) (conf : ImageConfig)
        → lookup n configs ≡ some conf
        → In p (values conf.deps)
        → rank p < rank n) where
    full_graph_falls : (n p : Text) → In p (preds (full_graph configs) n) → rank p < rank n
    full_graph_falls n p h = let (conf, e, i) = preds-full_graph configs n p h in falls n p conf e i

    subgraph_falls :
        (visited : List Text) (n p : Text)
        → In p (preds (subgraph (full_graph configs) visited) n)
        → rank p < rank n
    subgraph_falls visited n p h =
        full_graph_falls n p (preds-subgraph_In (full_graph configs) visited n p h)

    order_or_exit_total :
        (g : Graph)
        → ((n p : Text) → In p (preds g n) → rank p < rank n)
        → (images : List Text) × (order_or_exit g ≡ ok images)
    unfolding order_or_exit
    order_or_exit_total g down =
        let (order, s) = static_order_total g rank down in (order, rw (s, order_or_exit) refl)

    -- If the dependencies that each configuration names rank below its image, which no cycle allows,
    -- then there is an order for any targets.
    pub get_build_order_total :
        (targets : List Text) → (images : List Text) × (get_build_order configs targets ≡ ok images)
    unfolding get_build_order
    get_build_order_total [] = order_or_exit_total (full_graph configs) full_graph_falls
    get_build_order_total (t ∷ targets) =
        let g = full_graph configs in
        let (visited, v) =
          visit_total (visit_rounds configs (t ∷ targets)) g (t ∷ targets) [] (omega arith) in
        let (images, e) = order_or_exit_total (subgraph g visited) (subgraph_falls visited) in
        (images, rw (v) e)
