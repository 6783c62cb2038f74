-- ===== src/DockerBuild/Needed.antt =====
-- The order of `get_build_order` in docker/build.py, in terms of the configurations of the images.
use public_endorsement_servi.Base.{
  ◌≡◌, refl, sym, ap, ◌∙◌, subst, ◌⊎◌, inl, inr, none, some, some-injective, ok-injective, List, [],
  ◌∷◌, ◌++◌, if◌then◌else◌, Bool-cases, Option-cases, In, In-append_cases, In-append_right, Text,
  text_eq, text_eq_iff, Dict, lookup, values, contains, ok, exited,
}
use public_endorsement_servi.Base.Integers.{pos}
use public_endorsement_servi.DockerBuild.Graph.{
  ImageConfig, Graph, full_graph, preds, subgraph, static_order, order_or_exit, fresh, listed,
}
use public_endorsement_servi.DockerBuild.Reach.{contains-In}
use public_endorsement_servi.DockerBuild.Order.{In-contains}

-- The images that a build needs: the given ones, and the dependencies of each that has a
-- configuration.
pub data Needed (configs : Dict ImageConfig) (given : List Text) : Text → Type 0 where
  is_given : (n : Text) → In n given → Needed configs given n
  depended :
      (n m : Text) (conf : ImageConfig)
      → Needed configs given n
      → lookup n configs ≡ some conf
      → In m (values conf.deps)
      → Needed configs given m

-- Each image stands behind all its dependencies, which are before it or in `done`.
abbrev pub AreOrdered : Dict ImageConfig → List Text → List Text → Type 0
AreOrdered configs done [] = Unit
AreOrdered configs done (n ∷ images) =
    ((conf : ImageConfig) (p : Text)
      → lookup n configs ≡ some conf
      → In p (values conf.deps)
      → In p done)
    × AreOrdered configs (n ∷ done) images

pub lookup-full_graph :
    (configs : Dict ImageConfig) (n : Text) (conf : ImageConfig)
    → lookup n configs ≡ some conf
    → lookup n (full_graph configs) ≡ some (values conf.deps)
unfolding lookup full_graph
lookup-full_graph [] n conf e = cc
lookup-full_graph ((k, c) ∷ configs) n conf e = elim (Bool-cases (text_eq k n)) [
  | inl y ↦
      let same : some c ≡ some conf = rw (y, lookup) at e in
      rw (y, lookup) (ap (λ (x : ImageConfig). some (values x.deps)) (some-injective _ _ same))
  | inr f ↦ rw (f, lookup) (lookup-full_graph configs n conf (rw (f, lookup) at e))
]

lookup-full_graph-none :
    (configs : Dict ImageConfig) (n : Text)
    → lookup n configs ≡ none
    → lookup n (full_graph configs) ≡ none
unfolding lookup full_graph
lookup-full_graph-none [] n e = refl
lookup-full_graph-none ((k, c) ∷ configs) n e = elim (Bool-cases (text_eq k n)) [
  | inl y ↦ let same : some c ≡ none = rw (y, lookup) at e in cc
  | inr f ↦ rw (f, lookup) (lookup-full_graph-none configs n (rw (f, lookup) at e))
]

preds-lookup : (g : Graph) (n : Text) (ns : List Text) → lookup n g ≡ some ns → preds g n ≡ ns
unfolding preds
preds-lookup g n ns e = rw (e, preds) refl

preds-lookup-none : (g : Graph) (n : Text) → lookup n g ≡ none → preds g n ≡ []
unfolding preds
preds-lookup-none g n e = rw (e, preds) refl

-- What an image depends on in the graph is what its configuration says.
pub preds-full_graph :
    (configs : Dict ImageConfig) (n p : Text)
    → In p (preds (full_graph configs) n)
    → (conf : ImageConfig) × (lookup n configs ≡ some conf) × In p (values conf.deps)
preds-full_graph configs n p h = elim (Option-cases (lookup n configs)) [
  | inl e ↦ absurd (
      subst (In p) (preds-lookup-none (full_graph configs) n (lookup-full_graph-none configs n e))
        h)
  | inr (conf, e) ↦ (
    conf,
    e,
    subst (In p) (preds-lookup (full_graph configs) n _ (lookup-full_graph configs n conf e)) h,
  )
]

pub deps-preds :
    (configs : Dict ImageConfig) (n p : Text) (conf : ImageConfig)
    → lookup n configs ≡ some conf
    → In p (values conf.deps)
    → In p (preds (full_graph configs) n)
deps-preds configs n p conf e h =
    subst (In p) (sym (preds-lookup (full_graph configs) n _ (lookup-full_graph configs n conf e)))
      h

lookup-subgraph :
    (g : Graph) (nodes : List Text) (n : Text)
    → lookup n (subgraph g nodes) ≡ (if contains nodes n then lookup n g else none)
unfolding subgraph lookup contains
lookup-subgraph g [] n = refl
lookup-subgraph g (k ∷ nodes) n = elim (Option-cases (lookup k g)) [
  | inl e ↦ elim (Bool-cases (text_eq k n)) [
    | inl y ↦
        let same : k ≡ n = (text_eq_iff k n).0 y in
        let missing : lookup n g ≡ none = ap (λ (x : Text). lookup x g) (sym same) ∙ e in
        rw (e, subgraph, y)
          (elim (Bool-cases (contains nodes n)) [
            | inl t ↦ rw t at (lookup-subgraph g nodes n)
            | inr f ↦ (rw f at (lookup-subgraph g nodes n)) ∙ sym missing
          ])
    | inr f ↦ rw (e, subgraph, f) (lookup-subgraph g nodes n)
  ]
  | inr (ns, e) ↦ elim (Bool-cases (text_eq k n)) [
    | inl y ↦
        let same : k ≡ n = (text_eq_iff k n).0 y in
        let there : lookup n g ≡ some ns = ap (λ (x : Text). lookup x g) (sym same) ∙ e in
        rw (e, subgraph, y, there) refl
    | inr f ↦ rw (e, subgraph, f) (lookup-subgraph g nodes n)
  ]
]

pub preds-subgraph :
    (g : Graph) (nodes : List Text) (n : Text) → In n nodes → preds (subgraph g nodes) n ≡ preds g n
unfolding preds
preds-subgraph g nodes n h =
    let kept : lookup n (subgraph g nodes) ≡ lookup n g =
      rw (In-contains nodes n h) at (lookup-subgraph g nodes n) in
    rw (preds, kept) refl

pub preds-subgraph_In :
    (g : Graph) (nodes : List Text) (n p : Text)
    → In p (preds (subgraph g nodes) n)
    → In p (preds g n)
preds-subgraph_In g nodes n p h = elim (Bool-cases (contains nodes n)) [
  | inl y ↦ subst (In p) (preds-subgraph g nodes n (contains-In nodes n y)) h
  | inr f ↦
      let gone : lookup n (subgraph g nodes) ≡ none = rw f at (lookup-subgraph g nodes n) in
      absurd (subst (In p) (preds-lookup-none (subgraph g nodes) n gone) h)
]

pub subgraph-lookup :
    (g : Graph) (nodes : List Text) (n : Text) (ns : List Text)
    → In n nodes
    → lookup n g ≡ some ns
    → lookup n (subgraph g nodes) ≡ some ns
subgraph-lookup g nodes n ns h e =
    let kept : lookup n (subgraph g nodes) ≡ lookup n g =
      rw (In-contains nodes n h) at (lookup-subgraph g nodes n) in
    kept ∙ e

pub In-listed : (g : Graph) (n : Text) (ns : List Text) → lookup n g ≡ some ns → In n (listed g)
unfolding lookup listed
In-listed [] n ns e = cc
In-listed ((k, ms) ∷ g) n ns e = elim (Bool-cases (text_eq k n)) [
  | inl y ↦ inl (sym ((text_eq_iff k n).0 y))
  | inr f ↦ inr (In-append_right n ms (listed g) (In-listed g n ns (rw (f, lookup) at e)))
]

pub fresh-In : (seen xs : List Text) (x : Text) → In x (fresh seen xs) → In x xs
unfolding fresh
fresh-In seen [] x m = absurd m
fresh-In seen (y ∷ xs) x m = elim (Bool-cases (contains seen y)) [
  | inl t ↦ inr (fresh-In seen xs x (rw (t, fresh) at m))
  | inr f ↦
      let m' : In x (y ∷ fresh (y ∷ seen) xs) = rw (f, fresh) at m in
      elim m' [ inl e ↦ inl e | inr r ↦ inr (fresh-In (y ∷ seen) xs x r) ]
]

-- The sorter knows the nodes of the subgraph and what they depend on.
pub listed-subgraph :
    (g : Graph) (nodes : List Text) (x : Text)
    → In x (listed (subgraph g nodes))
    → In x nodes ⊎ ((n : Text) × In n nodes × In x (preds g n))
unfolding subgraph listed
listed-subgraph g [] x m = absurd m
listed-subgraph g (k ∷ nodes) x m =
    let further = λ (h : In x (listed (subgraph g nodes))).
      let out : In x (k ∷ nodes) ⊎ ((n : Text) × In n (k ∷ nodes) × In x (preds g n)) =
        elim (listed-subgraph g nodes x h) [
          | inl i ↦ inl (inr i)
          | inr (n, i, p) ↦ inr (n, inr i, p)
        ] in
      out in
    elim (Option-cases (lookup k g)) [
      | inl e ↦ further (rw (e, subgraph) at m)
      | inr (ns, e) ↦
          let m' : In x (k ∷ (ns ++ listed (subgraph g nodes))) = rw (e, subgraph) at m in
          elim m' [
            | inl same ↦ inl (inl same)
            | inr r ↦ elim (In-append_cases x ns (listed (subgraph g nodes)) r) [
              | inl l ↦ inr (k, inl refl, subst (In x) (sym (preds-lookup g k ns e)) l)
              | inr later ↦ further later
            ]
          ]
    ]

pub order_or_exit-ok :
    (g : Graph) (images : List Text) → order_or_exit g ≡ ok images → static_order g ≡ some images
unfolding order_or_exit
order_or_exit-ok g images e = elim (Option-cases (static_order g)) [
  | inl n ↦ let bad : exited (pos 1) ≡ ok images = rw (n, order_or_exit) at e in cc
  | inr (order, s) ↦
      let same : ok order ≡ ok images = rw (s, order_or_exit) at e in
      s ∙ ap (λ (l : List Text). some l) (ok-injective _ _ same)
]
