-- ===== src/DockerBuild/Reach.antt =====
-- The closure of `get_dependency_subgraph` in docker/build.py visits what the targets depend on.
use public_endorsement_servi.Base.{
  ℕ, zero, suc, ◌+◌, ◌≤◌, ◌<◌, ◌≡◌, refl, sym, subst, ◌↔◌, ◌⊎◌, inl, inr, true, false, some,
  some-injective, List, [], ◌∷◌, ◌++◌, arith, if◌then◌else◌, Bool-cases, In, In-append_cases,
  In-append_left, In-append_right, Text, text_eq, text_eq_iff, lookup, contains, length,
  length-append,
}
use public_endorsement_servi.DockerBuild.Graph.{Graph, preds, visit}

-- The targets, and all that they depend on.
pub data Reach (g : Graph) (targets : List Text) : Text → Type 0 where
  target : (n : Text) → In n targets → Reach g targets n
  dependency : (n m : Text) → Reach g targets n → In m (preds g n) → Reach g targets m

pub contains-In : (l : List Text) (k : Text) → contains l k ≡ true → In k l
unfolding contains
contains-In [] k h = cc
contains-In (j ∷ l) k h = elim (Bool-cases (text_eq j k)) [
  | inl y ↦ inl (sym ((text_eq_iff j k).0 y))
  | inr n ↦ inr (contains-In l k (rw (n, contains) at h))
]

module _ (g : Graph) (targets : List Text) where
  -- What the loop keeps: it only meets nodes to reach, and what is seen is seen with all that it
  -- depends on, but for what is still to visit.
  record IsClosing (todo visited : List Text) : Type 0 where
    reachable : (n : Text) → In n visited ⊎ In n todo → Reach g targets n
    started : (n : Text) → In n targets → In n visited ⊎ In n todo
    closed : (n m : Text) → In n visited → In m (preds g n) → In m visited ⊎ In m todo

  skip-IsClosing :
      (n : Text) (todo visited : List Text)
      → In n visited
      → IsClosing (n ∷ todo) visited
      → IsClosing todo visited
  skip-IsClosing n todo visited seen inv =
      let drop_head = λ (m : Text) (h : In m visited ⊎ In m (n ∷ todo)).
        let out : In m visited ⊎ In m todo = elim h [
          | inl v ↦ inl v
          | inr t ↦ elim t [ inl e ↦ inl (rw e seen) | inr r ↦ inr r ]
        ] in
        out in
      record {
        reachable = λ m h. inv.reachable m (elim h [ inl v ↦ inl v | inr t ↦ inr (inr t) ]);
        started = λ m h. drop_head m (inv.started m h);
        closed = λ k m h i. drop_head m (inv.closed k m h i);
      }

  expand-IsClosing :
      (n : Text) (todo visited : List Text)
      → IsClosing (n ∷ todo) visited
      → IsClosing (preds g n ++ todo) (n ∷ visited)
  expand-IsClosing n todo visited inv =
      let move = λ (m : Text) (h : In m visited ⊎ In m (n ∷ todo)).
        let out : In m (n ∷ visited) ⊎ In m (preds g n ++ todo) = elim h [
          | inl v ↦ inl (inr v)
          | inr t ↦ elim t [
            | inl e ↦ inl (inl e)
            | inr r ↦ inr (In-append_right m (preds g n) todo r)
          ]
        ] in
        out in
      record {
        reachable = λ m h. elim h [
          | inl v ↦ elim v [
            | inl e ↦ rw e (inv.reachable n (inr (inl refl)))
            | inr old ↦ inv.reachable m (inl old)
          ]
          | inr t ↦ elim (In-append_cases m (preds g n) todo t) [
            | inl p ↦ dependency n m (inv.reachable n (inr (inl refl))) p
            | inr r ↦ inv.reachable m (inr (inr r))
          ]
        ];
        started = λ m h. move m (inv.started m h);
        closed = λ k m h i. elim h [
          | inl e ↦
              inr (In-append_left m (preds g n) todo (subst (λ (x : Text). In m (preds g x)) e i))
          | inr old ↦ move m (inv.closed k m old i)
        ];
      }

  visit-IsClosing :
      (fuel : ℕ) (todo visited result : List Text)
      → visit fuel g todo visited ≡ some result
      → IsClosing todo visited
      → IsClosing [] result
  unfolding visit
  visit-IsClosing zero todo visited result e inv = cc
  visit-IsClosing (suc fuel) [] visited result e inv =
      subst (IsClosing []) (some-injective _ _ e) inv
  visit-IsClosing (suc fuel) (n ∷ todo) visited result e inv =
      elim (Bool-cases (contains visited n)) [
        | inl y ↦
            visit-IsClosing fuel todo visited result (rw (y, visit) at e)
              (skip-IsClosing n todo visited (contains-In visited n y) inv)
        | inr f ↦
            visit-IsClosing fuel (preds g n ++ todo) (n ∷ visited) result (rw (f, visit) at e)
              (expand-IsClosing n todo visited inv)
      ]

  Reach-In :
      (result : List Text) → IsClosing [] result → (n : Text) → Reach g targets n → In n result
  Reach-In result inv n (target _ h) = elim (inv.started n h) [ inl v ↦ v | inr t ↦ absurd t ]
  Reach-In result inv m (dependency n _ r h) = elim (inv.closed n m (Reach-In result inv n r) h) [
    | inl v ↦ v
    | inr t ↦ absurd t
  ]

  -- The loop that collects the nodes ends with exactly the targets and all that they depend on,
  -- directly or not.
  pub visit_iff :
      (fuel : ℕ) (visited : List Text)
      → visit fuel g targets [] ≡ some visited
      → (n : Text) → In n visited ↔ Reach g targets n
  visit_iff fuel visited e n =
      let start : IsClosing targets [] = record {
        reachable = λ m h. elim h [ inl v ↦ absurd v | inr t ↦ target m t ];
        started = λ m h. inr h;
        closed = λ k m h i. absurd h;
      } in
      let inv = visit-IsClosing fuel targets [] visited e start in
      (λ h. inv.reachable n (inl h), Reach-In visited inv n)

-- The dependencies that the nodes not visited yet can still add.
unfoldable pub weight : Graph → List Text → ℕ
weight [] visited = 0
weight ((k, ns) ∷ g) visited =
    if contains visited k then weight g visited else length ns + weight g visited

weight-visit-le :
    (g : Graph) (n : Text) (visited : List Text) → weight g (n ∷ visited) ≤ weight g visited
unfolding weight contains
weight-visit-le [] n visited = omega arith
weight-visit-le ((k, ns) ∷ g) n visited = ground (arith, weight-visit-le g n visited)

preds_nil_le : (n : Text) → length (preds [] n) + 0 ≤ 0
unfolding preds lookup
preds_nil_le n = omega arith

pub preds-cons :
    (g : Graph) (k n : Text) (ns : List Text)
    → preds ((k, ns) ∷ g) n ≡ (if text_eq k n then ns else preds g n)
unfolding preds lookup
preds-cons g k n ns = ground arith

weight-visit :
    (g : Graph) (n : Text) (visited : List Text)
    → contains visited n ≡ false
    → length (preds g n) + weight g (n ∷ visited) ≤ weight g visited
unfolding weight contains
weight-visit [] n visited h = preds_nil_le n
weight-visit ((k, ns) ∷ g) n visited h = elim (Bool-cases (text_eq k n)) [
  | inl y ↦
      let e = (text_eq_iff k n).0 y in
      let back = (text_eq_iff n k).1 (sym e) in
      let new : contains visited k ≡ false = rw e h in
      rw (preds-cons g k n ns, y, back, new) (omega (arith, weight-visit-le g n visited))
  | inr f ↦
      let back : text_eq n k ≡ false = ground (arith, text_eq_iff n k, text_eq_iff k n) in
      rw (preds-cons g k n ns, f, back) (ground (arith, weight-visit g n visited h))
]

-- With fuel above the targets and the dependencies of the graph, the loop ends.
pub visit_total :
    (fuel : ℕ) (g : Graph) (todo visited : List Text)
    → length todo + weight g visited < fuel
    → (result : List Text) × (visit fuel g todo visited ≡ some result)
unfolding visit
visit_total zero g todo visited h = absurd (omega arith)
visit_total (suc fuel) g [] visited h = (visited, refl)
visit_total (suc fuel) g (n ∷ todo) visited h = elim (Bool-cases (contains visited n)) [
  | inl y ↦ let (r, run) = visit_total fuel g todo visited (omega arith) in (r, rw (y, visit) run)
  | inr f ↦
      let (r, run) =
        visit_total fuel g (preds g n ++ todo) (n ∷ visited)
          (omega (arith, weight-visit g n visited f, length-append (preds g n) todo)) in
      (r, rw (f, visit) run)
]
