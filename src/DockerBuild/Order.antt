-- ===== src/DockerBuild/Order.antt =====
-- The order of `TopologicalSorter.static_order`, on which docker/build.py relies.
use mathlib.Core.List.{append-nil, append_assoc}
use public_endorsement_servi.Base.{
  ℕ, zero, suc, ◌≡◌, refl, sym, subst, ◌∙◌, ◌↔◌, inl, inr, Bool, true, false, not, none, some,
  some-injective, List, [], ◌∷◌, ◌++◌, arith, Bool-cases, List-cases, In, In-append_cases,
  In-append_left, In-append_right, In-filter_by, all_of, filter_by, length, Text, text_eq_iff,
  contains,
}
use public_endorsement_servi.DockerBuild.Graph.{
  Graph, preds, is_ready, sort_rounds, static_order, nodes_of,
}
use public_endorsement_servi.DockerBuild.Reach.{contains-In}

-- Each node of `order` stands behind all that it depends on, which is before it or in `done`.
abbrev pub IsOrdered : Graph → List Text → List Text → Type 0
IsOrdered g done [] = Unit
IsOrdered g done (n ∷ order) =
    ((p : Text) → In p (preds g n) → In p done) × IsOrdered g (n ∷ done) order

all_of-In : (f : Text → Bool) (l : List Text) → all_of f l ≡ true → (p : Text) → In p l → f p ≡ true
all_of-In f [] h p m = absurd m
all_of-In f (x ∷ l) h p m = elim (Bool-cases (f x)) [
  | inl y ↦ elim m [ inl e ↦ rw e y | inr r ↦ all_of-In f l (rw y at h) p r ]
  | inr n ↦ let bad : false ≡ true = rw n at h in cc
]

pub all_of-false :
    (f : Text → Bool) (l : List Text) → all_of f l ≡ false → (p : Text) × In p l × (f p ≡ false)
all_of-false f [] h = cc
all_of-false f (x ∷ l) h = elim (Bool-cases (f x)) [
  | inl y ↦ let (p, m, e) = all_of-false f l (rw y at h) in (p, inr m, e)
  | inr n ↦ (x, inl refl, n)
]

pub In-contains : (l : List Text) (k : Text) → In k l → contains l k ≡ true
unfolding contains
In-contains [] k m = absurd m
In-contains (j ∷ l) k (inl e) = rw ((text_eq_iff j k).1 (sym e))
In-contains (j ∷ l) k (inr m) = ground (arith, In-contains l k m)

ready-In :
    (g : Graph) (done : List Text) (n : Text)
    → is_ready g done n ≡ true
    → (p : Text) → In p (preds g n)
    → In p done
unfolding is_ready
ready-In g done n h p m = contains-In done p (all_of-In (λ q. contains done q) (preds g n) h p m)

-- More done nodes order no less.
IsOrdered-grow :
    (g : Graph) (order done done' : List Text)
    → ((p : Text) → In p done → In p done')
    → IsOrdered g done order
    → IsOrdered g done' order
IsOrdered-grow g [] done done' sub h = tt
IsOrdered-grow g (n ∷ order) done done' sub h = (
  λ p m. sub p (h.0 p m),
  IsOrdered-grow g order (n ∷ done) (n ∷ done')
      (λ p m. elim m [ inl e ↦ inl e | inr r ↦ inr (sub p r) ]) h.1,
)

-- A round: the ready nodes come first, and the rest may count on them.
IsOrdered-round :
    (g : Graph) (xs rest done : List Text)
    → ((n : Text) → In n xs → (p : Text) → In p (preds g n) → In p done)
    → IsOrdered g (done ++ xs) rest
    → IsOrdered g done (xs ++ rest)
IsOrdered-round g [] rest done ready h =
    IsOrdered-grow g rest (done ++ []) done
      (λ p m. elim (In-append_cases p done [] m) [ inl l ↦ l | inr r ↦ absurd r ]) h
IsOrdered-round g (x ∷ xs) rest done ready h = (
  ready x (inl refl),
  IsOrdered-round g xs rest (x ∷ done) (λ n m p q. inr (ready n (inr m) p q))
      (IsOrdered-grow g rest (done ++ (x ∷ xs)) ((x ∷ done) ++ xs)
        (λ p m. elim (In-append_cases p done (x ∷ xs) m) [
          | inl l ↦ inr (In-append_left p done xs l)
          | inr r ↦ elim r [ inl e ↦ inl e | inr t ↦ inr (In-append_right p done xs t) ]
        ])
        h),
)

-- What the rounds put behind `done` is in order, and is what was pending.
rounds-IsOrdered :
    (rounds : ℕ) (g : Graph) (done pending result : List Text)
    → sort_rounds rounds g done pending ≡ some result
    → (order : List Text) × (result ≡ done ++ order)
      × IsOrdered g done order
      × ((n : Text) → In n order ↔ In n pending)
unfolding sort_rounds
rounds-IsOrdered rounds g done [] result e =
    ([], sym (some-injective _ _ e) ∙ sym (append-nil done), tt, λ n. (λ h. h, λ h. h))
rounds-IsOrdered zero g done (n ∷ pending) result e = cc
rounds-IsOrdered (suc rounds) g done (n ∷ pending) result e =
    let f = λ (m : Text). is_ready g done m in
    let later = filter_by (λ m. not (is_ready g done m)) (n ∷ pending) in
    elim (List-cases (filter_by f (n ∷ pending))) [
      | inl stuck ↦ let bad : none ≡ some result = rw (stuck, sort_rounds) at e in cc
      | inr (r, rs, some_ready) ↦
          let (order, ends, ordered, same) =
            rounds-IsOrdered rounds g (done ++ (r ∷ rs)) later result
              (rw (some_ready, sort_rounds) at e) in
          let in_ready = λ (m : Text) (h : In m (r ∷ rs)).
            (In-filter_by f m (n ∷ pending)).0 (subst (In m) (sym some_ready) h) in
          (
            (r ∷ rs) ++ order,
            ends ∙ append_assoc done (r ∷ rs) order,
            IsOrdered-round g (r ∷ rs) order done
                (λ m h p q. ready-In g done m (in_ready m h).1 p q) ordered,
            λ m. (
              λ h. elim (In-append_cases m (r ∷ rs) order h) [
                | inl l ↦ (in_ready m l).0
                | inr o ↦
                    ((In-filter_by (λ k. not (is_ready g done k)) m (n ∷ pending)).0
                      ((same m).0 o)).0
              ],
              λ h. elim (Bool-cases (is_ready g done m)) [
                | inl y ↦
                    In-append_left m (r ∷ rs) order
                      (subst (In m) some_ready ((In-filter_by f m (n ∷ pending)).1 (h, y)))
                | inr no_yet ↦ In-append_right m (r ∷ rs) order (
                    (same m).1 (
                      (In-filter_by (λ k. not (is_ready g done k)) m (n ∷ pending)).1
                        (h, rw no_yet)))
              ],
            ),
          )
    ]

-- In the order that the sorter returns each node stands behind all that it depends on, and the
-- nodes are exactly those of the graph.
pub static_order-IsOrdered :
    (g : Graph) (order : List Text)
    → static_order g ≡ some order
    → IsOrdered g [] order × ((n : Text) → In n order ↔ In n (nodes_of g))
unfolding static_order
static_order-IsOrdered g order e =
    let (o, ends, ordered, same) =
      rounds-IsOrdered (length (nodes_of g)) g [] (nodes_of g) order e in
    (rw ends ordered, λ n. rw ends (same n))
