-- ===== src/DockerBuild/Acyclic.antt =====
-- The sorter that docker/build.py uses, on graphs without a cycle.
use public_endorsement_servi.Base.{
  ℕ, zero, suc, ◌≤◌, ◌<◌, ◌≡◌, refl, subst, ◌⊎◌, inl, inr, Bool, true, not, some, List, [], ◌∷◌,
  ◌++◌, arith, if◌then◌else◌, Bool-cases, List-cases, In, In-append_left, In-append_right,
  In-filter_by, filter_by, length, Text, text_eq, contains, lookup,
}
use public_endorsement_servi.DockerBuild.Graph.{
  Graph, preds, is_ready, sort_rounds, static_order, nodes_of, fresh, listed,
}
use public_endorsement_servi.DockerBuild.Reach.{contains-In, preds-cons}
use public_endorsement_servi.DockerBuild.Order.{all_of-false, In-contains}

filter_not-le :
    (f : Text → Bool) (xs : List Text) → length (filter_by (λ x. not (f x)) xs) ≤ length xs
filter_not-le f [] = omega arith
filter_not-le f (x ∷ xs) = ground (arith, filter_not-le f xs)

filter_not-lt :
    (f : Text → Bool) (xs : List Text) (m : Text)
    → In m xs
    → f m ≡ true
    → length (filter_by (λ x. not (f x)) xs) < length xs
filter_not-lt f [] m h t = absurd h
filter_not-lt f (x ∷ xs) m (inl e) t =
    let y : f x ≡ true = subst (λ (z : Text). f z ≡ true) e t in ground (arith, filter_not-le f xs)
filter_not-lt f (x ∷ xs) m (inr h) t = ground (arith, filter_not-lt f xs m h t)

-- Every dependency of a pending node is done or pending.
abbrev IsClosedUnder : Graph → List Text → List Text → Type 0
IsClosedUnder g done pending =
    (n p : Text) → In n pending → In p (preds g n) → In p done ⊎ In p pending

module _ (g : Graph) (rank : Text → ℕ)
    (falls : (n p : Text) → In p (preds g n) → rank p < rank n) where
  find_ready :
      (k : ℕ) (done pending : List Text) (n : Text)
      → IsClosedUnder g done pending
      → In n pending
      → rank n < k
      → (m : Text) × In m pending × (is_ready g done m ≡ true)
  unfolding is_ready
  find_ready zero done pending n closed h lt = absurd (omega arith)
  find_ready (suc k) done pending n closed h lt = elim (Bool-cases (is_ready g done n)) [
    | inl y ↦ (n, h, y)
    | inr no_yet ↦
        let (p, dep, out) = all_of-false (λ q. contains done q) (preds g n) no_yet in
        elim (closed n p h dep) [
          | inl d ↦ let bad : contains done p ≡ true = In-contains done p d in cc
          | inr w ↦ let lower = falls n p dep in find_ready k done pending p closed w (omega arith)
        ]
  ]

  sort_rounds_total :
      (rounds : ℕ) (done pending : List Text)
      → length pending ≤ rounds
      → IsClosedUnder g done pending
      → (order : List Text) × (sort_rounds rounds g done pending ≡ some order)
  unfolding sort_rounds
  sort_rounds_total rounds done [] h closed = (done, refl)
  sort_rounds_total zero done (n ∷ pending) h closed = absurd (omega arith)
  sort_rounds_total (suc rounds) done (n ∷ pending) h closed =
      let f = λ (m : Text). is_ready g done m in
      let later = filter_by (λ m. not (is_ready g done m)) (n ∷ pending) in
      let (m, waits, y) =
        find_ready (suc (rank n)) done (n ∷ pending) n closed (inl refl) (omega arith) in
      let shorter = filter_not-lt f (n ∷ pending) m waits y in
      elim (List-cases (filter_by f (n ∷ pending))) [
        | inl stuck ↦ absurd (subst (In m) stuck ((In-filter_by f m (n ∷ pending)).1 (waits, y)))
        | inr (r, rs, some_ready) ↦
            let still : IsClosedUnder g (done ++ (r ∷ rs)) later = λ k p i d.
              let i' = ((In-filter_by (λ j. not (is_ready g done j)) k (n ∷ pending)).0 i).0 in
              elim (closed k p i' d) [
                | inl l ↦ inl (In-append_left p done (r ∷ rs) l)
                | inr w ↦ elim (Bool-cases (is_ready g done p)) [
                  | inl t ↦ inl (
                      In-append_right p done (r ∷ rs)
                        (subst (In p) some_ready ((In-filter_by f p (n ∷ pending)).1 (w, t))))
                  | inr f' ↦
                      inr
                        ((In-filter_by (λ j. not (is_ready g done j)) p (n ∷ pending)).1 (w, rw f'))
                ]
              ] in
            let (order, run) =
              sort_rounds_total rounds (done ++ (r ∷ rs)) later (omega arith) still in
            (order, rw (some_ready, sort_rounds) run)
      ]

-- What `fresh` leaves out is in `seen`.
pub In-fresh : (seen xs : List Text) (x : Text) → In x xs → In x seen ⊎ In x (fresh seen xs)
unfolding fresh
In-fresh seen [] x m = absurd m
In-fresh seen (y ∷ xs) x m = elim (Bool-cases (contains seen y)) [
  | inl t ↦
      rw (t, fresh)
        (elim m [ inl e ↦ inl (rw e (contains-In seen y t)) | inr r ↦ In-fresh seen xs x r ])
  | inr f ↦
      rw (f, fresh)
        (elim m [
          | inl e ↦ inr (inl e)
          | inr r ↦ elim (In-fresh (y ∷ seen) xs x r) [
            | inl s ↦ elim s [ inl e ↦ inr (inl e) | inr old ↦ inl old ]
            | inr t ↦ inr (inr t)
          ]
        ])
]

preds-listed : (g : Graph) (n p : Text) → In p (preds g n) → In p (listed g)
unfolding listed
preds-listed [] n p h = unfold preds lookup in absurd h
preds-listed ((k, ns) ∷ g) n p h =
    let h' : In p (if text_eq k n then ns else preds g n) = rw (preds-cons g k n ns) at h in
    elim (Bool-cases (text_eq k n)) [
      | inl y ↦ inr (In-append_left p ns (listed g) (rw y at h'))
      | inr f ↦ inr (In-append_right p ns (listed g) (preds-listed g n p (rw f at h')))
    ]

-- If the dependencies of every node rank below it, which no cycle allows, the sorter returns an
-- order.
pub static_order_total :
    (g : Graph) (rank : Text → ℕ)
    → ((n p : Text) → In p (preds g n) → rank p < rank n)
    → (order : List Text) × (static_order g ≡ some order)
unfolding static_order
static_order_total g rank falls =
    sort_rounds_total g rank falls (length (nodes_of g)) [] (nodes_of g) (omega arith) λ n p i d.
      elim (In-fresh [] (listed g) p (preds-listed g n p d)) [ inl s ↦ absurd s | inr m ↦ inr m ]
