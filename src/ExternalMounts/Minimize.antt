-- ===== src/ExternalMounts/Minimize.antt =====
-- `_minimize_paths` of list_external_mounts.py.
use public_endorsement_servi.Base.{
  In-filter_by, any_of-true, any_of-false, ◌∙◌, ◌≡◌, refl, sym, ◌⊎◌, ◌↔◌, inl, inr, Bool, true,
  false, not, List, [], ◌∷◌, ◌++◌, arith, if◌then◌else◌, Bool-cases, In, any_of, filter_by,
  In-append_left, In-append_right, In-append_cases,
}
use public_endorsement_servi.Base.Paths.{
  FilePath, is_relative_to, is_relative_to_refl, is_relative_to_trans, is_relative_to_antisymm,
}
use public_endorsement_servi.Base.Sort.{sort, path_le, In-sort}

-- One round of the loop: `minimal` is the set `minimal_paths`.
minimize_step : List FilePath → FilePath → List FilePath
minimize_step minimal path =
    if any_of (λ p. is_relative_to path p) minimal
    then minimal
    else filter_by (λ p. not (is_relative_to p path)) minimal ++ (path ∷ [])

minimize_loop : List FilePath → List FilePath → List FilePath
unfolding minimize_step
minimize_loop minimal [] = minimal
minimize_loop minimal (path ∷ paths) = minimize_loop (minimize_step minimal path) paths

unfoldable pub minimize_paths : List FilePath → List FilePath
unfolding minimize_loop sort path_le
minimize_paths paths = minimize_loop [] (sort path_le paths)

-- `p` lies under `q`.
abbrev pub Under : FilePath → FilePath → Type 0
Under p q = is_relative_to p q ≡ true

-- What the loop keeps: every path seen lies under a kept one, the kept ones were seen, and none of
-- them lies under another.
record IsMinimal (seen minimal : List FilePath) : Type 0 where
  covers : (p : FilePath) → In p seen → (q : FilePath) × In q minimal × Under p q
  among : (p : FilePath) → In p minimal → In p seen
  apart : (p q : FilePath) → In p minimal → In q minimal → Under p q → p ≡ q

clash : (p path : FilePath) → Under p path → not (is_relative_to p path) ≡ true → ⊥
clash p path u n = ground arith

above :
    (path q : FilePath) (minimal : List FilePath)
    → any_of (λ p. is_relative_to path p) minimal ≡ false
    → In q minimal
    → Under path q
    → ⊥
above path q minimal h m u =
    let e : is_relative_to path q ≡ false =
      any_of-false (λ p. is_relative_to path p) q minimal h m in
    cc

-- The branch that keeps the new path and drops the ones under it.
added :
    (seen minimal : List FilePath) (path : FilePath)
    → IsMinimal seen minimal
    → any_of (λ p. is_relative_to path p) minimal ≡ false
    → IsMinimal (path ∷ seen) (filter_by (λ p. not (is_relative_to p path)) minimal ++ (path ∷ []))
added seen minimal path inv none_above =
    let f : FilePath → Bool = λ p. not (is_relative_to p path) in
    let fresh : (p : FilePath) → In p (path ∷ []) → p ≡ path =
      λ p m. elim m [ inl e ↦ e | inr n ↦ absurd n ] in
    let kept : (p : FilePath) → In p (filter_by f minimal) → In p minimal × (f p ≡ true) =
      λ p. (In-filter_by f p minimal).0 in
    let last : In path (filter_by f minimal ++ (path ∷ [])) =
      In-append_right path (filter_by f minimal) (path ∷ []) (inl refl) in
    record {
      covers = λ p m. elim m [
        | inl same ↦ (path, last, rw same (is_relative_to_refl path))
        | inr old ↦
            let (q, n, u) = inv.covers p old in
            elim (Bool-cases (is_relative_to q path)) [
              | inl below ↦ (path, last, is_relative_to_trans p q path u below)
              | inr free ↦ (q, In-append_left q _ _ ((In-filter_by f q minimal).1 (n, rw free)), u)
            ]
      ];
      among = λ p m. elim (In-append_cases p (filter_by f minimal) (path ∷ []) m) [
        | inl old ↦ inr (inv.among p (kept p old).0)
        | inr new ↦ inl (fresh p new)
      ];
      apart = λ p q m n u. elim (In-append_cases p (filter_by f minimal) (path ∷ []) m) [
        | inl pm ↦ elim (In-append_cases q (filter_by f minimal) (path ∷ []) n) [
          | inl qm ↦ inv.apart p q (kept p pm).0 (kept q qm).0 u
          | inr qn ↦ absurd (clash p path (rw (fresh q qn) at u) (kept p pm).1)
        ]
        | inr pn ↦ elim (In-append_cases q (filter_by f minimal) (path ∷ []) n) [
          | inl qm ↦ absurd (above path q minimal none_above (kept q qm).0 (rw (fresh p pn) at u))
          | inr qn ↦ fresh p pn ∙ sym (fresh q qn)
        ]
      ];
    }

step-IsMinimal :
    (seen minimal : List FilePath) (path : FilePath)
    → IsMinimal seen minimal
    → IsMinimal (path ∷ seen) (minimize_step minimal path)
unfolding minimize_step
step-IsMinimal seen minimal path inv =
    elim (Bool-cases (any_of (λ p. is_relative_to path p) minimal)) [
      | inl e ↦ rw e (record {
        covers = λ p m. elim m [
          | inl same ↦ rw same (any_of-true _ minimal e)
          | inr old ↦ inv.covers p old
        ];
        among = λ p m. inr (inv.among p m);
        apart = inv.apart;
      })
      | inr e ↦ rw e (added seen minimal path inv e)
    ]

loop-IsMinimal :
    (paths seen minimal : List FilePath)
    → IsMinimal seen minimal
    → (all : List FilePath) × IsMinimal all (minimize_loop minimal paths)
      × ((p : FilePath) → In p all ↔ (In p seen ⊎ In p paths))
unfolding minimize_loop
loop-IsMinimal [] seen minimal inv =
    (seen, inv, λ p. (λ h. inl h, λ h. elim h [ inl m ↦ m | inr m ↦ absurd m ]))
loop-IsMinimal (path ∷ paths) seen minimal inv =
    let (all, inv', same) =
      loop-IsMinimal paths (path ∷ seen) (minimize_step minimal path)
        (step-IsMinimal seen minimal path inv) in
    (
      all,
      inv',
      λ p. (
        λ h. elim ((same p).0 h) [
          | inl s ↦ elim s [ inl e ↦ inr (inl e) | inr m ↦ inl m ]
          | inr m ↦ inr (inr m)
        ],
        λ h. (same p).1 (elim h [
          | inl m ↦ inl (inr m)
          | inr s ↦ elim s [ inl e ↦ inl (inl e) | inr m ↦ inr m ]
        ]),
      ),
    )

module _ (paths : List FilePath) where
  -- The set at the end of the loop, over the given paths.
  minimize_paths-IsMinimal : IsMinimal paths (minimize_paths paths)
  unfolding minimize_paths
  minimize_paths-IsMinimal =
      let start : IsMinimal [] [] = record {
        covers = λ q m. absurd m;
        among = λ q m. m;
        apart = λ q r m. absurd m;
      } in
      let (all, inv, same) = loop-IsMinimal (sort path_le paths) [] [] start in
      let given : (q : FilePath) → In q all → In q paths =
        λ q m. elim ((same q).0 m) [ inl e ↦ absurd e | inr s ↦ (In-sort path_le q paths).0 s ] in
      record {
        covers = λ q m. inv.covers q ((same q).1 (inr ((In-sort path_le q paths).1 m)));
        among = λ q m. given q (inv.among q m);
        apart = inv.apart;
      }

  -- Every given path lies under a path of the result of `_minimize_paths`.
  pub minimize_paths-covers :
      (p : FilePath) → In p paths → (q : FilePath) × In q (minimize_paths paths) × Under p q
  minimize_paths-covers = minimize_paths-IsMinimal.covers

-- The result of `_minimize_paths` is exactly the set of the given paths that lie under no other
-- given path.
pub minimize_paths_iff :
    (paths : List FilePath) (p : FilePath)
    → In p (minimize_paths paths) ↔ (In p paths × ((q : FilePath) → In q paths → Under p q → p ≡ q))
minimize_paths_iff paths p =
    let inv = minimize_paths-IsMinimal paths in
    (
      λ m. (
        inv.among p m,
        λ q n u.
            let (r, kept, v) = inv.covers q n in
            let e = inv.apart p r m kept (is_relative_to_trans p q r u v) in
            is_relative_to_antisymm p q u (rw e v),
      ),
      λ (m, least). let (r, kept, u) = inv.covers p m in rw (least r (inv.among r kept) u) kept,
    )
