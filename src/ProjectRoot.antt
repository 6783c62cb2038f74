-- ===== src/ProjectRoot.antt =====
-- find_project_root.py
use public_endorsement_servi.Base.{
  append-nil, append_assoc, ◌≡◌, refl, sym, ◌∙◌, ◌↔◌, ◌⊎◌, inl, inr, Bool, true, false, Option,
  none, some, some-injective, List, [], ◌∷◌, ◌++◌, arith, if◌then◌else◌, Option-cases, chars, Text,
  text_eq_iff, Outcome, ok, raised, exited, file_not_found,
}
use public_endorsement_servi.Base.Integers.{pos}
use public_endorsement_servi.Base.Paths.{
  FilePath, path_text, is_relative_to, is_relative_to_iff, is_relative_to_refl,
  is_relative_to_trans, is_relative_to_antisymm,
}

-- [path] + list(path.parents), for path = base / rest: the nearest first, down to `base`.
ancestors : FilePath → FilePath → List FilePath
ancestors base [] = base ∷ []
ancestors base (a ∷ rest) = ancestors (base ++ (a ∷ [])) rest ++ (base ∷ [])

-- Between `base` and `base / a / rest` there is `base` itself and what lies under `base / a`.
between :
    (base q : FilePath) (a : Text) (rest : FilePath)
    → is_relative_to (base ++ (a ∷ rest)) q ≡ true
    → is_relative_to q base ≡ true
    → (q ≡ base) ⊎ (is_relative_to q (base ++ (a ∷ [])) ≡ true)
unfolding is_relative_to
between [] [] a rest h k = inl refl
between [] (b ∷ q) a rest h k = inr (ground (arith, text_eq_iff a b, text_eq_iff b a))
between (c ∷ base) [] a rest h k = cc
between (c ∷ base) (d ∷ q) a rest h k =
    ground (arith, between base q a rest, text_eq_iff c d, text_eq_iff d c)

module _ (exists : FilePath → Bool) where
  -- The loop over the candidates.
  first_with_devkit : List FilePath → Option FilePath
  first_with_devkit [] = none
  first_with_devkit (path ∷ paths) =
      if exists (path ++ (chars "devkit" ∷ [])) then some path else first_with_devkit paths

  -- The environment's PWD goes before the working directory.
  unfoldable pub find_project_root : Option FilePath → FilePath → Outcome FilePath
  unfolding ancestors first_with_devkit
  find_project_root pwd cwd =
      let current_dir : FilePath = elim pwd [ none ↦ cwd | some p ↦ p ] in
      elim (first_with_devkit (ancestors [] current_dir)) [
        | none ↦ raised file_not_found
        | some path ↦ ok path
      ]

  -- `root` is an ancestor of `path`, or `path` itself.
  abbrev pub Above : FilePath → FilePath → Type 0
  Above root path = is_relative_to path root ≡ true

  abbrev pub HasDevkit : FilePath → Type 0
  HasDevkit path = exists (path ++ (chars "devkit" ∷ [])) ≡ true

  first_with_devkit-append :
      (ps : List FilePath) (q : FilePath)
      → first_with_devkit (ps ++ (q ∷ [])) ≡ (
          let last : Option FilePath =
            if exists (q ++ (chars "devkit" ∷ [])) then some q else none in
          elim (first_with_devkit ps) [ none ↦ last | some r ↦ some r ])
  unfolding first_with_devkit
  first_with_devkit-append [] q = refl
  first_with_devkit-append (p ∷ ps) q = ground (arith, first_with_devkit-append ps q)

  last_none :
      (p : FilePath)
      → (let o : Option FilePath = if exists (p ++ (chars "devkit" ∷ [])) then some p else none in
          o ≡ none)
      → exists (p ++ (chars "devkit" ∷ [])) ≡ false
  last_none p e = ground arith

  last_some :
      (p r : FilePath)
      → (let o : Option FilePath = if exists (p ++ (chars "devkit" ∷ [])) then some p else none in
          o ≡ some r)
      → (p ≡ r) × (exists (p ++ (chars "devkit" ∷ [])) ≡ true)
  last_some p r e = ground arith

  regroup :
      (q base rest : FilePath) (a : Text)
      → Above q (base ++ (a ∷ rest))
      → Above q ((base ++ (a ∷ [])) ++ rest)
  regroup q base rest a h = rw (append_assoc base (a ∷ []) rest) h

  -- Where the search from `base` on fails, no ancestor from there on has a devkit.
  search_none :
      (rest base q : FilePath)
      → first_with_devkit (ancestors base rest) ≡ none
      → Above q (base ++ rest)
      → Above base q
      → exists (q ++ (chars "devkit" ∷ [])) ≡ false
  unfolding ancestors first_with_devkit
  search_none [] base q e h k =
      let same = is_relative_to_antisymm q base k (rw (append-nil base) at h) in
      rw same (last_none base e)
  search_none (a ∷ rest) base q e h k =
      let split = sym (first_with_devkit-append (ancestors (base ++ (a ∷ [])) rest) base) ∙ e in
      elim (Option-cases (first_with_devkit (ancestors (base ++ (a ∷ [])) rest))) [
        | inl below ↦ elim (between base q a rest h k) [
          | inl same ↦ rw same (last_none base (rw below at split))
          | inr under ↦ search_none rest (base ++ (a ∷ [])) q below (regroup q base rest a h) under
        ]
        | inr (r, found) ↦ let clash : some r ≡ none = rw found at split in cc
      ]

  -- Where it finds a directory, that one has a devkit and is the nearest such ancestor.
  search_some :
      (rest base r : FilePath)
      → first_with_devkit (ancestors base rest) ≡ some r
      → HasDevkit r
        × Above r (base ++ rest)
        × Above base r
        × ((q : FilePath) → Above q (base ++ rest) → Above base q → HasDevkit q → Above q r)
  unfolding ancestors first_with_devkit
  search_some [] base r e =
      let (same, has) = last_some base r e in
      rw (← same) (
        has,
        rw (append-nil base) (is_relative_to_refl base),
        is_relative_to_refl base,
        λ q h k t. rw (append-nil base) at h,
      )
  search_some (a ∷ rest) base r e =
      let split = sym (first_with_devkit-append (ancestors (base ++ (a ∷ [])) rest) base) ∙ e in
      let inner = base ++ (a ∷ []) in
      elim (Option-cases (first_with_devkit (ancestors inner rest))) [
        | inl below ↦
            let (same, has) = last_some base r (rw below at split) in
            rw (← same) (
              has,
              (is_relative_to_iff (base ++ (a ∷ rest)) base).1 (a ∷ rest, refl),
              is_relative_to_refl base,
              λ q h k t. elim (between base q a rest h k) [
                | inl eq ↦ rw eq (is_relative_to_refl base)
                | inr under ↦
                    let f = search_none rest inner q below (regroup q base rest a h) under in cc
              ],
            )
        | inr (s, found) ↦
            let same : s ≡ r = some-injective _ _ (rw found at split) in
            let (has, above, under, nearest) = search_some rest inner s found in
            rw (← same) (
              has,
              rw (append_assoc base (a ∷ []) rest) at above,
              is_relative_to_trans s inner base under
                  ((is_relative_to_iff inner base).1 (a ∷ [], refl)),
              λ q h k t. elim (between base q a rest h k) [
                | inl eq ↦ rw eq (
                    is_relative_to_trans s inner base under
                      ((is_relative_to_iff inner base).1 (a ∷ [], refl)))
                | inr lower ↦ nearest q (regroup q base rest a h) lower t
              ],
            )
      ]

  nearest_root :
      (current r : FilePath)
      → first_with_devkit (ancestors [] current) ≡ some r
      → HasDevkit r × Above r current × ((q : FilePath) → Above q current → HasDevkit q → Above q r)
  unfolding is_relative_to
  nearest_root current r e =
      let (has, above, under, nearest) = search_some current [] r e in
      (has, above, λ q h t. nearest q h refl t)

  clash : (r : FilePath) → HasDevkit r → exists (r ++ (chars "devkit" ∷ [])) ≡ false → ⊥
  clash r h k = cc

  -- From the directory that PWD names, or else the working directory, `find_project_root` returns
  -- the nearest ancestor, itself counted, that has an entry "devkit"; and it raises
  -- FileNotFoundError exactly if no ancestor has one.
  pub find_project_root_lem :
      (pwd cwd : FilePath)
      → ((root : FilePath)
          → find_project_root (some pwd) cwd ≡ ok root
          → HasDevkit root
            × Above root pwd
            × ((q : FilePath) → Above q pwd → HasDevkit q → Above q root))
        × ((find_project_root (some pwd) cwd ≡ raised file_not_found)
            ↔ ((q : FilePath) → Above q pwd → exists (q ++ (chars "devkit" ∷ [])) ≡ false))
        × (find_project_root none cwd ≡ find_project_root (some cwd) cwd)
  unfolding find_project_root is_relative_to
  find_project_root_lem pwd cwd = elim (Option-cases (first_with_devkit (ancestors [] pwd))) [
    | inl n ↦ (
      λ root e. let clash : raised file_not_found ≡ ok root = rw (n, find_project_root) at e in cc,
      (λ e q h. search_none pwd [] q n h refl, λ h. rw (n, find_project_root)),
      refl,
    )
    | inr (r, found) ↦
        let best = nearest_root pwd r found in
        (
          λ root e.
              let same : ok r ≡ ok root = rw (found, find_project_root) at e in
              let eq : r ≡ root = cc in rw (← eq) best,
          (
            λ e.
                let clash : ok r ≡ raised file_not_found = rw (found, find_project_root) at e in cc,
            λ h. let f = h r best.1 in absurd (clash r best.0 f),
          ),
          refl,
        )
  ]

-- `main`: what is printed, and how the process ends.
unfoldable pub main : Outcome FilePath → List Text × Outcome (Unit {0})
unfolding path_text
main (ok root) = (path_text root ∷ [], ok tt)
main (raised file_not_found) = ([], exited (pos 1))
main (raised e) = ([], raised e)
main (exited n) = ([], exited n)
