-- ===== src/ExternalMounts/Scan.antt =====
-- What the scan of list_external_mounts.py keeps while it runs.
use public_endorsement_servi.Base.{
  ℕ, zero, suc, ◌≡◌, ◌⊎◌, inl, inr, subst, some-injective, true, false, not, ◌&&◌, none, some, List,
  [], ◌∷◌, ◌++◌, arith, In, In-append_left, In-append_right, In-append_cases, Text, chars,
  starts_with, Bool-cases, Option-cases, List-cases, if◌then◌else◌,
}
use public_endorsement_servi.Base.Paths.{FilePath, path_eq_iff, has_path, is_relative_to}
use public_endorsement_servi.ExternalMounts.FileSystem.{FileSystem, parent, join_target, normpath}
use public_endorsement_servi.ExternalMounts.Symlinks.{
  Found, is_outside, note_target, follow, process_entries, walk, scan_loop,
}
use public_endorsement_servi.ExternalMounts.Outside.{IsNormal, is_outside-eq}

has_path-In : (qs : List FilePath) (p : FilePath) → has_path qs p ≡ true → In p qs
unfolding has_path
has_path-In [] p h = cc
has_path-In (q ∷ qs) p h = ground (arith, path_eq_iff q p, has_path-In qs p)

module _ (fs : FileSystem) (scan_dir : FilePath) where
  open fs use {is_symlink, readlink, exists, is_dir, content}

  -- A property that noting one target keeps is kept by a chain of symlinks.
  pub follow_keeps :
      (P : Found → Type 0)
      → ((t : FilePath) (s : Found) → P s → P (note_target fs scan_dir t s))
      → (fuel : ℕ) (visited : List FilePath) (p : FilePath) (s s' : Found)
      → follow fs scan_dir fuel visited p s ≡ some s'
      → P s
      → P s'
  unfolding follow
  follow_keeps P keep zero visited p s s' e h = cc
  follow_keeps P keep (suc fuel) visited p s s' e h =
      elim (Bool-cases (is_symlink p && not (has_path visited p))) [
        | inr n ↦ subst P (some-injective _ _ (rw (n, follow) at e)) h
        | inl y ↦ elim (Option-cases (readlink p)) [
          | inl none_read ↦ subst P (some-injective _ _ (rw (y, none_read, follow) at e)) h
          | inr found ↦
              let (t, read) = found in
              elim (Bool-cases (exists (join_target (parent p) t))) [
                | inr broken ↦ subst P (some-injective _ _ (rw (y, read, broken, follow) at e)) h
                | inl there ↦
                    follow_keeps P keep fuel (p ∷ visited) (join_target (parent p) t)
                      (note_target fs scan_dir (join_target (parent p) t) s) s'
                      (rw (y, read, there, follow) at e) (keep (join_target (parent p) t) s h)
              ]
        ]
      ]

  -- And so by the entries of one walk.
  pub process_entries_keeps :
      (P : Found → Type 0)
      → ((t : FilePath) (s : Found) → P s → P (note_target fs scan_dir t s))
      → (fuel : ℕ) (es : List (FilePath × Text)) (s s' : Found)
      → process_entries fs scan_dir fuel es s ≡ some s'
      → P s
      → P s'
  unfolding process_entries
  process_entries_keeps P keep fuel [] s s' e h = subst P (some-injective _ _ e) h
  process_entries_keeps P keep fuel ((p, name) ∷ es) s s' e h =
      elim (Bool-cases (is_symlink p && not (starts_with name (chars "bazel-")))) [
        | inr n ↦ process_entries_keeps P keep fuel es s s' (rw (n, process_entries) at e) h
        | inl y ↦ elim (Option-cases (follow fs scan_dir fuel [] p s)) [
          | inl out ↦ let stuck : none ≡ some s' = rw (y, out, process_entries) at e in cc
          | inr found ↦
              let (s₁, run) = found in
              process_entries_keeps P keep fuel es s₁ s' (rw (y, run, process_entries) at e)
                (follow_keeps P keep fuel [] p s s₁ run h)
        ]
      ]

  -- Every path found is the normal form of a target and lies outside, and every directory found
  -- has been scanned or waits in the worklist.
  pub record IsTracked (scanned : List FilePath) (s : Found) : Type 0 where
    pub outside :
        (p : FilePath)
        → In p s.external_paths
        → ((t : FilePath) × (p ≡ normpath t)) × (is_relative_to p scan_dir ≡ false)
    pub pending :
        (p : FilePath) → In p s.external_paths → is_dir p ≡ true → In p scanned ⊎ In p s.worklist

  -- The new state that `note_target` makes for an outside target.
  grown-IsTracked :
      (scanned : List FilePath) (t : FilePath) (s : Found)
      → is_relative_to (normpath t) scan_dir ≡ false
      → IsTracked scanned s
      → IsTracked scanned (record {
        external_paths = s.external_paths ++ (normpath t ∷ []);
        worklist = if is_dir (normpath t) then s.worklist ++ (normpath t ∷ []) else s.worklist;
      })
  grown-IsTracked scanned t s far inv = record {
    outside = λ p m. elim (In-append_cases p s.external_paths (normpath t ∷ []) m) [
      | inl old ↦ inv.outside p old
      | inr new ↦ elim new [ inl e ↦ ((t, e), rw e far) | inr none_left ↦ absurd none_left ]
    ];
    pending = λ p m d. elim (In-append_cases p s.external_paths (normpath t ∷ []) m) [
      | inl old ↦ elim (inv.pending p old d) [
        | inl done ↦ inl done
        | inr waits ↦ inr (elim (Bool-cases (is_dir (normpath t))) [
          | inl y ↦ rw y (In-append_left p s.worklist (normpath t ∷ []) waits)
          | inr n ↦ rw n waits
        ])
      ]
      | inr new ↦ elim new [
        | inl e ↦
            let y : is_dir (normpath t) ≡ true = rw e at d in
            inr (rw y (In-append_right p s.worklist (normpath t ∷ []) (inl e)))
        | inr none_left ↦ absurd none_left
      ]
    ];
  }

  note_target-IsTracked :
      IsNormal scan_dir
      → (scanned : List FilePath) (t : FilePath) (s : Found) → IsTracked scanned s
      → IsTracked scanned (note_target fs scan_dir t s)
  unfolding note_target
  note_target-IsTracked normal scanned t s inv =
      elim (Bool-cases (is_outside scan_dir t && not (has_path s.external_paths (normpath t)))) [
        | inr n ↦ rw n inv
        | inl y ↦
            let far : is_relative_to (normpath t) scan_dir ≡ false =
              ground (arith, is_outside-eq scan_dir t normal) in
            rw y (grown-IsTracked scanned t s far inv)
      ]

  -- A directory leaves the worklist once it counts as scanned.
  popped-IsTracked :
      (scanned scanned' : List FilePath) (s : Found) (d : FilePath) (rest : List FilePath)
      → s.worklist ≡ d ∷ rest
      → ((p : FilePath) → In p scanned ⊎ (p ≡ d) → In p scanned')
      → IsTracked scanned s
      → IsTracked scanned' (record s { worklist = rest })
  popped-IsTracked scanned scanned' s d rest w grow inv = record {
    outside = inv.outside;
    pending = λ p m t. elim (inv.pending p m t) [
      | inl done ↦ inl (grow p (inl done))
      | inr waits ↦
          let split : In p (d ∷ rest) = subst (In p) w waits in
          elim split [ inl e ↦ inl (grow p (inr e)) | inr later ↦ inr later ]
    ];
  }

  -- What a finished scan returns: nothing waits.
  pub scan_loop-IsTracked :
      IsNormal scan_dir
      → (fuel rounds : ℕ) (scanned seen : List FilePath) (s s' : Found)
      → scan_loop fs scan_dir fuel rounds scanned s ≡ some (seen, s')
      → IsTracked scanned s
      → IsTracked seen s' × (s'.worklist ≡ [])
  unfolding scan_loop
  scan_loop-IsTracked normal fuel zero scanned seen s s' e inv = cc
  scan_loop-IsTracked normal fuel (suc rounds) scanned seen s s' e inv =
      elim (List-cases s.worklist) [
        | inl empty ↦
            let same = some-injective _ _ (rw (empty, scan_loop) at e) in
            subst (λ (r : List FilePath × Found). IsTracked r.0 r.1 × (r.1.worklist ≡ [])) same
              (inv, empty)
        | inr (d, rest, w) ↦
            let s₁ : Found = record s { worklist = rest } in
            elim (Bool-cases (has_path scanned d)) [
              | inl again ↦
                  scan_loop-IsTracked normal fuel rounds scanned seen s₁ s'
                    (rw (w, again, scan_loop) at e)
                    (popped-IsTracked scanned scanned s d rest w
                      (λ p m. elim m [ inl old ↦ old | inr e ↦ rw e (has_path-In scanned d again) ])
                      inv)
              | inr fresh ↦
                  elim (Option-cases (process_entries fs scan_dir fuel (walk d (content d)) s₁)) [
                    | inl out ↦
                        let stuck : none ≡ some (seen, s') = rw (w, fresh, out, scan_loop) at e in
                        cc
                    | inr (s₂, run) ↦
                        scan_loop-IsTracked normal fuel rounds (d ∷ scanned) seen s₂ s'
                          (rw (w, fresh, run, scan_loop) at e)
                          (process_entries_keeps (IsTracked (d ∷ scanned))
                            (note_target-IsTracked normal (d ∷ scanned)) fuel (walk d (content d))
                            s₁ s₂ run
                            (popped-IsTracked scanned (d ∷ scanned) s d rest w
                              (λ p m. elim m [ inl old ↦ inr old | inr e ↦ inl e ]) inv))
                  ]
            ]
      ]
