-- ===== src/ExternalMounts/Termination.antt =====
-- The loops of list_external_mounts.py end: each chain of symlinks, and the scan.
use public_endorsement_servi.Base.{
  ℕ, zero, suc, ◌+◌, ◌≤◌, ◌<◌, ◌≡◌, refl, sym, ap, ◌∙◌, inl, inr, true, false, not, ◌&&◌, ◌||◌,
  some, List, [], ◌∷◌, ◌++◌, arith, In, length, length-append, Text, chars, starts_with, Bool-cases,
  Option-cases, List-cases, if◌then◌else◌,
}
use public_endorsement_servi.Base.Paths.{FilePath, path_eq, path_eq_iff, has_path}
use public_endorsement_servi.ExternalMounts.FileSystem.{
  FileSystem, Target, parent, join_target, normpath,
}
use public_endorsement_servi.ExternalMounts.Symlinks.{
  Found, is_outside, note_target, follow, process_symlink, process_entries, walk, scan_loop,
}
use public_endorsement_servi.ExternalMounts.Scan.{process_entries_keeps}

-- The directories of `universe` that are not found yet.
unfoldable pub missing : List FilePath → List FilePath → ℕ
missing [] found = 0
missing (u ∷ universe) found =
    if has_path found u then missing universe found else suc (missing universe found)

has_path-append :
    (xs : List FilePath) (n p : FilePath)
    → has_path (xs ++ (n ∷ [])) p ≡ (has_path xs p || path_eq n p)
unfolding has_path
has_path-append [] n p = ground arith
has_path-append (x ∷ xs) n p = ground (arith, has_path-append xs n p)

missing-append-le :
    (universe found : List FilePath) (n : FilePath)
    → missing universe (found ++ (n ∷ [])) ≤ missing universe found
unfolding missing
missing-append-le [] found n = omega arith
missing-append-le (u ∷ universe) found n =
    ground (arith, missing-append-le universe found n, has_path-append found n u)

missing-append-lt :
    (universe found : List FilePath) (n : FilePath)
    → has_path found n ≡ false
    → In n universe
    → missing universe (found ++ (n ∷ [])) < missing universe found
unfolding missing
missing-append-lt [] found n new m = absurd m
missing-append-lt (u ∷ universe) found n new (inl e) = ground (
  arith,
  missing-append-le universe found n,
  has_path-append found n u,
  path_eq_iff n u,
  ap (has_path found) e,
)
missing-append-lt (u ∷ universe) found n new (inr m) =
    ground (arith, missing-append-lt universe found n new m, has_path-append found n u)

pub missing-le : (universe found : List FilePath) → missing universe found ≤ length universe
unfolding missing
missing-le [] found = omega arith
missing-le (u ∷ universe) found = ground (arith, missing-le universe found)

-- What the loops rely on: an existing target needs fewer links than the link to it, no chain has
-- `fuel` links, and the directories that targets can name are finitely many.
pub record IsFinite (fs : FileSystem) (fuel : ℕ) (universe : List FilePath) : Type 0 where
  pub hops : FilePath → ℕ
  pub fewer :
      (p : FilePath) (t : Target)
      → fs.is_symlink p ≡ true
      → fs.readlink p ≡ some t
      → fs.exists (join_target (parent p) t) ≡ true
      → hops (join_target (parent p) t) < hops p
  pub bounded : (p : FilePath) → hops p < fuel
  pub known : (t : FilePath) → fs.is_dir (normpath t) ≡ true → In (normpath t) universe

module _ (fs : FileSystem) (scan_dir : FilePath) (fuel : ℕ) (universe : List FilePath)
    (fin : IsFinite fs fuel universe) where
  open fs use {is_symlink, readlink, exists, is_dir, content}

  follow_total :
      (n : ℕ) (visited : List FilePath) (p : FilePath) (s : Found)
      → fin.hops p < n
      → (s' : Found) × (follow fs scan_dir n visited p s ≡ some s')
  unfolding follow
  follow_total zero visited p s h = absurd (omega arith)
  follow_total (suc n) visited p s h =
      elim (Bool-cases (is_symlink p && not (has_path visited p))) [
        | inr out ↦ (s, rw (out, follow))
        | inl y ↦ elim (Option-cases (readlink p)) [
          | inl none_read ↦ (s, rw (y, none_read, follow))
          | inr (t, read) ↦ elim (Bool-cases (exists (join_target (parent p) t))) [
            | inr broken ↦ (s, rw (y, read, broken, follow))
            | inl there ↦
                let less = fin.fewer p t (ground arith) read there in
                let (s', run) =
                  follow_total n (p ∷ visited) (join_target (parent p) t)
                    (note_target fs scan_dir (join_target (parent p) t) s) (omega arith) in
                (s', rw (y, read, there, follow) run)
          ]
        ]
      ]

  -- A chain of symlinks ends within the fuel.
  pub process_symlink_total :
      (p : FilePath) (s : Found) → (s' : Found) × (process_symlink fs scan_dir fuel p s ≡ some s')
  unfolding process_symlink
  process_symlink_total p s = follow_total fuel [] p s (fin.bounded p)

  process_entries_total :
      (es : List (FilePath × Text)) (s : Found)
      → (s' : Found) × (process_entries fs scan_dir fuel es s ≡ some s')
  unfolding process_entries
  process_entries_total [] s = (s, refl)
  process_entries_total ((p, name) ∷ es) s =
      elim (Bool-cases (is_symlink p && not (starts_with name (chars "bazel-")))) [
        | inr n ↦ let (s', run) = process_entries_total es s in (s', rw (n, process_entries) run)
        | inl y ↦
            let (s₁, one) = follow_total fuel [] p s (fin.bounded p) in
            let (s', run) = process_entries_total es s₁ in (s', rw (y, one, process_entries) run)
      ]

  abbrev Within : ℕ → Found → Type 0
  Within k s = missing universe s.external_paths + length s.worklist ≤ k

  note_target-Within :
      (k : ℕ) (t : FilePath) (s : Found) → Within k s → Within k (note_target fs scan_dir t s)
  unfolding note_target
  note_target-Within k t s h =
      elim (Bool-cases (is_outside scan_dir t && not (has_path s.external_paths (normpath t)))) [
        | inr n ↦ rw n h
        | inl y ↦ elim (Bool-cases (is_dir (normpath t))) [
          | inl d ↦
              let less =
                missing-append-lt universe s.external_paths (normpath t) (ground arith)
                  (fin.known t d) in
              rw (y, d) (omega (arith, length-append s.worklist (normpath t ∷ [])))
          | inr n ↦
              let le = missing-append-le universe s.external_paths (normpath t) in
              rw (y, n) (omega arith)
        ]
      ]

  scan_loop-skip :
      (rounds : ℕ) (scanned : List FilePath) (s : Found) (d : FilePath) (rest : List FilePath)
      → s.worklist ≡ d ∷ rest
      → has_path scanned d ≡ true
      → scan_loop fs scan_dir fuel (suc rounds) scanned s
        ≡ scan_loop fs scan_dir fuel rounds scanned (record s { worklist = rest })
  unfolding scan_loop
  scan_loop-skip rounds scanned s d rest w again = rw (w, again, scan_loop)

  scan_loop-visit :
      (rounds : ℕ) (scanned : List FilePath) (s s' : Found) (d : FilePath) (rest : List FilePath)
      → s.worklist ≡ d ∷ rest
      → has_path scanned d ≡ false
      → process_entries fs scan_dir fuel (walk d (content d)) (record s { worklist = rest })
        ≡ some s'
      → scan_loop fs scan_dir fuel (suc rounds) scanned s
        ≡ scan_loop fs scan_dir fuel rounds (d ∷ scanned) s'
  unfolding scan_loop
  scan_loop-visit rounds scanned s s' d rest w fresh one = rw (w, fresh, one, scan_loop)

  -- The scan ends within one round for each directory that can be found or waits, and one more.
  pub scan_loop_total :
      (rounds : ℕ) (scanned : List FilePath) (s : Found)
      → missing universe s.external_paths + length s.worklist < rounds
      → (seen : List FilePath) × (s' : Found) × (scan_loop fs scan_dir fuel rounds scanned s
          ≡ some (seen, s'))
  unfolding scan_loop
  scan_loop_total zero scanned s h = absurd (omega arith)
  scan_loop_total (suc rounds) scanned s h = elim (List-cases s.worklist) [
    | inl empty ↦ (
      scanned,
      s,
      rw (empty, scan_loop)
          (ap (λ (w : List FilePath). some (scanned, record s { worklist = w })) empty),
    )
    | inr (d, rest, w) ↦
        let s₁ : Found = record s { worklist = rest } in
        let shorter : suc (length rest) ≡ length s.worklist = sym (ap length w) in
        elim (Bool-cases (has_path scanned d)) [
          | inl again ↦
              let (seen, s', run) = scan_loop_total rounds scanned s₁ (omega arith) in
              (seen, s', scan_loop-skip rounds scanned s d rest w again ∙ run)
          | inr fresh ↦
              let (s₂, one) = process_entries_total (walk d (content d)) s₁ in
              let k = missing universe s.external_paths + length rest in
              let within =
                process_entries_keeps fs scan_dir (Within k) (note_target-Within k) fuel
                  (walk d (content d)) s₁ s₂ one (omega arith) in
              let (seen, s', run) = scan_loop_total rounds (d ∷ scanned) s₂ (omega arith) in
              (seen, s', scan_loop-visit rounds scanned s s₂ d rest w fresh one ∙ run)
        ]
  ]
