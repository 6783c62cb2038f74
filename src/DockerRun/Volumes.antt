-- ===== src/DockerRun/Volumes.antt =====
-- Which volumes the command of docker_run.py has.
use public_endorsement_servi.Base.{
  append_assoc, ℕ, ◌≡◌, refl, sym, ap, subst, ◌∙◌, ◌⊎◌, inl, inr, false, Option, none, some,
  some-injective, List, [], ◌∷◌, ◌++◌, chars, In, In-append_left, In-append_right, Bool-cases, ok,
  ok-injective, >>=-eq-ok,
}
use public_endorsement_servi.Base.Paths.{FilePath, is_relative_to, relative_to, is_relative_to_iff}
use public_endorsement_servi.ExternalMounts.Minimize.{Under}
use public_endorsement_servi.ExternalMounts.Mounts.{
  list_external_mounts, get_minimal_mounts, get_minimal_mounts-covers,
  get_minimal_mounts-covers_external,
}
use public_endorsement_servi.DockerRun.Mounts.{
  prepare, preparations, out_of_tree_git_dir, requested_mounts, rehomed, volume_of, docker_mounts,
}
use public_endorsement_servi.DockerRun.Arguments.{evaluated_args, docker_cmd, leading_args}
use public_endorsement_servi.DockerRun.Settings.{Roots, Identity, read_roots, read_identity}
use public_endorsement_servi.DockerRun.Main.{
  Outer, Start, Prepared, prepare_run, resolve_mounts, command_of, within_fuel,
}

In-map-volume_of :
    (home host container q : FilePath) (qs : List FilePath)
    → In q qs
    → In (volume_of home host container q) (docker_mounts home host container qs)
unfolding docker_mounts
In-map-volume_of home host container q [] m = absurd m
In-map-volume_of home host container q (r ∷ qs) (inl e) = inl (ap (volume_of home host container) e)
In-map-volume_of home host container q (r ∷ qs) (inr m) =
    inr (In-map-volume_of home host container q qs m)

relative_to-append : (base path : FilePath) → relative_to (base ++ path) base ≡ path
unfolding relative_to
relative_to-append [] path = refl
relative_to-append (b ∷ base) path = relative_to-append base path

rehomed-inside :
    (command_home home path : FilePath)
    → rehomed command_home home (command_home ++ path) ≡ home ++ path
unfolding rehomed
rehomed-inside command_home home path =
    rw
      (
        (is_relative_to_iff (command_home ++ path) command_home).1 (path, refl),
        relative_to-append command_home path,
      )
      refl

-- What lies under a mount of the command's home is found at the same place under its volume.
pub rehomed-append :
    (command_home home q suffix : FilePath)
    → Under q command_home
    → rehomed command_home home (q ++ suffix) ≡ rehomed command_home home q ++ suffix
rehomed-append command_home home q suffix u =
    let (rest, e) = (is_relative_to_iff q command_home).0 u in
    rw
      (
        e,
        append_assoc command_home rest suffix,
        rehomed-inside command_home home (rest ++ suffix),
        rehomed-inside command_home home rest,
      )
      (sym (append_assoc home rest suffix))

rehomed-outside :
    (command_home home path : FilePath)
    → is_relative_to path command_home ≡ false
    → rehomed command_home home path ≡ path
unfolding rehomed
rehomed-outside command_home home path n = rw n refl

module _ (outer : Outer) (start : Start) where
  -- The `mounts` of the run.
  unfoldable pub mounts_of : Prepared → List FilePath
  unfolding requested_mounts out_of_tree_git_dir
  mounts_of p =
      requested_mounts (outer.fs).exists (p.identity).user_id (p.roots).command_home
        (out_of_tree_git_dir outer.git (start.host).cwd)

  within_fuel-ok :
      (found : Option (List FilePath)) (paths : List FilePath)
      → within_fuel found ≡ ok paths
      → found ≡ some paths
  within_fuel-ok none paths h = cc
  within_fuel-ok (some qs) paths h = ap some (ok-injective qs paths h)

  resolve_mounts-minimal :
      (fuel rounds : ℕ) (roots : Roots) (identity : Identity) (p : Prepared)
      → resolve_mounts outer start fuel rounds roots identity ≡ ok p
      → get_minimal_mounts outer.fs fuel rounds (p.roots).command_project_root (mounts_of p)
        ≡ some p.minimal_mounts
  unfolding resolve_mounts mounts_of
  resolve_mounts-minimal fuel rounds roots identity p e =
      let git_dir = out_of_tree_git_dir outer.git (start.host).cwd in
      let mounts = requested_mounts (outer.fs).exists identity.user_id roots.command_home git_dir in
      let (minimal, m, e1) =
        >>=-eq-ok
          (within_fuel (get_minimal_mounts outer.fs fuel rounds roots.command_project_root mounts))
          _ e in
      let (evaluated, v, e2) =
        >>=-eq-ok
          (evaluated_args outer.vals start.environ start.stdin_isatty start.stdout_isatty
            (outer.config (roots.command_project_root ++ (chars "devkit.json" ∷ []))))
          _ e1 in
      subst
        (λ (q : Prepared).
          get_minimal_mounts outer.fs fuel rounds (q.roots).command_project_root (mounts_of q)
          ≡ some q.minimal_mounts)
        (ok-injective _ p e2) (within_fuel-ok _ minimal m)

  prepare_run-minimal :
      (fuel rounds : ℕ) (p : Prepared)
      → prepare_run outer start fuel rounds ≡ ok p
      → get_minimal_mounts outer.fs fuel rounds (p.roots).command_project_root (mounts_of p)
        ≡ some p.minimal_mounts
  unfolding prepare_run
  prepare_run-minimal fuel rounds p e =
      let (roots, r, e1) = >>=-eq-ok (read_roots start.environ start.project_root start.home) _ e in
      let (identity, i, e2) = >>=-eq-ok (read_identity start.environ start.account) _ e1 in
      let (done, d, e3) = >>=-eq-ok (prepare outer.make (preparations roots.command_home)) _ e2 in
      resolve_mounts-minimal fuel rounds roots identity p e3

  -- What the run asks to be mounted: its own list, and the targets outside of the project to which
  -- symlinks of the project lead.
  unfoldable pub IsWanted : ℕ → ℕ → Prepared → FilePath → Type 0
  unfolding mounts_of
  IsWanted fuel rounds p m =
      In m (mounts_of p)
      ⊎ ((found : List FilePath) × (list_external_mounts outer.fs fuel rounds
              (p.roots).command_project_root
            ≡ some found)
          × In m found)

  covered :
      (fuel rounds : ℕ) (p : Prepared) (m : FilePath)
      → prepare_run outer start fuel rounds ≡ ok p
      → IsWanted fuel rounds p m
      → (q : FilePath) × In q p.minimal_mounts × Under m q
  unfolding IsWanted
  covered fuel rounds p m e (inl asked) =
      (((get_minimal_mounts-covers outer.fs fuel rounds (p.roots).command_project_root (mounts_of p)
          p.minimal_mounts (prepare_run-minimal fuel rounds p e)).0
        m asked)).0
  covered fuel rounds p m e (inr (found, scanned, place)) =
      let (found', scanned', covers) =
        get_minimal_mounts-covers_external outer.fs fuel rounds (p.roots).command_project_root
          (mounts_of p) p.minimal_mounts (prepare_run-minimal fuel rounds p e) in
      covers m (subst (In m) (some-injective _ _ (sym scanned ∙ scanned')) place)

  command_of-volume :
      (event_handler_port : ℕ) (p : Prepared) (q : FilePath)
      → In q p.minimal_mounts
      → In
          (volume_of (p.roots).command_home (p.roots).host_home (p.roots).container_home q)
          (command_of outer start event_handler_port p)
  unfolding command_of docker_cmd
  command_of-volume event_handler_port p q m =
      let r = p.roots in
      In-append_right _ (leading_args r p.identity start.host event_handler_port) _ (
        In-append_right _ p.additional_env _ (
          In-append_left _ _ _
            (In-map-volume_of r.command_home r.host_home r.container_home q p.minimal_mounts m)))

  -- Once everything before the threads has gone well: for each path that is to be mounted, be it
  -- on the script's list or the target of a symlink that leads out of the project, the command of
  -- the container has a volume for a path above it. At that volume, on the host's side and on the
  -- container's, stands the place that the path itself has there, unless the volume is above the
  -- command's home and the path is inside of it.
  pub prepare_run-volumes :
      (fuel rounds event_handler_port : ℕ) (p : Prepared) (m : FilePath)
      → prepare_run outer start fuel rounds ≡ ok p
      → IsWanted fuel rounds p m
      → (q suffix : FilePath) × (m ≡ q ++ suffix)
        × In
            (volume_of (p.roots).command_home (p.roots).host_home (p.roots).container_home q)
            (command_of outer start event_handler_port p)
        × (((home : FilePath)
              → rehomed (p.roots).command_home home m
                ≡ rehomed (p.roots).command_home home q ++ suffix)
            ⊎ (Under m (p.roots).command_home × (is_relative_to q (p.roots).command_home ≡ false)))
  prepare_run-volumes fuel rounds event_handler_port p m e wanted =
      let home = (p.roots).command_home in
      let (q, kept, under) = covered fuel rounds p m e wanted in
      let (suffix, same) = (is_relative_to_iff m q).0 under in
      (
        q,
        suffix,
        same,
        command_of-volume event_handler_port p q kept,
        elim (Bool-cases (is_relative_to q home)) [
          | inl inside ↦ inl (λ other. rw same (rehomed-append home other q suffix inside))
          | inr above ↦ elim (Bool-cases (is_relative_to m home)) [
            | inl inside ↦ inr (inside, above)
            | inr outside ↦ inl (λ other.
                rw (rehomed-outside home other m outside, rehomed-outside home other q above) same)
          ]
        ],
      )
