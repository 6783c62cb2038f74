-- ===== src/DockerCleanup/TagNames.antt =====
-- The tags that docker/build.py gives, read by the pattern of docker_cleanup.py.
use public_endorsement_servi.Base.{
  append_assoc, ℕ, ◌≡◌, refl, sym, ap, ◌∙◌, ◌⊎◌, inl, inr, Bool, true, false, ◌||◌, none, some,
  List, [], ◌∷◌, ◌++◌, arith, all_of, any_of, All, Bool-cases, ◌==◌, Text, chars, text_eq, split,
  cut, if◌then◌else◌,
}
use public_endorsement_servi.Base.Splits.{
  Lacks, Lacks-append, split-++, split-cases, split-Lacks, cut-append,
}
use public_endorsement_servi.DockerBuild.Builder.{Settings}
use public_endorsement_servi.DockerBuild.Tags.{under_repo, get_image_tag}
use public_endorsement_servi.DockerCleanup.Names.{
  is_arch_char, is_hash_char, is_hash, is_arch_and_hash, name_before, name_of, match_components,
  match_image, has_line_break, without_final_break,
}

is_devkit : Text → Bool
unfolding text_eq
is_devkit part = text_eq part (chars "devkit")

has_line_break-Lacks : (s : Text) → Lacks 10 s → has_line_break s ≡ false
unfolding has_line_break
has_line_break-Lacks [] h = refl
has_line_break-Lacks (c ∷ s) h = rw (h.0) (has_line_break-Lacks s h.1)

-- The parts of a text without a line break have none.
split-Lacks_break : (d : ℕ) (s : Text) → Lacks 10 s → All (Lacks 10) (split d s)
unfolding split
split-Lacks_break d [] h = (tt, tt)
split-Lacks_break d (c ∷ s) h =
    let (w, ws, e) = split-cases d s in
    let rest : All (Lacks 10) (w ∷ ws) = rw e at (split-Lacks_break d s h.1) in
    elim (Bool-cases (c == d)) [
      | inl y ↦ rw (y, e) (tt, rest)
      | inr n ↦ rw (n, e) ((h.0, rest.0), rest.1)
    ]

without_final_break-append :
    (s : Text) (c : ℕ) (t : Text)
    → without_final_break (s ++ (c ∷ t)) ≡ s ++ without_final_break (c ∷ t)
unfolding without_final_break
without_final_break-append [] c t = refl
without_final_break-append (x ∷ []) c t = refl
without_final_break-append (x ∷ y ∷ s) c t =
    ap (λ r. x ∷ r) (without_final_break-append (y ∷ s) c t)

without_final_break-Lacks : (s : Text) → Lacks 10 s → without_final_break s ≡ s
unfolding without_final_break
without_final_break-Lacks [] h = refl
without_final_break-Lacks (c ∷ []) h = rw (h.0) refl
without_final_break-Lacks (c ∷ d ∷ s) h = ap (λ r. c ∷ r) (without_final_break-Lacks (d ∷ s) h.1)

match_components-append :
    (seen : Bool) (parts : List Text) (last : Text)
    → All (Lacks 10) parts
    → match_components seen (parts ++ (last ∷ []))
      ≡ (if seen || any_of is_devkit parts then name_of last else none)
unfolding match_components is_devkit
match_components-append seen [] last h = ground arith
match_components-append seen (part ∷ []) last h = ground (arith, has_line_break-Lacks part h.0)
match_components-append seen (part ∷ next ∷ parts) last h =
    let rest = match_components-append (seen || is_devkit part) (next ∷ parts) last h.1 in
    rw (has_line_break-Lacks part h.0) (rest ∙ ground arith)

any_of-append :
    (f : Text → Bool) (xs ys : List Text) → any_of f (xs ++ ys) ≡ (any_of f xs || any_of f ys)
any_of-append f [] ys = refl
any_of-append f (x ∷ xs) ys = ground (arith, any_of-append f xs ys)

hash-Lacks : (d : ℕ) (s : Text) → is_hash_char d ≡ false → all_of is_hash_char s ≡ true → Lacks d s
hash-Lacks d [] k h = tt
hash-Lacks d (c ∷ s) k h = elim (Bool-cases (is_hash_char c)) [
  | inr n ↦ let bad : false ≡ true = rw n at h in cc
  | inl y ↦ elim (Bool-cases (c == d)) [
    | inr n ↦ (n, hash-Lacks d s k (rw y at h))
    | inl e ↦
        let same : c ≡ d = ground arith in
        let bad : false ≡ true = sym k ∙ ap is_hash_char (sym same) ∙ y in cc
  ]
]

-- <name>:amd64-<sha>
last_part : Text → Text → Text
last_part name sha = name ++ (b':' ∷ chars "amd64" ++ (b'-' ∷ sha))

last_part-Lacks :
    (name sha : Text) → Lacks b'/' name → is_hash sha ≡ true → Lacks b'/' (last_part name sha)
unfolding last_part is_hash is_hash_char chars
last_part-Lacks name sha h k = Lacks-append b'/' name (b':' ∷ chars "amd64" ++ (b'-' ∷ sha)) h (
  refl,
  (refl, (refl, (refl, (refl, (refl, (refl, hash-Lacks b'/' sha (refl) (ground (arith, k)))))))),
)

arch_and_hash :
    (sha : Text)
    → is_hash sha ≡ true
    → is_arch_and_hash (cut b'-' (chars "amd64" ++ (b'-' ∷ sha))) ≡ true
unfolding cut chars is_arch_and_hash is_arch_char
arch_and_hash sha h = h

name_of-last_part :
    (c : ℕ) (name sha : Text)
    → Lacks b':' (c ∷ name)
    → is_hash sha ≡ true
    → name_of (last_part (c ∷ name) sha) ≡ some (c ∷ name)
unfolding last_part name_of name_before
name_of-last_part c name sha h k =
    rw (cut-append b':' (c ∷ name) (chars "amd64" ++ (b'-' ∷ sha)) h, arch_and_hash sha k) refl

kept_behind :
    (path last : Text)
    → without_final_break last ≡ last
    → without_final_break (path ++ (b'/' ∷ last)) ≡ path ++ (b'/' ∷ last)
unfolding without_final_break
kept_behind path [] w = without_final_break-append path b'/' []
kept_behind path (c ∷ last) w =
    without_final_break-append path b'/' (c ∷ last) ∙ ap (λ l. path ++ (b'/' ∷ l)) w

-- A tag ends with a hash, and so with no line break.
last_part-break :
    (name sha : Text)
    → is_hash sha ≡ true
    → without_final_break (last_part name sha) ≡ last_part name sha
unfolding last_part is_hash is_hash_char chars
last_part-break name sha k =
    without_final_break-append name b':' (chars "amd64" ++ (b'-' ∷ sha))
    ∙ ap (λ l. name ++ l)
        (without_final_break-Lacks (b':' ∷ chars "amd64" ++ (b'-' ∷ sha)) (
          refl,
          (
            refl,
            (refl, (refl, (refl, (refl, (refl, hash-Lacks 10 sha refl (ground (arith, k))))))),
          ),
        ))

-- The pattern on a path with a last part.
match_image-path :
    (path last : Text)
    → Lacks b'/' last
    → Lacks 10 path
    → without_final_break last ≡ last
    → any_of is_devkit (split b'/' path) ≡ true
    → match_image (path ++ b'/' ∷ last) ≡ name_of last
unfolding match_image
match_image-path path last h b w k =
    let stays : without_final_break (path ++ (b'/' ∷ last)) ≡ path ++ (b'/' ∷ last) =
      kept_behind path last w in
    rw
      (
        stays,
        split-++ b'/' path last,
        split-Lacks b'/' last h,
        match_components-append false (split b'/' path) last (split-Lacks_break b'/' path b),
        k,
      )
      refl

-- The namespaces that `parse_registry_config` gives.
unfoldable pub IsNamespace : Text → Type 0
IsNamespace ns = (ns ≡ chars "devkit") ⊎ ((rest : Text) × (ns ≡ chars "devkit" ++ (b'/' ∷ rest)))

IsNamespace-devkit : (ns : Text) → IsNamespace ns → any_of is_devkit (split b'/' ns) ≡ true
unfolding IsNamespace is_devkit chars split text_eq
IsNamespace-devkit ns (inl e) = rw (e) refl
IsNamespace-devkit ns (inr (rest, e)) = rw (e) refl

or_true : (b : Bool) → (b || true) ≡ true
or_true true = refl
or_true false = refl

path_of : Text → Text → Text
path_of [] ns = ns
path_of (c ∷ repo) ns = (c ∷ repo) ++ (b'/' ∷ ns)

under_repo-path :
    (repo ns name sha : Text)
    → under_repo repo ((ns ++ (b'/' ∷ name)) ++ (b':' ∷ chars "amd64" ++ (b'-' ∷ sha)))
      ≡ path_of repo ns ++ (b'/' ∷ last_part name sha)
unfolding under_repo path_of last_part
under_repo-path [] ns name sha =
    append_assoc ns (b'/' ∷ name) (b':' ∷ chars "amd64" ++ (b'-' ∷ sha))
under_repo-path (c ∷ repo) ns name sha =
    ap (λ t. (c ∷ repo) ++ (b'/' ∷ t))
      (append_assoc ns (b'/' ∷ name) (b':' ∷ chars "amd64" ++ (b'-' ∷ sha)))
    ∙ sym (append_assoc (c ∷ repo) (b'/' ∷ ns) (b'/' ∷ last_part name sha))

path_of-devkit :
    (repo ns : Text) → IsNamespace ns → any_of is_devkit (split b'/' (path_of repo ns)) ≡ true
unfolding path_of
path_of-devkit [] ns h = IsNamespace-devkit ns h
path_of-devkit (c ∷ repo) ns h =
    rw
      (
        split-++ b'/' (c ∷ repo) ns,
        any_of-append is_devkit (split b'/' (c ∷ repo)) (split b'/' ns),
        IsNamespace-devkit ns h,
      )
      (or_true (any_of is_devkit (split b'/' (c ∷ repo))))

path_of-Lacks : (repo ns : Text) → Lacks 10 repo → Lacks 10 ns → Lacks 10 (path_of repo ns)
unfolding path_of
path_of-Lacks [] ns h k = k
path_of-Lacks (c ∷ repo) ns h k = Lacks-append 10 (c ∷ repo) (b'/' ∷ ns) h (refl, k)

-- Reading back the tag of an image gives the image's name: for a namespace that the configuration
-- can give and a repository, both without a line break, a non-empty name without '/' and ':', and a
-- hash of 64 hexadecimal digits.
pub match_image-get_image_tag :
    (settings : Settings) (c : ℕ) (name sha : Text)
    → IsNamespace settings.namespace
    → Lacks 10 settings.repo
    → Lacks 10 settings.namespace
    → Lacks b'/' (c ∷ name)
    → Lacks b':' (c ∷ name)
    → is_hash sha ≡ true
    → match_image (get_image_tag settings (c ∷ name) sha) ≡ some (c ∷ name)
unfolding get_image_tag
match_image-get_image_tag settings c name sha n repo_line ns_line slash colon hash =
    ap match_image (under_repo-path settings.repo settings.namespace (c ∷ name) sha)
    ∙ match_image-path (path_of settings.repo settings.namespace) (last_part (c ∷ name) sha)
        (last_part-Lacks (c ∷ name) sha slash hash)
        (path_of-Lacks settings.repo settings.namespace repo_line ns_line)
        (last_part-break (c ∷ name) sha hash) (path_of-devkit settings.repo settings.namespace n)
    ∙ name_of-last_part c name sha colon hash
