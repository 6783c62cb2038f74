-- ===== src/DockerBuild/Conforms.antt =====
-- What it means for a value to conform to a schema, and that `validate_config` of docker/build.py
-- decides it.
use public_endorsement_servi.Base.{
  ◌≡◌, refl, sym, ap, subst, ◌↔◌, Bool, true, false, Option, none, some, List, [], ◌∷◌, Bool-cases,
  Text, Dict, keys, lookup, contains, In, inl, inr, Outcome, ok, raised, exited, Exn, ◌>>=◌,
  some-injective,
}
use public_endorsement_servi.Base.Json.{Json}
use public_endorsement_servi.DockerBuild.Schema.{
  Schema, schema, Properties, none_declared, property, Additional, anything, nothing, each,
  is_instance, declared, join_key, extra_keys, entries_of, each_undeclared, refuse_extra,
  check_extra, guard_type, for_dict, for_key, validate_config, validate_properties,
  validate_additional,
}

-- "additional_properties": False allows declared keys only.
abbrev pub AllowsKeys : Additional → Properties → Dict Json → Type 0
AllowsKeys nothing ps es = (k : Text) → In k (keys es) → contains (declared ps) k ≡ true
AllowsKeys _ ps es = Unit

unfoldable mutual
  -- The value has the type, and if it is a dict, its keys are allowed, each declared property that
  -- is present conforms, and so does each undeclared one to the schema for these.
  pub Conforms : Schema → Json → Type 0
  Conforms (schema kind ps additional) value =
      (is_instance value kind ≡ true)
      × ((es : Dict Json)
          → entries_of value ≡ some es
          → AllowsKeys additional ps es × PropertiesConform ps es × OthersConform additional ps es)

  pub PropertiesConform : Properties → Dict Json → Type 0
  PropertiesConform none_declared es = Unit
  PropertiesConform (property k s ps) es =
      ((v : Json) → lookup k es ≡ some v → Conforms s v) × PropertiesConform ps es

  pub OthersConform : Additional → Properties → Dict Json → Type 0
  OthersConform (each s) ps es =
      (k : Text) (v : Json) → In (k, v) es → contains (declared ps) k ≡ false → Conforms s v
  OthersConform anything ps es = Unit
  OthersConform nothing ps es = Unit

-- Two checks in a row pass exactly if both pass.
then_iff : (m n : Outcome (Unit {0})) → ((m >>= λ _. n) ≡ ok tt) ↔ ((m ≡ ok tt) × (n ≡ ok tt))
then_iff (ok u) n = (λ h. (refl, h), λ h. h.1)
then_iff (raised e) n = (λ h. cc, λ h. let bad : raised e ≡ ok tt = h.0 in cc)
then_iff (exited i) n = (λ h. cc, λ h. let bad : exited i ≡ ok tt = h.0 in cc)

guard_type_iff :
    (b : Bool) (e : Exn) (m : Outcome (Unit {0}))
    → (guard_type b e m ≡ ok tt) ↔ ((b ≡ true) × (m ≡ ok tt))
unfolding guard_type
guard_type_iff true e m = (λ h. (refl, h), λ h. h.1)
guard_type_iff false e m = (λ h. cc, λ h. let bad : false ≡ true = h.0 in cc)

for_dict_iff :
    (o : Option (Dict Json)) (check : Dict Json → Outcome (Unit {0}))
    → (for_dict o check ≡ ok tt) ↔ ((es : Dict Json) → o ≡ some es → check es ≡ ok tt)
unfolding for_dict
for_dict_iff none check = (λ h es e. cc, λ h. refl)
for_dict_iff (some es) check =
    (λ h es' e. subst (λ (d : Dict Json). check d ≡ ok tt) (some-injective _ _ e) h, λ h. h es refl)

for_key_iff :
    (o : Option Json) (check : Json → Outcome (Unit {0}))
    → (for_key o check ≡ ok tt) ↔ ((v : Json) → o ≡ some v → check v ≡ ok tt)
unfolding for_key
for_key_iff none check = (λ h v e. cc, λ h. refl)
for_key_iff (some v) check =
    (λ h v' e. subst (λ (x : Json). check x ≡ ok tt) (some-injective _ _ e) h, λ h. h v refl)

refuse_extra_iff : (l : List Text) (path : Text) → (refuse_extra l path ≡ ok tt) ↔ (l ≡ [])
unfolding refuse_extra
refuse_extra_iff [] path = (λ h. refl, λ h. refl)
refuse_extra_iff (k ∷ l) path = (λ h. cc, λ h. cc)

extra_keys-nil :
    (es : Dict Json) (ps : Properties)
    → (extra_keys es ps ≡ []) ↔ ((k : Text) → In k (keys es) → contains (declared ps) k ≡ true)
unfolding extra_keys
extra_keys-nil [] ps = (λ h k m. absurd m, λ h. refl)
extra_keys-nil ((j, v) ∷ es) ps =
    let ih = extra_keys-nil es ps in
    elim (Bool-cases (contains (declared ps) j)) [
      | inl y ↦
          rw y (
            λ h k m. elim m [ inl e ↦ rw e y | inr n ↦ ih.0 h k n ],
            λ h. ih.1 (λ k m. h k (inr m)),
          )
      | inr n ↦
          rw n (λ h. cc, λ h. let bad : contains (declared ps) j ≡ true = h j (inl refl) in cc)
    ]

check_extra_iff :
    (a : Additional) (ps : Properties) (es : Dict Json) (path : Text)
    → (check_extra a ps es path ≡ ok tt) ↔ AllowsKeys a ps es
unfolding check_extra
check_extra_iff nothing ps es path =
    let refused = refuse_extra_iff (extra_keys es ps) path in
    let empty = extra_keys-nil es ps in (λ h. empty.0 (refused.0 h), λ h. refused.1 (empty.1 h))
check_extra_iff _ ps es path = (λ h. tt, λ h. refl)

each_undeclared_iff :
    (P : Json → Type 0) (check : Json → Text → Outcome (Unit {0}))
    → ((v : Json) (p : Text) → (check v p ≡ ok tt) ↔ P v)
    → (names : List Text) (es : Dict Json) (path : Text)
    → (each_undeclared check names es path ≡ ok tt)
      ↔ ((k : Text) (v : Json) → In (k, v) es → contains names k ≡ false → P v)
unfolding each_undeclared
each_undeclared_iff P check decides names [] path = (λ h k v m. absurd m, λ h. refl)
each_undeclared_iff P check decides names ((j, w) ∷ es) path =
    let ih = each_undeclared_iff P check decides names es path in
    elim (Bool-cases (contains names j)) [
      | inl y ↦ rw y (
        λ h k v m u. elim m [
          | inl e ↦
              let bad : contains names j ≡ false =
                subst (λ (x : Text). contains names x ≡ false) (ap (λ (r : Text × Json). r.0) e)
                  u in
              cc
          | inr m' ↦ ih.0 h k v m' u
        ],
        λ h. ih.1 (λ k v m u. h k v (inr m) u),
      )
      | inr n ↦
          let both = then_iff (check w (join_key path j)) (each_undeclared check names es path) in
          let here = decides w (join_key path j) in
          rw n (
            λ h k v m u. elim m [
              | inl e ↦ subst P (sym (ap (λ (r : Text × Json). r.1) e)) (here.0 (both.0 h).0)
              | inr m' ↦ ih.0 (both.0 h).1 k v m' u
            ],
            λ h. both.1 (here.1 (h j w (inl refl) n), ih.1 (λ k v m u. h k v (inr m) u)),
          )
    ]

module _ (number_type : Text → Text) where
  mutual
    unfolding validate_config Conforms

    config_iff :
        (s : Schema) (value : Json) (path : Text)
        → (validate_config number_type value s path ≡ ok tt) ↔ Conforms s value
    config_iff (schema kind ps a) value path =
        let extra = λ (es : Dict Json). check_extra_iff a ps es path in
        let declared_ok = λ (es : Dict Json). properties_iff ps es path in
        let others_ok = λ (es : Dict Json). additional_iff a ps es path in
        let check = λ (es : Dict Json). check_extra a ps es path >>= λ _.
        validate_properties number_type ps es path >>= λ _.
        validate_additional number_type a ps es path in
        let typed = guard_type_iff (is_instance value kind) _ (for_dict (entries_of value) check) in
        let dicts = for_dict_iff (entries_of value) check in
        let first = λ (es : Dict Json). then_iff (check_extra a ps es path) _ in
        let second = λ (es : Dict Json).
          then_iff (validate_properties number_type ps es path)
            (validate_additional number_type a ps es path) in
        (
          λ h. (
            (typed.0 h).0,
            λ es e.
                let ran = (first es).0 (dicts.0 (typed.0 h).1 es e) in
                let ran' = (second es).0 ran.1 in
                ((extra es).0 ran.0, (declared_ok es).0 ran'.0, (others_ok es).0 ran'.1),
          ),
          λ (kind_ok, all_ok). typed.1 (
            kind_ok,
            dicts.1 (λ es e.
                let parts = all_ok es e in
                (first es).1 (
                  (extra es).1 parts.0,
                  (second es).1 ((declared_ok es).1 parts.1, (others_ok es).1 parts.2),
                )),
          ),
        )

    properties_iff :
        (ps : Properties) (es : Dict Json) (path : Text)
        → (validate_properties number_type ps es path ≡ ok tt) ↔ PropertiesConform ps es
    properties_iff none_declared es path = (λ h. tt, λ h. refl)
    properties_iff (property k s ps) es path =
        let rest = properties_iff ps es path in
        let check = λ (v : Json). validate_config number_type v s (join_key path k) in
        let here = λ (v : Json). config_iff s v (join_key path k) in
        let present = for_key_iff (lookup k es) check in
        let both =
          then_iff (for_key (lookup k es) check) (validate_properties number_type ps es path) in
        (
          λ h. (λ v e. (here v).0 (present.0 (both.0 h).0 v e), rest.0 (both.0 h).1),
          λ (given, others). both.1 (present.1 (λ v e. (here v).1 (given v e)), rest.1 others),
        )

    additional_iff :
        (a : Additional) (ps : Properties) (es : Dict Json) (path : Text)
        → (validate_additional number_type a ps es path ≡ ok tt) ↔ OthersConform a ps es
    additional_iff anything ps es path = (λ h. tt, λ h. refl)
    additional_iff nothing ps es path = (λ h. tt, λ h. refl)
    additional_iff (each s) ps es path =
        each_undeclared_iff (Conforms s) (λ v p. validate_config number_type v s p)
          (λ v p. config_iff s v p) (declared ps) es path

  -- `validate_config` accepts a value, at whatever path, exactly if the value conforms to the
  -- schema.
  pub validate_config_iff :
      (s : Schema) (value : Json) (path : Text)
      → (validate_config number_type value s path ≡ ok tt) ↔ Conforms s value
  validate_config_iff s value path = config_iff s value path
