-- ===== src/NpmScan/Staged/Build.antt =====
-- The environment of a source build.
use socket_scan_patterns.NpmScan.Staged.Credentials.{IsCredential, is_credential_iff}
use socket_scan_patterns.NpmScan.Staged.{
  Environment, Strings, is_credential, npm_scan_source_build_environment,
}
use socket_scan_patterns.Prelude.{
  ◌⊎◌, [], ◌∷◌, Option, none, some, if◌then◌else◌, ◌≡◌, refl, sym, Bool-cases, inl, inr,
}
use socket_scan_patterns.Text.Equality.{text_eq_iff}
use socket_scan_patterns.TextSet.{get}
use socket_scan_patterns.Text.{Text, text_eq}

-- `undefined` under a name that there is
abbrev pub cleared : Option (Option Text) → Option (Option Text)
cleared none = none
cleared (some value) = some none

module _ (strings : Strings) where
  abbrev pub screened : Text → Option (Option Text) → Option (Option Text)
  screened name value = if is_credential strings name then cleared value else value

  screened-none : (name : Text) → screened name none ≡ none
  screened-none name = elim (Bool-cases (is_credential strings name)) [
    | inl e ↦ rw e refl
    | inr e ↦ rw e refl
  ]

  get-screened :
      (env : Environment) (name : Text)
      → get name (npm_scan_source_build_environment strings env) ≡ screened name (get name env)
  unfolding npm_scan_source_build_environment get
  get-screened [] name = sym (screened-none name)
  get-screened ((key, value) ∷ env) name = elim (Bool-cases (text_eq key name)) [
    | inl e ↦
        let same = (text_eq_iff key name).0 e in
        elim (Bool-cases (is_credential strings name)) [
          | inl k ↦ rw (e, same, k) refl
          | inr k ↦ rw (e, same, k) refl
        ]
    | inr e ↦ rw e (get-screened env name)
  ]

  -- The environment of a source build has every variable of the given one: undefined where its
  -- name, in upper case, is one of the listed credentials, the legacy Socket token, a setting of
  -- git's configuration or a setting of npm that holds credentials, and with its value everywhere
  -- else.
  pub get-npm_scan_source_build_environment :
      (env : Environment) (name : Text)
      → (IsCredential strings (strings.to_upper_case name)
          × (get name (npm_scan_source_build_environment strings env) ≡ cleared (get name env)))
        ⊎ ((¬ IsCredential strings (strings.to_upper_case name))
            × (get name (npm_scan_source_build_environment strings env) ≡ get name env))
  get-npm_scan_source_build_environment env name = elim (Bool-cases (is_credential strings name)) [
    | inl e ↦ inl ((is_credential_iff strings name).0 e, rw get-screened (rw e refl))
    | inr e ↦ inr (λ c. cc ((is_credential_iff strings name).1 c), rw get-screened (rw e refl))
  ]
