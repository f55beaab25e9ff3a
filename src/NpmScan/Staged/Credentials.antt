-- ===== src/NpmScan/Staged/Credentials.antt =====
-- Which names are those of credentials, spelled out.
use mathlib.Core.List.{Mem}
use socket_scan_patterns.NpmScan.Staged.{
  Strings, git_credential_config_env_name, npm_credential_config_env_name, is_credential,
  source_build_credential_env_names, legacy_socket_token_env_var,
}
use socket_scan_patterns.Prelude.{
  arith, ℕ, Bool, true, false, not, ◌||◌, List, [], ◌∷◌, ◌++◌, map, every, ◌≡◌, ◌≢◌, ◌⊎◌, ◌↔◌, refl,
  sym, ap, ap₂, ◌∙◌, inl, inr, append-nil,
}
use socket_scan_patterns.Regex.Forms.{
  IsPlain-word, word_start_iff, text_end_iff, word_end_iff, word_plus_iff, star_iff,
}
use socket_scan_patterns.Regex.Notation.{◌⨟◌, ◌⊕◌, word, plus, maybe, is_line_break}
use socket_scan_patterns.Regex.Whole.{IsPlain, Reads, Reads-word}
use socket_scan_patterns.Regex.{Rx, unit, star, text_end, test}
use socket_scan_patterns.Text.Equality.{text_eq_iff}
use socket_scan_patterns.Text.{Text, codes, is_digit, text_eq}
use socket_scan_patterns.TextSet.Laws.{has→Mem, Mem→has}
use socket_scan_patterns.TextSet.{has}

-- A setting of git's configuration in the environment.
pub data IsGitSetting (name : Text) : Type 0 where
  count : name ≡ codes "GIT_CONFIG_COUNT" → IsGitSetting name
  key :
      (digits : Text)
      → digits ≢ []
      → every is_digit digits ≡ true
      → name ≡ codes "GIT_CONFIG_KEY_" ++ digits
      → IsGitSetting name
  value :
      (digits : Text)
      → digits ≢ []
      → every is_digit digits ≡ true
      → name ≡ codes "GIT_CONFIG_VALUE_" ++ digits
      → IsGitSetting name

pub data IsNpmSuffix (suffix : Text) : Type 0 where
  auth : suffix ≡ codes "_AUTH" → IsNpmSuffix suffix
  auth_token : suffix ≡ codes "_AUTHTOKEN" → IsNpmSuffix suffix
  global_config : suffix ≡ codes "_GLOBALCONFIG" → IsNpmSuffix suffix
  password : suffix ≡ codes "_PASSWORD" → IsNpmSuffix suffix
  user_config : suffix ≡ codes "_USERCONFIG" → IsNpmSuffix suffix
  username : suffix ≡ codes "_USERNAME" → IsNpmSuffix suffix

-- A setting of npm that holds credentials, for any registry.
pub record IsNpmSetting (name : Text) : Type 0 where
  pub middle : Text
  pub one_line : every (λ c. not (is_line_break c)) middle ≡ true
  pub suffix : Text
  pub is_suffix : IsNpmSuffix suffix
  pub name_is : name ≡ codes "NPM_CONFIG_" ++ (middle ++ suffix)

-- The names of credentials that the source lists itself.
abbrev pub listed_names : List Text
listed_names =
    codes "SOCKET_API_TOKEN"
    ∷ codes "ACTIONS_ID_TOKEN_REQUEST_TOKEN"
    ∷ codes "ACTIONS_ID_TOKEN_REQUEST_URL"
    ∷ codes "ACTIONS_RUNTIME_TOKEN"
    ∷ codes "COREPACK_NPM_TOKEN"
    ∷ codes "NPM_CONFIG_GLOBALCONFIG"
    ∷ codes "NPM_CONFIG_USERCONFIG"
    ∷ codes "SOCKET_PR_APP_PRIVATE_KEY"
    ∷ codes "SOCKET_RELEASE_APP_PRIVATE_KEY"
    ∷ []

-- A name of a credential, in upper case.
pub data IsCredential (strings : Strings) (name : Text) : Type 0 where
  listed :
      Mem name (map strings.to_upper_case (strings.imported_credential_names ++ listed_names))
      → IsCredential strings name
  legacy : name ≡ codes "SOCKET_API_KEY" → IsCredential strings name
  git_setting : IsGitSetting name → IsCredential strings name
  npm_setting : IsNpmSetting name → IsCredential strings name

digits-IsPlain : (w : Text) → IsPlain (word w ⨟ plus (unit is_digit))
digits-IsPlain w = (IsPlain-word w, (tt, (is_digit, refl)))

git_iff : (name : Text) → (test git_credential_config_env_name name ≡ true) ↔ IsGitSetting name
git_iff name =
    let anchored =
      word_end_iff (codes "GIT_CONFIG_")
        (word (codes "COUNT")
          ⊕ (word (codes "KEY_") ⨟ plus (unit is_digit))
          ⊕ (word (codes "VALUE_") ⨟ plus (unit is_digit)))
        name
        (
          IsPlain-word (codes "COUNT"),
          (digits-IsPlain (codes "KEY_"), digits-IsPlain (codes "VALUE_")),
        ) in
    let keyed = word_plus_iff (codes "KEY_") is_digit in
    let valued = word_plus_iff (codes "VALUE_") is_digit in
    let behind = λ (t : Text). codes "GIT_CONFIG_" ++ t in
    (
      λ h.
          let (a, split, reads) = anchored.0 h in
          elim reads [
            | inl e ↦ count (split ∙ ap behind ((Reads-word (codes "COUNT") a []).0 e))
            | inr (inl e) ↦
                let (d, is, given, all) = (keyed a []).0 e in key d given all (split ∙ ap behind is)
            | inr (inr e) ↦
                let (d, is, given, all) = (valued a []).0 e in
                value d given all (split ∙ ap behind is)
          ],
      λ s. elim s [
        | count e ↦
            anchored.1
              (codes "COUNT", e, inl ((Reads-word (codes "COUNT") (codes "COUNT") []).1 refl))
        | key d given all e ↦
            anchored.1 (codes "KEY_" ++ d, e, inr (inl ((keyed _ []).1 (d, refl, given, all))))
        | value d given all e ↦
            anchored.1 (codes "VALUE_" ++ d, e, inr (inr ((valued _ []).1 (d, refl, given, all))))
      ],
    )

-- the suffixes, as the alternatives of the pattern
abbrev suffixes : Rx
suffixes =
    (word (codes "_AUTH") ⨟ maybe (word (codes "TOKEN")))
    ⊕ (word (codes "_GLOBALCONFIG")
        ⊕ (word (codes "_PASSWORD") ⊕ (word (codes "_USERCONFIG") ⊕ word (codes "_USERNAME"))))

suffix-of : (a : Text) → Reads suffixes a [] → IsNpmSuffix a
suffix-of a (inl (b, c, split, is_auth, inl is_token)) = auth_token (
    split
    ∙ ap₂ (λ (s t : Text). s ++ t) ((Reads-word (codes "_AUTH") b (c ++ [])).0 is_auth)
        ((Reads-word (codes "TOKEN") c []).0 is_token))
suffix-of a (inl (b, c, split, is_auth, inr nothing)) = auth (
    split
    ∙ ap₂ (λ (s t : Text). s ++ t) ((Reads-word (codes "_AUTH") b (c ++ [])).0 is_auth) nothing)
suffix-of a (inr (inl e)) = global_config ((Reads-word _ a []).0 e)
suffix-of a (inr (inr (inl e))) = password ((Reads-word _ a []).0 e)
suffix-of a (inr (inr (inr (inl e)))) = user_config ((Reads-word _ a []).0 e)
suffix-of a (inr (inr (inr (inr e)))) = username ((Reads-word _ a []).0 e)

suffix-read : (a : Text) → IsNpmSuffix a → Reads suffixes a []
suffix-read a (auth e) =
    inl (codes "_AUTH", [], e, (Reads-word (codes "_AUTH") _ []).1 refl, inr refl)
suffix-read a (auth_token e) = inl (
  codes "_AUTH",
  codes "TOKEN",
  e,
  (Reads-word (codes "_AUTH") _ (codes "TOKEN")).1 refl,
  inl ((Reads-word (codes "TOKEN") _ []).1 refl),
)
suffix-read a (global_config e) = inr (inl ((Reads-word _ a []).1 e))
suffix-read a (password e) = inr (inr (inl ((Reads-word _ a []).1 e)))
suffix-read a (user_config e) = inr (inr (inr (inl ((Reads-word _ a []).1 e))))
suffix-read a (username e) = inr (inr (inr (inr ((Reads-word _ a []).1 e))))

suffixes-IsPlain : IsPlain suffixes
suffixes-IsPlain = (
  (IsPlain-word (codes "_AUTH"), (IsPlain-word (codes "TOKEN"), tt)),
  (
    IsPlain-word (codes "_GLOBALCONFIG"),
    (
      IsPlain-word (codes "_PASSWORD"),
      (IsPlain-word (codes "_USERCONFIG"), IsPlain-word (codes "_USERNAME")),
    ),
  ),
)

abbrev in_line : ℕ → Bool
in_line c = not (is_line_break c)

npm_iff : (name : Text) → (test npm_credential_config_env_name name ≡ true) ↔ IsNpmSetting name
npm_iff name =
    let anchored =
      word_start_iff (codes "NPM_CONFIG_") (star (unit in_line) ⨟ suffixes ⨟ text_end) name
        ((in_line, refl), (suffixes-IsPlain, tt)) in
    let behind = λ (t : Text). codes "NPM_CONFIG_" ++ t in
    (
      λ h.
          let (a, rest, split, (b, c, parts, line, reads)) = anchored.0 h in
          let (ending, done) = (text_end_iff suffixes c rest).0 reads in
          record {
            middle = b;
            one_line = (star_iff in_line b (c ++ rest)).0 line;
            suffix = c;
            is_suffix = suffix-of c ending;
            name_is =
                split ∙ ap behind (ap₂ (λ (s t : Text). s ++ t) parts done ∙ append-nil (b ++ c));
          },
      λ s. anchored.1 (
        s.middle ++ s.suffix,
        [],
        s.name_is ∙ ap behind (sym (append-nil (s.middle ++ s.suffix))),
        (
          s.middle,
          s.suffix,
          refl,
          (star_iff in_line s.middle (s.suffix ++ [])).1 s.one_line,
          (text_end_iff suffixes s.suffix []).1 (suffix-read s.suffix s.is_suffix, refl),
        ),
      ),
    )

or_four_iff :
    (a b c d : Bool)
    → ((a || b || c || d) ≡ true) ↔ ((a ≡ true) ⊎ ((b ≡ true) ⊎ ((c ≡ true) ⊎ (d ≡ true))))
or_four_iff true b c d = (λ h. inl refl, λ e. ground arith)
or_four_iff false true c d = (λ h. inr (inl refl), λ e. ground arith)
or_four_iff false false true d = (λ h. inr (inr (inl refl)), λ e. refl)
or_four_iff false false false true = (λ h. inr (inr (inr refl)), λ e. refl)
or_four_iff false false false false = (
  λ h. cc h,
  λ e. elim e [ inl f ↦ f | inr (inl f) ↦ f | inr (inr (inl f)) ↦ f | inr (inr (inr f)) ↦ f ],
)

module _ (strings : Strings) where
  -- The test of the loop passes exactly on the names of credentials.
  pub is_credential_iff :
      (name : Text)
      → (is_credential strings name ≡ true) ↔ IsCredential strings (strings.to_upper_case name)
  unfolding is_credential
  is_credential_iff name =
      let n = strings.to_upper_case name in
      let parts =
        or_four_iff (has n (source_build_credential_env_names strings))
          (text_eq n legacy_socket_token_env_var) (test git_credential_config_env_name n)
          (test npm_credential_config_env_name n) in
      (
        λ h. elim (parts.0 h) [
          | inl e ↦ listed (has→Mem n (source_build_credential_env_names strings) e)
          | inr (inl e) ↦ legacy ((text_eq_iff n legacy_socket_token_env_var).0 e)
          | inr (inr (inl e)) ↦ git_setting ((git_iff n).0 e)
          | inr (inr (inr e)) ↦ npm_setting ((npm_iff n).0 e)
        ],
        λ c. elim c [
          | listed m ↦ parts.1 (inl (Mem→has n (source_build_credential_env_names strings) m))
          | legacy e ↦ parts.1 (inr (inl ((text_eq_iff n legacy_socket_token_env_var).1 e)))
          | git_setting s ↦ parts.1 (inr (inr (inl ((git_iff n).1 s))))
          | npm_setting s ↦ parts.1 (inr (inr (inr ((npm_iff n).1 s))))
        ],
      )
