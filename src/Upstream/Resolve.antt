-- ===== src/Upstream/Resolve.antt =====
-- Which slices resolve.
use socket_scan_patterns.Failure.{ok, ok_injective}
use socket_scan_patterns.Prelude.{
  ℕ, true, [], ◌∷◌, Option, none, some, ◌≡◌, refl, ◌↔◌, ◌≢◌, sym, ap, ◌∙◌, subst, Bool-cases, inl,
  inr,
}
use mathlib.Core.List.{Mem}
use socket_scan_patterns.Schema.{License, spdx, inherited}
use socket_scan_patterns.Text.Equality.{text_eq_iff}
use socket_scan_patterns.Text.{Text, codes, text_eq}
use socket_scan_patterns.TextSet.Laws.{has→Mem, Mem→has}
use socket_scan_patterns.TextSet.{has, get}
use socket_scan_patterns.Upstream.{
  UpstreamSlice, Host, upstream_licenses, inherited_members, or_inherited, read_pinned_tag,
  slice_of, pinned_slice, licensed_slice, resolve_upstream_slice,
}

abbrev pub tag_of : Host → Text → Option Text
tag_of host name =
    read_pinned_tag (host.read_file (host.path_join (host.repo_root ∷ codes ".gitmodules" ∷ [])))
      name

-- What a name has as its license: its own entry, where it has one, and else what it inherits.
pub data HasLicense (name : Text) : License → Type 0 where
  own :
      (c : ℕ) (cs : Text)
      → get name upstream_licenses ≡ some (c ∷ cs)
      → HasLicense name (spdx (c ∷ cs))
  from_object :
      get name upstream_licenses ≡ none
      → Mem name inherited_members
      → HasLicense name (inherited name)

-- What a slice that a generator may read is.
pub record IsResolved (host : Host) (name : Text) (slice : UpstreamSlice) : Type 0 where
  pub derivable : name ≢ codes "trufflehog"
  pub license : HasLicense name slice.license
  pub pinned : tag_of host name ≡ some slice.tag
  pub has_tag : slice.tag ≢ []
  pub materialized : host.exists_dir slice.root_path ≡ true
  pub slice_is : slice ≡ slice_of host name slice.license slice.tag

-- what is known of a slice behind the license check
abbrev Checked : Host → Text → License → Option Text → UpstreamSlice → Type 0
Checked host name license tag slice =
    (tag ≡ some slice.tag)
    × (slice.tag ≢ [])
    × (host.exists_dir slice.root_path ≡ true)
    × (license ≡ slice.license)
    × (slice ≡ slice_of host name slice.license slice.tag)

pinned_slice-ok :
    (host : Host) (name : Text) (license : License) (tag : Option Text) (slice : UpstreamSlice)
    → pinned_slice host name license tag ≡ ok slice
    → Checked host name license tag slice
unfolding pinned_slice
pinned_slice-ok host name license none slice h = cc
pinned_slice-ok host name license (some []) slice h = cc
pinned_slice-ok host name license (some (t ∷ ts)) slice h =
    elim (Bool-cases (host.exists_dir (host.path_join (host.upstream_dir ∷ name ∷ [])))) [
      | inl there ↦
          let made : slice_of host name license (t ∷ ts) ≡ slice = ok_injective (rw there at h) in
          subst (Checked host name license (some (t ∷ ts))) made (refl, λ e. cc, there, refl, refl)
      | inr gone ↦ cc (rw gone at h)
    ]

licensed_slice-ok :
    (host : Host) (name : Text) (license : License) (slice : UpstreamSlice)
    → licensed_slice host name (some license) ≡ ok slice
    → Checked host name license (tag_of host name) slice
unfolding licensed_slice
licensed_slice-ok host name (spdx []) slice h = cc
licensed_slice-ok host name (spdx (c ∷ cs)) slice h = pinned_slice-ok host name _ _ slice h
licensed_slice-ok host name (inherited m) slice h = pinned_slice-ok host name _ _ slice h

found-HasLicense :
    (host : Host) (name : Text) (entry : Option Text) (slice : UpstreamSlice)
    → get name upstream_licenses ≡ entry
    → licensed_slice host name (or_inherited name entry) ≡ ok slice
    → HasLicense name slice.license × Checked host name slice.license (tag_of host name) slice
unfolding licensed_slice
found-HasLicense host name (some []) slice at_name h = cc
found-HasLicense host name (some (c ∷ cs)) slice at_name h =
    let checked = licensed_slice-ok host name (spdx (c ∷ cs)) slice h in
    let same = checked.3 in
    (
      subst (HasLicense name) same (own c cs at_name),
      subst (λ (l : License). Checked host name l (tag_of host name) slice) same checked,
    )
found-HasLicense host name none slice at_name h = elim (Bool-cases (has name inherited_members)) [
  | inr e ↦ cc (rw e at h)
  | inl e ↦
      let checked = licensed_slice-ok host name (inherited name) slice (rw e at h) in
      let same = checked.3 in
      (
        subst (HasLicense name) same (from_object at_name (has→Mem name inherited_members e)),
        subst (λ (l : License). Checked host name l (tag_of host name) slice) same checked,
      )
]

pinned_slice-made :
    (host : Host) (name : Text) (license : License) (tag : Text)
    → tag ≢ []
    → host.exists_dir (slice_of host name license tag).root_path ≡ true
    → pinned_slice host name license (some tag) ≡ ok (slice_of host name license tag)
unfolding pinned_slice
pinned_slice-made host name license [] ht there = absurd (ht refl)
pinned_slice-made host name license (t ∷ ts) ht there = rw there refl

licensed_slice-made :
    (host : Host) (name : Text) (license : License) (tag : Text)
    → HasLicense name license
    → tag ≢ []
    → tag_of host name ≡ some tag
    → host.exists_dir (slice_of host name license tag).root_path ≡ true
    → licensed_slice host name (or_inherited name (get name upstream_licenses))
      ≡ ok (slice_of host name license tag)
unfolding licensed_slice
licensed_slice-made host name _ tag (own c cs found) ht pinned there =
    rw (found, pinned) (pinned_slice-made host name (spdx (c ∷ cs)) tag ht there)
licensed_slice-made host name _ tag (from_object missing member) ht pinned there =
    rw (missing, Mem→has name inherited_members member, pinned)
      (pinned_slice-made host name (inherited name) tag ht there)

-- A slice resolves exactly if its upstream is not trufflehog, has a license on record or a name
-- that every object inherits a member under, is pinned by a nonempty tag and is on disk; and then
-- it carries that license or member, that tag and name@tag.
pub resolve_upstream_slice-ok_iff :
    (host : Host) (name : Text) (slice : UpstreamSlice)
    → (resolve_upstream_slice host name ≡ ok slice) ↔ IsResolved host name slice
unfolding resolve_upstream_slice has
resolve_upstream_slice-ok_iff host name slice =
    elim (Bool-cases (text_eq (codes "trufflehog") name)) [
      | inl blocked ↦ (
        λ h. cc (rw blocked at h),
        λ r. absurd (r.derivable (sym ((text_eq_iff (codes "trufflehog") name).0 blocked))),
      )
      | inr derivable ↦ (
        λ h.
            let (licensed, (pinned, has_tag, there, same, made)) =
              found-HasLicense host name (get name upstream_licenses) slice refl
                (rw derivable at h) in
            record {
              derivable = λ e. cc ((text_eq_iff (codes "trufflehog") name).1 (sym e));
              license = licensed;
              pinned = pinned;
              has_tag = has_tag;
              materialized = there;
              slice_is = made;
            },
        λ r.
            let made =
              licensed_slice-made host name slice.license slice.tag r.license r.has_tag r.pinned (
                subst (λ (s : UpstreamSlice). host.exists_dir s.root_path ≡ true) r.slice_is
                  r.materialized) in
            rw derivable (made ∙ ap ok (sym r.slice_is)),
      )
    ]
