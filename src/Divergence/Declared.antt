-- ===== src/Divergence/Declared.antt =====
-- What a declared divergence is.
use socket_scan_patterns.Divergence.{
  reason_text, is_true, skipped_of, DivergenceEntry, entry_of, lookup_entry, read_divergence_entry,
  is_declared_divergence,
}
use socket_scan_patterns.Json.{Json, null, boolean, number, string, array, object, Fields, prop}
use socket_scan_patterns.Failure.{ok, bind-eq-ok, ok_injective}
use socket_scan_patterns.Prelude.{
  true, false, [], ◌∷◌, Option, none, some, ◌≡◌, ◌≢◌, refl, ap, ◌∙◌, Option-cases, inl, inr,
}
use socket_scan_patterns.Text.{Text, codes}

-- The file declares the skip: an entry with a reason that is not empty, and with `skipped` true.
pub record IsDeclared (file : Option Json) (upstream module_name : Text) : Type 0 where
  pub root : Fields
  pub entry : Fields
  pub reason : Text
  pub file_is : file ≡ some (object root)
  pub entry_is : lookup_entry upstream module_name root ≡ some entry
  pub reason_is : prop (codes "reason") entry ≡ some (string reason)
  pub has_reason : reason ≢ []
  pub skipped_is : prop (codes "skipped") entry ≡ some (boolean true)

reason_text-some :
    (value : Option Json) (reason : Text)
    → reason_text value ≡ some reason
    → (value ≡ some (string reason)) × (reason ≢ [])
unfolding reason_text
reason_text-some (some (string (c ∷ cs))) reason h = (cc, λ e. cc)
reason_text-some (some (string [])) reason h = cc
reason_text-some none reason h = cc
reason_text-some (some null) reason h = cc
reason_text-some (some (boolean b)) reason h = cc
reason_text-some (some (number n)) reason h = cc
reason_text-some (some (array items)) reason h = cc
reason_text-some (some (object members)) reason h = cc

is_true-eq : (value : Option Json) → is_true value ≡ true → value ≡ some (boolean true)
is_true-eq (some (boolean true)) h = refl
is_true-eq (some (boolean false)) h = cc
is_true-eq none h = cc
is_true-eq (some null) h = cc
is_true-eq (some (string s)) h = cc
is_true-eq (some (number n)) h = cc
is_true-eq (some (array items)) h = cc
is_true-eq (some (object members)) h = cc

IsDeclared-of :
    (upstream module_name : Text) (root : Fields) (found : Option Fields)
    → lookup_entry upstream module_name root ≡ found
    → (read : Option DivergenceEntry) → entry_of upstream module_name found ≡ ok read
    → (entry : DivergenceEntry) → read ≡ some entry
    → entry.skipped ≡ true
    → IsDeclared (some (object root)) upstream module_name
unfolding entry_of
IsDeclared-of upstream module_name root none at_entry read h entry e skipped = cc
IsDeclared-of upstream module_name root (some members) at_entry read h entry e skipped =
    elim (Option-cases (reason_text (prop (codes "reason") members))) [
      | inl missing ↦ cc (rw (missing, entry_of) at h)
      | inr (reason, given) ↦
          let (reason_is, has_reason) = reason_text-some _ reason given in
          record {
            root = root;
            entry = members;
            reason = reason;
            file_is = refl;
            entry_is = at_entry;
            reason_is = reason_is;
            has_reason = has_reason;
            skipped_is =
                is_true-eq _
                  (ap skipped_of (ok_injective (rw (given, entry_of) at h) ∙ e) ∙ skipped);
          }
    ]

IsDeclared-file :
    (file : Option Json) (upstream module_name : Text) (read : Option DivergenceEntry)
    → read_divergence_entry file upstream module_name ≡ ok read
    → skipped_of read ≡ true
    → IsDeclared file upstream module_name
unfolding read_divergence_entry
IsDeclared-file file upstream module_name none h s = cc
IsDeclared-file (some (object root)) upstream module_name (some entry) h s =
    IsDeclared-of upstream module_name root (lookup_entry upstream module_name root) refl
      (some entry) h entry refl s
IsDeclared-file none upstream module_name (some entry) h s = cc
IsDeclared-file (some null) upstream module_name (some entry) h s = cc
IsDeclared-file (some (boolean b)) upstream module_name (some entry) h s = cc
IsDeclared-file (some (string c)) upstream module_name (some entry) h s = cc
IsDeclared-file (some (number n)) upstream module_name (some entry) h s = cc
IsDeclared-file (some (array items)) upstream module_name (some entry) h s = cc

-- A divergence that counts as declared has an entry in the file under its upstream and module,
-- with a reason that is a nonempty text and with skipped true.
pub is_declared_divergence-IsDeclared :
    (file : Option Json) (upstream module_name : Text)
    → is_declared_divergence file upstream module_name ≡ ok true
    → IsDeclared file upstream module_name
unfolding is_declared_divergence
is_declared_divergence-IsDeclared file upstream module_name h =
    let (read, was_read, skipped) =
      bind-eq-ok (read_divergence_entry file upstream module_name) _ h in
    IsDeclared-file file upstream module_name read was_read (ok_injective skipped)
