-- ===== src/Cas/Keys.antt =====
-- StorageKey of internal/cas/service.go, and the check of the database on it.
use Prim.Native.Char.{code}
use Prim.Native.String.{◌++◌}
use Prim.Native.String.append
use imgsrv.Prelude.{
  ℕ, String, Bool, true, false, none, some, ◌≡◌, refl, sym, ap, ◌∙◌, ◌==◌, inl, inr, Bool-cases,
  Option-cases, cut_prefix, cut_prefix-drop_text, drop_text, drop_text-add, take_text, ok, err,
  arith, str_eq, eq_iff,
}
use imgsrv.Uploads.Domain.{staging_key, matches_digest, validate_digest, parse_digest}
use imgsrv.Uploads.Statements.{checked_storage_key}

-- The key behind the prefix of the digest.
unfoldable pub key_of_hex : String → String
unfolding take_text drop_text
key_of_hex raw =
    "cas/sha256/" ++ take_text 2 raw ++ "/" ++ take_text 2 (drop_text 2 raw) ++ "/" ++ raw

-- StorageKey: the empty text for what is no digest.
unfoldable pub storage_key : String → String
unfolding validate_digest cut_prefix key_of_hex
storage_key digest = elim (validate_digest digest) [
  | err _ ↦ ""
  | ok _ ↦ elim (cut_prefix digest "sha256:") [ none ↦ "" | some raw ↦ key_of_hex raw ]
]

-- The storage key of a digest is the one that the database admits for it.
pub storage_key-checked :
    (digest : String)
    → validate_digest digest ≡ ok tt
    → storage_key digest ≡ checked_storage_key digest
unfolding storage_key checked_storage_key validate_digest parse_digest matches_digest key_of_hex
storage_key-checked digest fine = elim (Option-cases (cut_prefix digest "sha256:")) [
  | inl e ↦ absurd (ground (arith, e, fine))
  | inr (raw, e) ↦
      let behind : drop_text 7 digest ≡ raw = cut_prefix-drop_text digest "sha256:" e in
      let more : drop_text 9 digest ≡ drop_text 2 raw =
        sym (drop_text-add 2 7 digest) ∙ ap (drop_text 2) behind in
      let keyed : storage_key digest ≡ key_of_hex raw = rw (storage_key, fine, e) refl in
      keyed ∙ rw (behind, more) refl
]

-- A staging key is no storage key.
abbrev begins_with_c : String → Bool
begins_with_c String.[] = false
begins_with_c (String.◌∷◌ c s) = code c == b'c'

pub staging-apart :
    (uuid_text : ℕ → String) (id : ℕ) (digest : String)
    → str_eq (staging_key uuid_text id) (checked_storage_key digest) ≡ false
unfolding staging_key checked_storage_key
staging-apart uuid_text id digest =
    elim (Bool-cases (str_eq (staging_key uuid_text id) (checked_storage_key digest))) [
      | inr e ↦ e
      | inl e ↦
          let same = (eq_iff (staging_key uuid_text id) (checked_storage_key digest)).0 e in
          absurd (cc (ap begins_with_c same, staged, stored))
    ]
  where
    staged : begins_with_c (staging_key uuid_text id) ≡ false
    staged = rw (append.cons "s" "taging/uploads/" (uuid_text id)) refl

    stored : begins_with_c (checked_storage_key digest) ≡ true
    stored = rw (append.cons "c" "as/sha256/" _) refl
