-- ===== src/Cas/Files.antt =====
-- An object store that is a function from keys to objects, and that internal/cas may rely on.
use imgsrv.Prelude.{
  ℕ, String, true, not, ◌&&◌, Option, none, some, List, [], ◌∷◌, ◌≡◌, refl, ap, ◌∙◌, inl, inr, pos,
  length, str_eq, eq_iff, is_some, if◌then◌else◌, Result, ok, err, Bool-cases, Option-cases,
  object_not_found, object_conflict, object_already_exists, arith,
}
use imgsrv.Cas.Objects.{ObjectStore, ObjectInfo, ObjectReader, CopyObjectParams, Stored, IsLawful}

abbrev pub Files : Type 0
Files = String → Option Stored

abbrev pub info : String → Stored → ObjectInfo
info key x = record { key = key; size_bytes = pos (length x.content); etag = x.etag }

abbrev pub open_file : String → Files → Result ObjectReader × Files
open_file key o = elim (o key) [
  | none ↦ (err (object_not_found ∷ []), o)
  | some x ↦ (ok (record { info = info key x; body = ok x.content }), o)
]

abbrev pub stat_file : String → Files → Result ObjectInfo × Files
stat_file key o = elim (o key) [
  | none ↦ (err (object_not_found ∷ []), o)
  | some x ↦ (ok (info key x), o)
]

abbrev pub put_file : String → Option Stored → Files → Files
put_file key x o n = if str_eq key n then x else o n

abbrev pub copy_file : CopyObjectParams → Files → Result ObjectInfo × Files
copy_file p o = elim (o p.source_key) [
  | none ↦ (err (object_not_found ∷ []), o)
  | some x ↦
      if not (str_eq x.etag p.if_source_etag)
      then (err (object_conflict ∷ []), o)
      else if p.if_destination_absent && is_some (o p.destination_key)
      then (err (object_already_exists ∷ []), o)
      else (ok (info p.destination_key x), put_file p.destination_key (some x) o)
]

abbrev pub files : ObjectStore Files
files = record {
  open_object = open_file;
  stat_object = stat_file;
  copy_object = copy_file;
  delete_object = λ key o. (ok tt, put_file key none o);
}

str_refl : (k : String) → str_eq k k ≡ true
str_refl k = (eq_iff k k).1 refl

copy_keeps :
    (p : CopyObjectParams) (o : Files) (n : String) (x : Stored)
    → p.if_destination_absent ≡ true
    → o n ≡ some x
    → (copy_file p o).1 n ≡ some x
copy_keeps p o n x absent h = elim (Option-cases (o p.source_key)) [
  | inl e ↦ rw (copy_file, e) h
  | inr (y, e) ↦ elim (Bool-cases (str_eq y.etag p.if_source_etag)) [
    | inr m ↦ rw (copy_file, e, m) h
    | inl m ↦ elim (Bool-cases (is_some (o p.destination_key))) [
      | inl there ↦ rw (copy_file, e, m, absent, there) h
      | inr free ↦ elim (Bool-cases (str_eq p.destination_key n)) [
        | inr other ↦ rw (copy_file, e, m, absent, free, other) h
        | inl at ↦
            let same = (eq_iff p.destination_key n).0 at in absurd (cc (rw (same, h) at free))
      ]
    ]
  ]
]

copy_takes :
    (p : CopyObjectParams) (o : Files) (i : ObjectInfo)
    → (copy_file p o).0 ≡ ok i
    → (c : List ℕ) × (etag : String) × (o p.source_key
        ≡ some (record { content = c; etag = p.if_source_etag }))
      × ((copy_file p o).1 p.destination_key ≡ some (record { content = c; etag = etag }))
copy_takes p o i h = elim (Option-cases (o p.source_key)) [
  | inl e ↦ absurd (cc (rw (copy_file, e) at h))
  | inr (y, e) ↦ elim (Bool-cases (str_eq y.etag p.if_source_etag)) [
    | inr m ↦ absurd (cc (rw (copy_file, e, m) at h))
    | inl m ↦ elim (Bool-cases (p.if_destination_absent && is_some (o p.destination_key))) [
      | inl there ↦ absurd (cc (rw (copy_file, e, m, there) at h))
      | inr free ↦
          let tag = (eq_iff y.etag p.if_source_etag).0 m in
          (
            y.content,
            y.etag,
            e ∙ ap (λ t. some (record { content = y.content; etag = t })) tag,
            rw (copy_file, e, m, free, str_refl p.destination_key) refl,
          )
    ]
  ]
]

pub files_IsLawful : IsLawful files
files_IsLawful = record {
  stored = λ o k. o k;
  open_keeps = λ k o n. elim (Option-cases (o k)) [
    | inl e ↦ rw (open_file, e) refl
    | inr (x, e) ↦ rw (open_file, e) refl
  ];
  open_reads = λ k o r c h b. elim (Option-cases (o k)) [
    | inl e ↦ absurd (cc (rw (open_file, e) at h))
    | inr (x, e) ↦ let i = rw (open_file, e) at h in e ∙ ground (arith, i, b)
  ];
  stat_keeps = λ k o n. elim (Option-cases (o k)) [
    | inl e ↦ rw (stat_file, e) refl
    | inr (x, e) ↦ rw (stat_file, e) refl
  ];
  copy_keeps = copy_keeps;
  copy_takes = copy_takes;
  delete_keeps = λ k o n other. rw other refl;
}
