-- ===== src/BlobRange/Bounds.antt =====
-- The ranges that internal/httpapi/blob_handler.go selects lie in the blob.
use imgsrv.Prelude.{
  cut_prefix, ℕ, zero, suc, ◌+◌, ◌-◌, ◌<◌, ◌≤◌, String, Bool, true, false, ◌||◌, Option, none, some,
  [], ◌∷◌, ◌≡◌, sym, ◌∙◌, inl, inr, Bool-cases, Option-cases, trim_space, is_empty, if◌then◌else◌,
  ltb, leb, ltb_ℤ, leb_ℤ, eqb_ℤ, ℤ, pos, negsuc, two63, ok, err, other, arith,
}
use imgsrv.BlobRange.Parse.{
  SelectedBlobRange, Selection, suffix_range, open_range, closed_range, from_start, select_spec,
  parse_blob_range_header, parse_int, cut, contains,
}
use imgsrv.BlobRange.Spans.{spans, suffix-spans, open-spans, closed-spans}

-- A range of at least one byte inside a blob of `size` bytes; one that is open ends with the blob.
pub record IsWithin (size : ℕ) (r : SelectedBlobRange) : Type 0 where
  pub first : ℕ
  pub count : ℕ
  pub to_end : Bool
  pub same : r ≡ spans first count to_end
  pub inside : first + count < size
  pub ends : to_end ≡ true → suc (first + count) ≡ size

selected : (a b : SelectedBlobRange) → ok a ≡ ok b → a ≡ b
selected a b h = ground (arith, h)

module _ (size : ℕ) (some_bytes : 0 < size) (int64 : size < two63) where
  within :
      (r : SelectedBlobRange) (first count : ℕ) (to_end : Bool) (m : Selection)
      → m ≡ ok (spans first count to_end)
      → m ≡ ok r
      → first + count < size
      → (to_end ≡ true → suc (first + count) ≡ size)
      → IsWithin size r
  within r first count to_end m e h inside ends = record {
    first = first;
    count = count;
    to_end = to_end;
    same = selected r (spans first count to_end) (sym h ∙ e);
    inside = inside;
    ends = ends;
  }

  pub suffix_range-IsWithin :
      (n : ℤ) (r : SelectedBlobRange) → suffix_range n (pos size) ≡ ok r → IsWithin size r
  unfolding suffix_range
  suffix_range-IsWithin (negsuc n) r h = absurd (ground (arith, h))
  suffix_range-IsWithin (pos zero) r h = absurd (ground (arith, h))
  suffix_range-IsWithin (pos (suc n)) r h = elim (Bool-cases (ltb size (suc n))) [
    | inl e ↦
        within r 0 (size - 1) false (suffix_range (pos (suc n)) (pos size))
          (rw e at (suffix-spans size some_bytes int64 n)) h (omega arith) (λ t. absurd (cc))
    | inr e ↦
        let fits : suc n ≤ size = ground (arith, e) in
        within r (size - suc n) n false (suffix_range (pos (suc n)) (pos size))
          (rw e at (suffix-spans size some_bytes int64 n)) h (omega arith) (λ t. absurd (cc))
  ]

  open_range-IsWithin :
      (n : ℕ) (r : SelectedBlobRange)
      → n < size
      → open_range (pos n) (pos size) ≡ ok r
      → IsWithin size r
  open_range-IsWithin n r h e =
      within r n (size - 1 - n) true (open_range (pos n) (pos size))
        (open-spans size some_bytes int64 n h) e (omega arith) (λ _. omega arith)

  closed_range-IsWithin :
      (n : ℕ) (m : ℤ) (r : SelectedBlobRange)
      → n < size
      → closed_range (pos n) m (pos size) ≡ ok r
      → IsWithin size r
  unfolding closed_range
  closed_range-IsWithin n (negsuc m) r h e = absurd (ground (arith, e))
  closed_range-IsWithin n (pos m) r h e = elim (Bool-cases (ltb m n)) [
    | inl before ↦
        let test : ltb_ℤ (pos m) (pos n) ≡ true = ground (arith, before) in
        let natural : ltb_ℤ (pos m) (pos 0) ≡ false = ground arith in
        absurd (cc (rw (natural, test) at e))
    | inr after ↦
        let k : n ≤ m = ground (arith, after) in
        within r n ((if leb size m then size - 1 else m) - n) false
          (closed_range (pos n) (pos m) (pos size)) (closed-spans size some_bytes int64 n m h k) e
          (ground (arith, k, h)) (λ t. absurd (cc))
  ]

  from_start-IsWithin :
      (start : Option ℤ) (text : String) (r : SelectedBlobRange)
      → from_start start text (pos size) ≡ ok r
      → IsWithin size r
  unfolding from_start
  from_start-IsWithin none text r h = absurd (ground (arith, h))
  from_start-IsWithin (some (negsuc n)) text r h = absurd (ground (arith, h))
  from_start-IsWithin (some (pos n)) text r h = elim (Bool-cases (ltb n size)) [
    | inr e ↦
        let natural : ltb_ℤ (pos n) (pos 0) ≡ false = ground arith in
        let beyond : leb_ℤ (pos size) (pos n) ≡ true = ground (arith, e) in
        absurd (cc (rw (natural, beyond) at h))
    | inl e ↦
        let less : n < size = ground (arith, e) in
        let natural : ltb_ℤ (pos n) (pos 0) ≡ false = ground arith in
        let inside : leb_ℤ (pos size) (pos n) ≡ false = ground (arith, e) in
        by_text n less (rw (natural, inside) at h)
  ]
    where
      by_text :
          (n : ℕ)
          → n < size
          → (if is_empty text
              then open_range (pos n) (pos size)
              else elim (parse_int text) as (λ _. Selection) [
                | none ↦ err (other ∷ [])
                | some last ↦ closed_range (pos n) last (pos size)
              ])
            ≡ ok r
          → IsWithin size r
      by_text n less k = elim (Bool-cases (is_empty text)) [
        | inl e ↦ open_range-IsWithin n r less (rw e at k)
        | inr e ↦ elim (Option-cases (parse_int text)) [
          | inl f ↦ absurd (cc (rw (e, f) at k))
          | inr (m, f) ↦ closed_range-IsWithin n m r less (rw (e, f) at k)
        ]
      ]

pub select_spec-IsWithin :
    (spec : String) (size : ℕ) (r : SelectedBlobRange)
    → size < two63
    → select_spec spec (pos size) ≡ ok r
    → IsWithin size r
unfolding select_spec
select_spec-IsWithin spec size r int64 h =
    elim (Bool-cases (is_empty spec || contains b',' spec || eqb_ℤ (pos size) (pos 0))) [
      | inl e ↦ absurd (cc (rw e at h))
      | inr e ↦ let some_bytes : 0 < size = ground (arith, e) in by_prefix some_bytes (rw e at h)
    ]
  where
    by_prefix :
        0 < size
        → (elim (cut_prefix spec "-") as (λ _. Selection) [
          | some suffix ↦ elim (parse_int suffix) as (λ _. Selection) [
            | none ↦ err (other ∷ [])
            | some n ↦ suffix_range n (pos size)
          ]
          | none ↦ elim (cut b'-' spec) as (λ _. Selection) [
            | none ↦ err (other ∷ [])
            | some (start_text, end_text) ↦
                from_start (parse_int (trim_space start_text)) (trim_space end_text) (pos size)
          ]
        ])
          ≡ ok r
        → IsWithin size r
    by_prefix some_bytes k = elim (Option-cases (cut_prefix spec "-")) [
      | inr (suffix, e) ↦ elim (Option-cases (parse_int suffix)) [
        | inl f ↦ absurd (cc (rw (e, f) at k))
        | inr (n, f) ↦ suffix_range-IsWithin size some_bytes int64 n r (rw (e, f) at k)
      ]
      | inl e ↦ elim (Option-cases (cut b'-' spec)) [
        | inl f ↦ absurd (cc (rw (e, f) at k))
        | inr ((a, b), f) ↦
            from_start-IsWithin size some_bytes int64 (parse_int (trim_space a)) (trim_space b) r
              (rw (e, f) at k)
      ]
    ]

-- A range that the parser accepts for a blob whose size is an int64 is a run of at least one byte inside
-- the blob: its start, end and length agree, the store is asked for the same bytes, and a range that is
-- left open to the store ends with the blob.
pub parse_blob_range_header-IsWithin :
    (header : String) (size : ℕ) (r : SelectedBlobRange)
    → size < two63
    → parse_blob_range_header header (pos size) ≡ ok r
    → IsWithin size r
unfolding parse_blob_range_header
parse_blob_range_header-IsWithin header size r int64 h =
    elim (Option-cases (cut_prefix header "bytes=")) [
      | inl e ↦ absurd (cc (rw (e, parse_blob_range_header) at h))
      | inr (spec, e) ↦
          select_spec-IsWithin (trim_space spec) size r int64 (rw (e, parse_blob_range_header) at h)
    ]
