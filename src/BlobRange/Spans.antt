-- ===== src/BlobRange/Spans.antt =====
-- The runs of bytes that internal/httpapi/blob_handler.go computes, in natural numbers.
use imgsrv.Prelude.{
  ℕ, suc, ◌+◌, ◌-◌, ◌<◌, ◌≤◌, Bool, true, false, ◌≡◌, refl, inl, inr, Bool-cases, if◌then◌else◌,
  ltb, leb, ltb_ℤ, leb_ℤ, pos, add64, sub64, two63, ok, arith,
}
use imgsrv.BlobRange.Parse.{SelectedBlobRange, suffix_range, open_range, closed_range}

-- `count + 1` bytes from `first` on, as the handler and as the store read them.
abbrev pub spans : ℕ → ℕ → Bool → SelectedBlobRange
spans first count to_end = record {
  start = pos first;
  end = pos (first + count);
  length = pos (suc count);
  opened = record {
    start = pos first;
    end = if to_end then pos 0 else pos (first + count);
    open_ended = to_end;
  };
}

sub64-pos : (a b : ℕ) → b ≤ a → a < two63 → sub64 (pos a) (pos b) ≡ pos (a - b)
sub64-pos a b h k = ground arith

add64-pos : (a b : ℕ) → a + b < two63 → add64 (pos a) (pos b) ≡ pos (a + b)
add64-pos a b h = ground arith

module _ (size : ℕ) (some_bytes : 0 < size) (int64 : size < two63) where
  last_byte : sub64 (pos size) (pos 1) ≡ pos (size - 1)
  last_byte = sub64-pos size 1 some_bytes int64

  -- The length that open and closed ranges compute.
  length-pos :
      (first last : ℕ)
      → first ≤ last
      → last < size
      → add64 (sub64 (pos last) (pos first)) (pos 1) ≡ pos (suc (last - first))
  length-pos first last h k =
      let one_more : last - first + 1 ≡ suc (last - first) = omega arith in
      rw (sub64-pos last first h (omega arith), add64-pos (last - first) 1 (omega arith), one_more)
        refl

  -- A suffix longer than the blob is all of it.
  pub suffix-spans :
      (n : ℕ)
      → suffix_range (pos (suc n)) (pos size)
        ≡ ok (if ltb size (suc n) then spans 0 (size - 1) false else spans (size - suc n) n false)
  unfolding suffix_range
  suffix-spans n =
      let positive : leb_ℤ (pos (suc n)) (pos 0) ≡ false = ground arith in
      elim (Bool-cases (ltb size (suc n))) [
        | inl e ↦
            let longer : ltb_ℤ (pos size) (pos (suc n)) ≡ true = ground arith in
            let none_left : size - size ≡ 0 = omega arith in
            let all : suc (size - 1) ≡ size = omega arith in
            let last : 0 + (size - 1) ≡ size - 1 = omega arith in
            rw
              (
                e,
                positive,
                longer,
                sub64-pos size size (omega arith) int64,
                last_byte,
                none_left,
                all,
                last,
              )
              refl
        | inr e ↦
            let fits : suc n ≤ size = ground (arith, e) in
            let shorter : ltb_ℤ (pos size) (pos (suc n)) ≡ false = ground arith in
            let last : size - suc n + n ≡ size - 1 = omega arith in
            rw (e, positive, shorter, sub64-pos size (suc n) fits int64, last_byte, last) refl
      ]

  pub open-spans :
      (n : ℕ) → n < size → open_range (pos n) (pos size) ≡ ok (spans n (size - 1 - n) true)
  unfolding open_range
  open-spans n h =
      let last : n + (size - 1 - n) ≡ size - 1 = omega arith in
      rw (last_byte, length-pos n (size - 1) (omega arith) (omega arith), last) refl

  -- An end beyond the blob is its last byte.
  pub closed-spans :
      (n m : ℕ)
      → n < size
      → n ≤ m
      → closed_range (pos n) (pos m) (pos size)
        ≡ ok (spans n ((if leb size m then size - 1 else m) - n) false)
  unfolding closed_range
  closed-spans n m h k =
      let natural : ltb_ℤ (pos m) (pos 0) ≡ false = ground arith in
      let ordered : ltb_ℤ (pos m) (pos n) ≡ false = ground arith in
      elim (Bool-cases (leb size m)) [
        | inl e ↦
            let beyond : leb_ℤ (pos size) (pos m) ≡ true = ground (arith, e) in
            let last : n + (size - 1 - n) ≡ size - 1 = omega arith in
            rw
              (
                natural,
                ordered,
                e,
                beyond,
                last_byte,
                length-pos n (size - 1) (omega arith) (omega arith),
                last,
              )
              refl
        | inr e ↦
            let less : m < size = ground (arith, e) in
            let inside : leb_ℤ (pos size) (pos m) ≡ false = ground (arith, e) in
            let last : n + (m - n) ≡ m = omega arith in
            rw (natural, ordered, e, inside, length-pos n m k less, last) refl
      ]
