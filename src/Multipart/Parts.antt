-- ===== src/Multipart/Parts.antt =====
-- NormalizeCompleteParts of internal/objectstore/objectstore.go, and the validators of parts. A part's
-- number and size are int64; the comparison of two numbers subtracts them, as the source does. Where
-- two parts have one number the order of the sort is not said, and the parts are refused.
use imgsrv.Prelude.{
  ℕ, String, Bool, true, false, ◌&&◌, ◌||◌, not, List, [], ◌∷◌, if◌then◌else◌, ℤ, pos, sub64, ltb_ℤ,
  eqb_ℤ, is_blank, Result, ok, err, object_invalid,
}

pub record CompletePart : Type 0 where
  pub number : ℤ
  pub etag : String
  pub size_bytes : ℤ

abbrev pub multipart_min_part_size_bytes : ℕ
multipart_min_part_size_bytes = 5242880

abbrev pub multipart_max_part_size_bytes : ℕ
multipart_max_part_size_bytes = 5368709120

abbrev pub multipart_max_part_number : ℕ
multipart_max_part_number = 10000

-- The tests of ValidatePartNumber and ValidateMultipartPartSize; every failure is ErrInvalid.
unfoldable pub is_part_number : ℤ → Bool
is_part_number n = not (ltb_ℤ n (pos 1) || ltb_ℤ (pos multipart_max_part_number) n)

unfoldable pub is_part_size : ℤ → Bool
is_part_size n = not (ltb_ℤ n (pos 0)) && not (ltb_ℤ (pos multipart_max_part_size_bytes) n)

-- `left.Number - right.Number < 0`.
abbrev pub precedes : CompletePart → CompletePart → Bool
precedes p q = ltb_ℤ (sub64 p.number q.number) (pos 0)

-- slices.SortFunc.
unfoldable pub insert : CompletePart → List CompletePart → List CompletePart
insert p [] = p ∷ []
insert p (q ∷ qs) = let rest = insert p qs in if precedes q p then q ∷ rest else p ∷ q ∷ qs

unfoldable pub sort : List CompletePart → List CompletePart
unfolding insert
sort [] = []
sort (p ∷ ps) = insert p (sort ps)

abbrev pub is_last : List CompletePart → Bool
is_last [] = true
is_last (_ ∷ _) = false

-- Whether the part before, if there is one, has the same number.
abbrev pub repeats : List CompletePart → CompletePart → Bool
repeats [] p = false
repeats (q ∷ _) p = eqb_ℤ q.number p.number

-- The checks of one part, with the part before and the parts after.
unfoldable pub is_accepted : List CompletePart → CompletePart → List CompletePart → Bool
unfolding is_part_number is_part_size is_blank
is_accepted before p after =
    is_part_number p.number
    && not (is_blank p.etag)
    && is_part_size p.size_bytes
    && (is_last after || not (ltb_ℤ p.size_bytes (pos multipart_min_part_size_bytes)))
    && not (repeats before p)

-- The loop over the sorted parts.
unfoldable pub all_accepted : List CompletePart → List CompletePart → Bool
unfolding is_accepted
all_accepted before [] = true
all_accepted before (p ∷ ps) = is_accepted before p ps && all_accepted (p ∷ []) ps

unfoldable pub normalize_complete_parts : List CompletePart → Result (List CompletePart)
unfolding sort all_accepted
normalize_complete_parts parts =
    if is_last parts
    then err (object_invalid ∷ [])
    else if all_accepted [] (sort parts)
    then ok (sort parts)
    else err (object_invalid ∷ [])
