-- ===== src/Multipart/Tests.antt =====
-- Parts of an upload, out of order.
use mathlib.Core.List.{Perm}
use imgsrv.Prelude.{ℕ, [], ◌∷◌, ◌≡◌, refl, ok, pos, is_blank, arith}
use imgsrv.Multipart.Parts.{CompletePart, normalize_complete_parts}
use imgsrv.Multipart.Normal.{IsNormal, normalize_complete_parts-IsNormal}
use imgsrv.Multipart.Complete.{normalize_complete_parts-normal}

abbrev part : ℕ → ℕ → CompletePart
part n size = record { number = pos n; etag = "e"; size_bytes = pos size }

normalize_complete_parts-IsNormal_example :
    Perm (part 1 6000000 ∷ part 2 7 ∷ []) (part 2 7 ∷ part 1 6000000 ∷ [])
    × IsNormal (part 1 6000000 ∷ part 2 7 ∷ [])
unfolding normalize_complete_parts is_blank
normalize_complete_parts-IsNormal_example =
    normalize_complete_parts-IsNormal (part 2 7 ∷ part 1 6000000 ∷ [])
      (part 1 6000000 ∷ part 2 7 ∷ []) refl

normalize_complete_parts-normal_example :
    normalize_complete_parts (part 1 6000000 ∷ part 2 7 ∷ []) ≡ ok (part 1 6000000 ∷ part 2 7 ∷ [])
unfolding is_blank
normalize_complete_parts-normal_example =
    normalize_complete_parts-normal (part 1 6000000) (part 2 7 ∷ []) (
      (omega arith, omega arith, refl, omega arith, omega arith),
      (omega arith, omega arith),
      ((omega arith, omega arith, refl, omega arith, omega arith), tt, tt),
    )
