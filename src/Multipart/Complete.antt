-- ===== src/Multipart/Complete.antt =====
-- NormalizeCompleteParts of internal/objectstore/objectstore.go accepts what is normal.
use imgsrv.Prelude.{
  true, false, ◌||◌, not, List, [], ◌∷◌, ◌≡◌, refl, sym, ◌∙◌, ap, ℤ, pos, ltb_ℤ, eqb_ℤ, ok, arith,
  ◌<ℤ◌, ◌≤ℤ◌,
}
use imgsrv.Multipart.Parts.{
  CompletePart, multipart_min_part_size_bytes, multipart_max_part_size_bytes,
  multipart_max_part_number, is_part_number, is_part_size, insert, sort, is_last, repeats,
  is_accepted, all_accepted, normalize_complete_parts,
}
use imgsrv.Multipart.Normal.{IsPart, IsBefore, IsNormal, precedes-lt}

not_after : (a b : ℤ) → a <ℤ b → ltb_ℤ b a ≡ false
not_after a b h = ground (arith, h)

apart : (a b : ℤ) → a <ℤ b → eqb_ℤ a b ≡ false
apart a b h = ground (arith, h)

insert-first :
    (p : CompletePart) (ps : List CompletePart)
    → IsPart p
    → IsBefore p ps
    → IsNormal ps
    → insert p ps ≡ p ∷ ps
unfolding insert
insert-first p [] h b n = refl
insert-first p (q ∷ qs) h b n =
    let later = precedes-lt q p (n.0.0, n.0.1) (h.0, h.1) ∙ not_after p.number q.number b.0 in
    rw later refl

sort-normal : (ps : List CompletePart) → IsNormal ps → sort ps ≡ ps
unfolding sort
sort-normal [] n = refl
sort-normal (p ∷ ps) n = ap (insert p) (sort-normal ps n.2) ∙ insert-first p ps n.0 n.1 n.2

is_part_number-bounds :
    (n : ℤ) → pos 1 ≤ℤ n → n ≤ℤ pos multipart_max_part_number → is_part_number n ≡ true
unfolding is_part_number
is_part_number-bounds n h k = ground (arith, h, k)

is_part_size-bounds :
    (n : ℤ) → pos 0 ≤ℤ n → n ≤ℤ pos multipart_max_part_size_bytes → is_part_size n ≡ true
unfolding is_part_size
is_part_size-bounds n h k = ground (arith, h, k)

large :
    (p : CompletePart) (ps : List CompletePart)
    → IsBefore p ps
    → (is_last ps || not (ltb_ℤ p.size_bytes (pos multipart_min_part_size_bytes))) ≡ true
large p [] b = refl
large p (q ∷ qs) b = enough p.size_bytes b.1
  where
    enough :
        (n : ℤ)
        → pos multipart_min_part_size_bytes ≤ℤ n
        → (false || not (ltb_ℤ n (pos multipart_min_part_size_bytes))) ≡ true
    enough n h = ground (arith, h)

all_accepted-normal :
    (before ps : List CompletePart)
    → IsNormal ps
    → ((p : CompletePart) (rest : List CompletePart) → ps ≡ p ∷ rest → repeats before p ≡ false)
    → all_accepted before ps ≡ true
unfolding all_accepted is_accepted
all_accepted-normal before [] n h = refl
all_accepted-normal before (p ∷ ps) n h =
    let (from, to, etag, least, most) = n.0 in
    rw
      (
        is_part_number-bounds p.number from to,
        etag,
        is_part_size-bounds p.size_bytes least most,
        large p ps n.1,
        h p ps refl,
      )
      (all_accepted-normal (p ∷ []) ps n.2 (next ps n.1))
  where
    next :
        (qs : List CompletePart)
        → IsBefore p qs
        → (q : CompletePart) (rest : List CompletePart) → qs ≡ q ∷ rest
        → repeats (p ∷ []) q ≡ false
    next [] b q rest e = absurd (cc (e))
    next (r ∷ rs) b q rest e =
        let same : r ≡ q = ground (arith, e) in
        ap (λ (x : CompletePart). eqb_ℤ p.number x.number) (sym same) ∙ apart p.number r.number b.0

-- Parts that are already in strictly ascending order, each in bounds and none but the last too small,
-- are accepted as they are, if there is one.
pub normalize_complete_parts-normal :
    (p : CompletePart) (ps : List CompletePart)
    → IsNormal (p ∷ ps)
    → normalize_complete_parts (p ∷ ps) ≡ ok (p ∷ ps)
unfolding normalize_complete_parts
normalize_complete_parts-normal p ps n =
    rw (sort-normal (p ∷ ps) n, all_accepted-normal [] (p ∷ ps) n (λ _ _ _. refl)) refl
