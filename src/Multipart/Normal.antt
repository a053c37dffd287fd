-- ===== src/Multipart/Normal.antt =====
-- What NormalizeCompleteParts of internal/objectstore/objectstore.go returns.
use mathlib.Core.List.{Perm}
use mathlib.Core.List.Perm
use imgsrv.Prelude.{
  Bool, true, false, ◌&&◌, ◌||◌, not, List, [], ◌∷◌, ◌≡◌, refl, sym, subst, inl, inr, Bool-cases, ℤ,
  pos, negsuc, sub64, ltb_ℤ, eqb_ℤ, is_blank, All, ok, arith, ◌<ℤ◌, ◌≤ℤ◌, ◌∙◌,
}
use imgsrv.Multipart.Parts.{
  CompletePart, multipart_min_part_size_bytes, multipart_max_part_size_bytes,
  multipart_max_part_number, is_part_number, is_part_size, precedes, insert, sort, is_last, repeats,
  is_accepted, all_accepted, normalize_complete_parts,
}

insert-Perm : (p : CompletePart) (ps : List CompletePart) → Perm (insert p ps) (p ∷ ps)
unfolding insert
insert-Perm p [] = Perm.refl (p ∷ [])
insert-Perm p (q ∷ qs) = elim (Bool-cases (precedes q p)) [
  | inl e ↦ rw e (Perm.trans (Perm.cons q (insert-Perm p qs)) (Perm.swap p q qs))
  | inr e ↦ rw e (Perm.refl (p ∷ q ∷ qs))
]

sort-Perm : (ps : List CompletePart) → Perm (sort ps) ps
unfolding sort
sort-Perm [] = Perm.refl []
sort-Perm (p ∷ ps) = Perm.trans (insert-Perm p (sort ps)) (Perm.cons p (sort-Perm ps))

-- The numbers and sizes that S3 admits.
abbrev pub IsPart : CompletePart → Type 0
IsPart p =
    (pos 1 ≤ℤ p.number)
    × (p.number ≤ℤ pos multipart_max_part_number)
    × (is_blank p.etag ≡ false)
    × (pos 0 ≤ℤ p.size_bytes)
    × (p.size_bytes ≤ℤ pos multipart_max_part_size_bytes)

-- The next part, if there is one, has a greater number, and this one is not too small to stand before.
abbrev pub IsBefore : CompletePart → List CompletePart → Type 0
IsBefore p [] = Unit
IsBefore p (q ∷ _) = (p.number <ℤ q.number) × (pos multipart_min_part_size_bytes ≤ℤ p.size_bytes)

abbrev pub IsNormal : List CompletePart → Type 0
IsNormal [] = Unit
IsNormal (p ∷ ps) = IsPart p × IsBefore p ps × IsNormal ps

abbrev IsNumbered : CompletePart → Type 0
IsNumbered p = (pos 1 ≤ℤ p.number) × (p.number ≤ℤ pos multipart_max_part_number)

-- On numbers in their bounds the subtraction is exact.
pub precedes-lt :
    (p q : CompletePart) → IsNumbered p → IsNumbered q → precedes p q ≡ ltb_ℤ p.number q.number
precedes-lt p q h k = exact p.number q.number h k
  where
    exact :
        (a b : ℤ)
        → (pos 1 ≤ℤ a) × (a ≤ℤ pos multipart_max_part_number)
        → (pos 1 ≤ℤ b) × (b ≤ℤ pos multipart_max_part_number)
        → ltb_ℤ (sub64 a b) (pos 0) ≡ ltb_ℤ a b
    exact (pos a) (pos b) h k = ground (arith, h, k)
    exact (pos a) (negsuc b) h k = absurd (omega (arith, k))
    exact (negsuc a) b h k = absurd (omega (arith, h))

abbrev IsUpTo : CompletePart → List CompletePart → Type 0
IsUpTo p [] = Unit
IsUpTo p (q ∷ _) = p.number ≤ℤ q.number

abbrev IsAscending : List CompletePart → Type 0
IsAscending [] = Unit
IsAscending (p ∷ ps) = IsUpTo p ps × IsAscending ps

IsUpTo-insert :
    (q p : CompletePart) (ps : List CompletePart)
    → q.number ≤ℤ p.number
    → IsUpTo q ps
    → IsUpTo q (insert p ps)
unfolding insert
IsUpTo-insert q p [] h u = h
IsUpTo-insert q p (r ∷ rs) h u = elim (Bool-cases (precedes r p)) [
  | inl e ↦ rw e u
  | inr e ↦ rw e h
]

lt-le : (a b : ℤ) → ltb_ℤ a b ≡ true → a ≤ℤ b
lt-le a b h = ground (arith, h)

not_lt-le : (a b : ℤ) → ltb_ℤ a b ≡ false → b ≤ℤ a
not_lt-le a b h = ground (arith, h)

insert-IsAscending :
    (p : CompletePart) (ps : List CompletePart)
    → IsNumbered p
    → All IsNumbered ps
    → IsAscending ps
    → IsAscending (insert p ps)
unfolding insert
insert-IsAscending p [] h k a = (tt, tt)
insert-IsAscending p (q ∷ qs) h k a = elim (Bool-cases (precedes q p)) [
  | inl e ↦
      let less = lt-le q.number p.number (sym (precedes-lt q p k.0 h) ∙ e) in
      rw e (IsUpTo-insert q p qs less a.0, insert-IsAscending p qs h k.1 a.1)
  | inr e ↦ let up = not_lt-le q.number p.number (sym (precedes-lt q p k.0 h) ∙ e) in rw e (up, a)
]

All-insert :
    (p : CompletePart) (ps : List CompletePart)
    → All IsNumbered (insert p ps)
    → IsNumbered p × All IsNumbered ps
unfolding insert
All-insert p [] h = (h.0, tt)
All-insert p (q ∷ qs) h = elim (Bool-cases (precedes q p)) [
  | inl e ↦ let k = rw e at h in let (hp, hqs) = All-insert p qs k.1 in (hp, (k.0, hqs))
  | inr e ↦ let k = rw e at h in (k.0, k.1)
]

sort-IsAscending : (ps : List CompletePart) → All IsNumbered (sort ps) → IsAscending (sort ps)
unfolding sort
sort-IsAscending [] h = tt
sort-IsAscending (p ∷ ps) h =
    let (hp, hps) = All-insert p (sort ps) h in
    insert-IsAscending p (sort ps) hp hps (sort-IsAscending ps hps)

-- What the loop has checked of one part.
and_parts : (a b : Bool) → (a && b) ≡ true → (a ≡ true) × (b ≡ true)
and_parts true b h = (refl, h)
and_parts false b h = absurd (cc)

all_five :
    (a b c d e : Bool)
    → (a && b && c && d && e) ≡ true
    → (a ≡ true) × (b ≡ true) × (c ≡ true) × (d ≡ true) × (e ≡ true)
all_five true true true true true h = (refl, refl, refl, refl, refl)
all_five false b c d e h = absurd (ground (arith, h))
all_five true false c d e h = absurd (ground (arith, h))
all_five true true false d e h = absurd (ground (arith, h))
all_five true true true false e h = absurd (ground (arith, h))
all_five true true true true false h = absurd (ground (arith, h))

number-bounds :
    (n : ℤ) → is_part_number n ≡ true → (pos 1 ≤ℤ n) × (n ≤ℤ pos multipart_max_part_number)
unfolding is_part_number
number-bounds n h = (ground (arith, h), ground (arith, h))

size-bounds :
    (n : ℤ) → is_part_size n ≡ true → (pos 0 ≤ℤ n) × (n ≤ℤ pos multipart_max_part_size_bytes)
unfolding is_part_size
size-bounds n h = (ground (arith, h), ground (arith, h))

is_accepted-parts :
    (before : List CompletePart) (p : CompletePart) (after : List CompletePart)
    → is_accepted before p after ≡ true
    → IsPart p
      × ((is_last after || not (ltb_ℤ p.size_bytes (pos multipart_min_part_size_bytes))) ≡ true)
      × (repeats before p ≡ false)
unfolding is_accepted
is_accepted-parts before p after h =
    let (number, etag, size, large, once) =
      all_five (is_part_number p.number) (not (is_blank p.etag)) (is_part_size p.size_bytes)
        (is_last after || not (ltb_ℤ p.size_bytes (pos multipart_min_part_size_bytes)))
        (not (repeats before p)) h in
    let n = number-bounds p.number number in
    let s = size-bounds p.size_bytes size in
    ((n.0, n.1, ground (arith, etag), s.0, s.1), large, ground (arith, once))

all_accepted-IsNumbered :
    (before ps : List CompletePart) → all_accepted before ps ≡ true → All IsNumbered ps
unfolding all_accepted
all_accepted-IsNumbered before [] h = tt
all_accepted-IsNumbered before (p ∷ ps) h =
    let (here, rest) = and_parts (is_accepted before p ps) _ h in
    let r = is_accepted-parts before p ps here in
    ((r.0.0, r.0.1), all_accepted-IsNumbered (p ∷ []) ps rest)

strictly : (a b : ℤ) → a ≤ℤ b → eqb_ℤ a b ≡ false → a <ℤ b
strictly a b h n = ground (arith, h, n)

large_enough :
    (n : ℤ)
    → (false || not (ltb_ℤ n (pos multipart_min_part_size_bytes))) ≡ true
    → pos multipart_min_part_size_bytes ≤ℤ n
large_enough n h = ground (arith, h)

all_accepted-IsNormal :
    (before ps : List CompletePart) → all_accepted before ps ≡ true → IsAscending ps → IsNormal ps
unfolding all_accepted
all_accepted-IsNormal before [] h a = tt
all_accepted-IsNormal before (p ∷ []) h a =
    let r = is_accepted-parts before p [] (and_parts (is_accepted before p []) _ h).0 in
    (r.0, tt, tt)
all_accepted-IsNormal before (p ∷ q ∷ qs) h a =
    let (here, rest) = and_parts (is_accepted before p (q ∷ qs)) _ h in
    let (there, _) = and_parts (is_accepted (p ∷ []) q qs) _ rest in
    let r = is_accepted-parts before p (q ∷ qs) here in
    let once = (is_accepted-parts (p ∷ []) q qs there).2 in
    (
      r.0,
      (strictly p.number q.number a.0 once, large_enough p.size_bytes r.1),
      all_accepted-IsNormal (p ∷ []) (q ∷ qs) rest a.1,
    )

-- Parts that are accepted come back as a permutation, in strictly ascending order of their numbers,
-- each with a number, an entity tag and a size in bounds, and none but the last smaller than the
-- least size of a part.
pub normalize_complete_parts-IsNormal :
    (parts r : List CompletePart)
    → normalize_complete_parts parts ≡ ok r
    → Perm r parts × IsNormal r
unfolding normalize_complete_parts
normalize_complete_parts-IsNormal parts r h = elim (Bool-cases (is_last parts)) [
  | inl e ↦ absurd (cc (rw e at h))
  | inr e ↦ elim (Bool-cases (all_accepted [] (sort parts))) [
    | inr f ↦ absurd (cc (rw (e, f) at h))
    | inl f ↦
        let same = normal (sort parts) r (rw (e, f) at h) in
        (
          subst (λ x. Perm x parts) same (sort-Perm parts),
          subst IsNormal same (
              all_accepted-IsNormal [] (sort parts) f
                (sort-IsAscending parts (all_accepted-IsNumbered [] (sort parts) f))),
        )
  ]
]
  where
    normal : (a b : List CompletePart) → ok a ≡ ok b → a ≡ b
    normal a b e = ground (arith, e)
