-- ===== src/BlobRange/Parse.antt =====
-- parseBlobRangeHeader of internal/httpapi/blob_handler.go, with what it uses of strings and strconv,
-- and ByteRange.Validate of internal/objectstore/objectstore.go.
use Prim.Native.Char.{code}
use Prim.Native.Nat.{◌-◌}
use imgsrv.Prelude.{
  cut_prefix, ℕ, zero, suc, ◌+◌, ◌*◌, String, Bool, true, false, ◌||◌, Option, none, some, [], ◌∷◌,
  ◌==◌, leb, if◌then◌else◌, trim_space, is_empty, ℤ, pos, negsuc, add64, sub64, ltb_ℤ, leb_ℤ, eqb_ℤ,
  two63, Result, ok, err, other, object_invalid,
}
use imgsrv.Catalog.{is_digit}

pub record ByteRange : Type 0 where
  pub start : ℤ
  pub end : ℤ
  pub open_ended : Bool

-- ByteRange.Validate.
unfoldable pub validate : ByteRange → Result (Unit {0})
validate b =
    if ltb_ℤ b.start (pos 0)
    then err (object_invalid ∷ [])
    else if b.open_ended
    then ok tt
    else if ltb_ℤ b.end b.start
    then err (object_invalid ∷ [])
    else ok tt

pub record SelectedBlobRange : Type 0 where
  pub start : ℤ
  pub end : ℤ
  pub length : ℤ
  pub opened : ByteRange

-- strings.Contains, for one character.
unfoldable pub contains : ℕ → String → Bool
contains n String.[] = false
contains n (String.◌∷◌ c s) = code c == n || contains n s

-- strings.Cut, at one character.
unfoldable pub cut : ℕ → String → Option (String × String)
cut n String.[] = none
cut n (String.◌∷◌ c s) =
    let rest = cut n s in
    if code c == n
    then some (String.[], s)
    else elim rest [ none ↦ none | some (a, b) ↦ some (String.◌∷◌ c a, b) ]

-- The digits of a number, after those read.
unfoldable pub read_digits : ℕ → String → Option ℕ
unfolding is_digit
read_digits n String.[] = some n
read_digits n (String.◌∷◌ c s) =
    let rest = read_digits (n * 10 + (code c - 48)) s in if is_digit (code c) then rest else none

unfoldable pub digits : String → Option ℕ
unfolding read_digits
digits s = if is_empty s then none else read_digits 0 s

abbrev pub negated : ℕ → ℤ
negated zero = pos 0
negated (suc n) = negsuc n

abbrev pub bounded : ℕ → (ℕ → ℤ) → Option ℕ → Option ℤ
bounded top sign none = none
bounded top sign (some n) = if leb n top then some (sign n) else none

-- strconv.ParseInt(s, 10, 64), with every error as `none`.
unfoldable pub parse_int : String → Option ℤ
unfolding digits
parse_int String.[] = none
parse_int (String.◌∷◌ c s) =
    if code c == b'-'
    then bounded two63 negated (digits s)
    else bounded (two63 - 1) pos (if code c == b'+' then digits s else digits (String.◌∷◌ c s))

-- Whether a range is asked for, and which: an error, or the range.
abbrev pub Selection : Type 0
Selection = Result SelectedBlobRange

abbrev pub refused : Selection
refused = err (other ∷ [])

-- `-n`: the last n bytes.
unfoldable pub suffix_range : ℤ → ℤ → Selection
suffix_range n size =
    if leb_ℤ n (pos 0)
    then refused
    else let length = if ltb_ℤ size n then size else n in
      let start = sub64 size length in
      let end = sub64 size (pos 1) in
      ok (record {
        start = start;
        end = end;
        length = length;
        opened = record { start = start; end = end; open_ended = false };
      })

-- `start-`.
unfoldable pub open_range : ℤ → ℤ → Selection
open_range start size =
    let end = sub64 size (pos 1) in
    ok (record {
      start = start;
      end = end;
      length = add64 (sub64 end start) (pos 1);
      opened = record { start = start; end = pos 0; open_ended = true };
    })

-- `start-end`.
unfoldable pub closed_range : ℤ → ℤ → ℤ → Selection
closed_range start last size =
    if ltb_ℤ last (pos 0) || ltb_ℤ last start
    then refused
    else let end = if leb_ℤ size last then sub64 size (pos 1) else last in
      ok (record {
        start = start;
        end = end;
        length = add64 (sub64 end start) (pos 1);
        opened = record { start = start; end = end; open_ended = false };
      })

unfoldable pub from_start : Option ℤ → String → ℤ → Selection
unfolding parse_int open_range closed_range
from_start none text size = refused
from_start (some start) text size =
    if ltb_ℤ start (pos 0) || leb_ℤ size start
    then refused
    else if is_empty text
    then open_range start size
    else elim (parse_int text) [ none ↦ refused | some last ↦ closed_range start last size ]

-- A range after its unit.
unfoldable pub select_spec : String → ℤ → Selection
unfolding contains cut_prefix cut parse_int suffix_range trim_space from_start
select_spec spec size =
    if is_empty spec || contains b',' spec || eqb_ℤ size (pos 0)
    then refused
    else elim (cut_prefix spec "-") [
      | some suffix ↦ elim (parse_int suffix) [ none ↦ refused | some n ↦ suffix_range n size ]
      | none ↦ elim (cut b'-' spec) [
        | none ↦ refused
        | some (start_text, end_text) ↦
            from_start (parse_int (trim_space start_text)) (trim_space end_text) size
      ]
    ]

-- parseBlobRangeHeader: the Boolean of the source is true exactly with the result `ok`.
unfoldable pub parse_blob_range_header : String → ℤ → Selection
unfolding cut_prefix select_spec trim_space
parse_blob_range_header header size = elim (cut_prefix header "bytes=") [
  | none ↦ refused
  | some spec ↦ select_spec (trim_space spec) size
]
