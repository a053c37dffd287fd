-- ===== src/Catalog.antt =====
-- The parts of internal/catalog that the publish workflow uses: the name patterns.
use Prim.Native.Char.{code}
use imgsrv.Prelude.{
  ℕ, String, Bool, true, false, ◌&&◌, ◌||◌, leb, ◌==◌, zero, suc, Result, ok, err, catalog_invalid,
  [], ◌∷◌,
}

unfoldable pub is_digit : ℕ → Bool
is_digit c = leb b'0' c && leb c b'9'

unfoldable pub is_lower : ℕ → Bool
is_lower c = leb b'a' c && leb c b'z'

unfoldable pub is_upper : ℕ → Bool
is_upper c = leb b'A' c && leb c b'Z'

abbrev pub is_alnum : ℕ → Bool
unfolding is_digit is_lower is_upper
is_alnum c = is_lower c || is_upper c || is_digit c

-- At most `n` characters, each of the class.
unfoldable pub at_most : (ℕ → Bool) → ℕ → String → Bool
at_most class n String.[] = true
at_most class zero (String.◌∷◌ c s) = false
at_most class (suc n) (String.◌∷◌ c s) = class (code c) && at_most class n s

-- `^[head][tail]{0,n}$`.
unfoldable pub matches : (ℕ → Bool) → (ℕ → Bool) → ℕ → String → Bool
unfolding at_most
matches head tail n String.[] = false
matches head tail n (String.◌∷◌ c s) = head (code c) && at_most tail n s

unfoldable pub matches_image_name : String → Bool
unfolding matches is_digit is_lower
matches_image_name =
    matches (λ c. is_lower c || is_digit c)
      (λ c. is_lower c || is_digit c || c == b'.' || c == b'_' || c == b'-') 127

unfoldable pub matches_version : String → Bool
unfolding matches is_alnum
matches_version =
    matches is_alnum
      (λ c. is_alnum c || c == b'.' || c == b'_' || c == b'+' || c == b':' || c == b'-') 127

abbrev invalid_unless : Bool → Result (Unit {0})
invalid_unless true = ok tt
invalid_unless false = err (catalog_invalid ∷ [])

unfoldable pub validate_image_name : String → Result (Unit {0})
unfolding matches_image_name
validate_image_name name = invalid_unless (matches_image_name name)

unfoldable pub validate_version : String → Result (Unit {0})
unfolding matches_version
validate_version version = invalid_unless (matches_version version)
