-- ===== src/Prelude/Text.antt =====
-- Go's strings as texts: what the code uses of package strings.
use Prim.Native.Nat.{ℕ, zero, suc, ◌+◌}
use mathlib.Core.Option.{Option, none, some}
use Prim.Native.Char.{code}
use Prim.Native.String.{String}
use mathlib.Core.Bool.{Bool, true, false, ◌&&◌, ◌||◌}
use mathlib.Core.Path.{◌≡◌, refl, sym, subst, ◌∙◌}
use mathlib.Core.Logic.{inl, inr}
use native.Mathlib.Omega.{arith}
use imgsrv.Prelude.Tests.{leb, ◌==◌, if◌then◌else◌, Bool-cases}

-- unicode.IsSpace.
unfoldable pub is_space : ℕ → Bool
is_space c =
    (leb 9 c && leb c 13)
    || c == 32
    || c == 133
    || c == 160
    || c == 5760
    || (leb 8192 c && leb c 8202)
    || c == 8232
    || c == 8233
    || c == 8239
    || c == 8287
    || c == 12288

abbrev pub is_empty : String → Bool
is_empty String.[] = true
is_empty (String.◌∷◌ _ _) = false

unfoldable pub trim_left : String → String
trim_left String.[] = String.[]
trim_left (String.◌∷◌ c s) = if is_space (code c) then trim_left s else String.◌∷◌ c s

unfoldable pub trim_right : String → String
trim_right String.[] = String.[]
trim_right (String.◌∷◌ c s) =
    let rest = trim_right s in
    if is_space (code c) && is_empty rest then String.[] else String.◌∷◌ c rest

-- The first `n` characters, and those behind them: `s[:n]` and `s[n:]` of a text of one-byte
-- characters.
unfoldable pub take_text : ℕ → String → String
take_text zero s = String.[]
take_text (suc n) String.[] = String.[]
take_text (suc n) (String.◌∷◌ c s) = String.◌∷◌ c (take_text n s)

unfoldable pub drop_text : ℕ → String → String
drop_text zero s = s
drop_text (suc n) String.[] = String.[]
drop_text (suc n) (String.◌∷◌ c s) = drop_text n s

-- strings.CutPrefix, of the text and the prefix.
unfoldable pub cut_prefix : String → String → Option String
cut_prefix s String.[] = some s
cut_prefix String.[] (String.◌∷◌ d p) = none
cut_prefix (String.◌∷◌ c s) (String.◌∷◌ d p) = if code c == code d then cut_prefix s p else none

abbrev pub text_length : String → ℕ
text_length String.[] = zero
text_length (String.◌∷◌ c s) = suc (text_length s)

-- What is behind a prefix is the text without as many characters.
pub cut_prefix-drop_text :
    (s p : String) {r : String} → cut_prefix s p ≡ some r → drop_text (text_length p) s ≡ r
unfolding cut_prefix drop_text
cut_prefix-drop_text s String.[] h = ground (arith, h)
cut_prefix-drop_text String.[] (String.◌∷◌ d p) h = absurd (cc)
cut_prefix-drop_text (String.◌∷◌ c s) (String.◌∷◌ d p) h = elim (Bool-cases (code c == code d)) [
  | inl e ↦ cut_prefix-drop_text s p (rw e at h)
  | inr e ↦ absurd (cc (rw e at h))
]

drop_text-empty : (n : ℕ) → drop_text n String.[] ≡ String.[]
unfolding drop_text
drop_text-empty zero = refl
drop_text-empty (suc n) = refl

pub drop_text-add : (n m : ℕ) (s : String) → drop_text n (drop_text m s) ≡ drop_text (m + n) s
unfolding drop_text
drop_text-add n zero s = subst (λ k. drop_text n s ≡ drop_text k s) (omega arith) refl
drop_text-add n (suc m) String.[] = drop_text-empty n ∙ sym (drop_text-empty (suc m + n))
drop_text-add n (suc m) (String.◌∷◌ c s) =
    let sum : suc (m + n) ≡ suc m + n = omega arith in
    subst (λ k. drop_text n (drop_text m s) ≡ drop_text k (String.◌∷◌ c s)) sum
      (drop_text-add n m s)

-- `^[class]{n}$`.
unfoldable pub exactly : (ℕ → Bool) → ℕ → String → Bool
exactly class zero s = is_empty s
exactly class (suc n) String.[] = false
exactly class (suc n) (String.◌∷◌ c s) = class (code c) && exactly class n s

-- strings.TrimSpace.
unfoldable pub trim_space : String → String
unfolding trim_left trim_right is_space
trim_space s = trim_right (trim_left s)

-- `strings.TrimSpace(s) == ""`.
unfoldable pub is_blank : String → Bool
unfolding trim_space
is_blank s = is_empty (trim_space s)

trims : trim_space "  a b \n" ≡ "a b"
unfolding trim_space
trims = refl
