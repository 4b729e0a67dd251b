-- ===== src/Prelude/Spaces.antt =====
-- What Go counts as spaces, in texts of UTF-8 bytes, and the words between them: unicode.IsSpace,
-- which fmt uses the same set as, and strings.Fields.
use Prim.Native.Nat.{ℕ, zero, suc}
use mathlib.Core.Path.{◌≡◌, refl, ap, ◌∙◌}
use mathlib.Core.Bool.{Bool, false, ◌&&◌, ◌||◌, not}
use mathlib.Core.List.{List, [], ◌∷◌, ◌++◌}
use native.Mathlib.Omega.{arith}
use adaptiveservice.Prelude.Tests.{leb, ◌==◌, if◌then◌else◌}
use adaptiveservice.Prelude.Lists.{keep}
use adaptiveservice.Prelude.Texts.{Text, text_eq, has_byte}

-- A space of one byte, of two (U+0085, U+00A0) and of three (U+1680, U+2000 to U+200A, U+2028,
-- U+2029, U+202F, U+205F, U+3000)
unfoldable pub is_space : ℕ → Bool
is_space c = c == b' ' || c == b'\t' || c == b'\n' || c == 11 || c == 12 || c == b'\r'

abbrev pub is_space_of_two : ℕ → ℕ → Bool
is_space_of_two a b = (b == 133 || b == 160) && a == 194

abbrev pub is_space_of_three : ℕ → ℕ → ℕ → Bool
is_space_of_three a b c =
    (b == 154 && c == 128 && a == 225)
    || (b == 128 && a == 226 && (leb 128 c && leb c 138 || c == 168 || c == 169 || c == 175))
    || (b == 129 && c == 159 && a == 226)
    || (b == 128 && c == 128 && a == 227)

-- How many bytes the space has that a text begins with, or 0 if it begins with none.
unfoldable pub space_width : Text → ℕ
unfolding is_space
space_width [] = 0
space_width (a ∷ []) = if is_space a then 1 else 0
space_width (a ∷ b ∷ []) = if is_space a then 1 else if is_space_of_two a b then 2 else 0
space_width (a ∷ b ∷ c ∷ s) =
    if is_space a
    then 1
    else if is_space_of_two a b
    then 2
    else if is_space_of_three a b c
    then 3
    else 0

unfoldable pub has_space : Text → Bool
unfolding space_width
has_space [] = false
has_space (c ∷ s) = not (space_width (c ∷ s) == 0) || has_space s

-- The runs between spaces, the first of which is begun, after so many bytes of a space.
unfoldable pub runs : ℕ → Text → Text × List Text
unfolding space_width
runs n [] = ([], [])
runs (suc n) (c ∷ s) = runs n s
runs zero (c ∷ s) = elim (space_width (c ∷ s)) [
  | zero ↦ let (w, ws) = runs zero s in (c ∷ w, ws)
  | suc n ↦ let (w, ws) = runs n s in ([], w ∷ ws)
]

-- strings.Fields
unfoldable pub words : Text → List Text
unfolding runs text_eq
words s = let (w, ws) = runs zero s in keep (λ w. not (text_eq w [])) (w ∷ ws)

space_width-append :
    (c : ℕ) (s t : Text) → space_width (c ∷ s) ≡ 0 → space_width (c ∷ (s ++ (b' ' ∷ t))) ≡ 0
unfolding space_width is_space
space_width-append c [] [] h = ground arith
space_width-append c [] (x ∷ t) h = ground arith
space_width-append c (b ∷ []) t h = ground arith
space_width-append c (b ∷ d ∷ s) t h = h

has_space-cons :
    (c : ℕ) (s : Text)
    → has_space (c ∷ s) ≡ false
    → (space_width (c ∷ s) ≡ 0) × (has_space s ≡ false)
unfolding has_space
has_space-cons c s h = ground arith

runs-cons :
    (c : ℕ) (s : Text)
    → space_width (c ∷ s) ≡ 0
    → runs zero (c ∷ s) ≡ (c ∷ (runs zero s).0, (runs zero s).1)
unfolding runs
runs-cons c s h = rw (runs, h) refl

runs-append :
    (w t : Text)
    → has_space w ≡ false
    → runs zero (w ++ (b' ' ∷ t)) ≡ (w, (runs zero t).0 ∷ (runs zero t).1)
unfolding runs space_width is_space
runs-append [] [] h = refl
runs-append [] (x ∷ []) h = refl
runs-append [] (x ∷ y ∷ t) h = refl
runs-append (c ∷ w) t h =
    let (e, h') = has_space-cons c w h in
    runs-cons c (w ++ (b' ' ∷ t)) (space_width-append c w t e)
    ∙ ap (λ r. (c ∷ r.0, r.1)) (runs-append w t h')

runs_word : (w : Text) → has_space w ≡ false → runs zero w ≡ (w, [])
unfolding runs
runs_word [] h = refl
runs_word (c ∷ w) h =
    let (e, h') = has_space-cons c w h in
    runs-cons c w e ∙ ap (λ r. (c ∷ r.0, r.1)) (runs_word w h')

-- A word and a space come before the words of the rest.
pub words-append :
    (w t : Text)
    → text_eq w [] ≡ false
    → has_space w ≡ false
    → words (w ++ (b' ' ∷ t)) ≡ w ∷ words t
unfolding words
words-append w t ne h = rw (runs-append w t h, ne) refl

pub words_word : (w : Text) → text_eq w [] ≡ false → has_space w ≡ false → words w ≡ w ∷ []
unfolding words
words_word w ne h = rw (runs_word w h, ne) refl

not_newline : (c : ℕ) (w : Text) → space_width (c ∷ w) ≡ 0 → (c == b'\n') ≡ false
unfolding space_width is_space
not_newline c [] h = ground arith
not_newline c (x ∷ []) h = ground arith
not_newline c (x ∷ y ∷ w) h = ground arith

pub has_space-newline : (w : Text) → has_space w ≡ false → has_byte b'\n' w ≡ false
unfolding has_byte
has_space-newline [] h = refl
has_space-newline (c ∷ w) h =
    let (e, h') = has_space-cons c w h in
    let ih = has_space-newline w h' in let other = not_newline c w e in rw (other, ih) refl
