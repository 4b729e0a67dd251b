-- ===== src/Prelude/Texts.antt =====
-- A Go string is the list of its bytes. The functions of package strings that the code calls.
use Prim.Native.Nat.{ℕ, suc, ◌-◌}
use Prim.Native.Char.{code}
use Prim.Native.String.{String}
use mathlib.Core.Path.{◌≡◌, refl, sym, ap, ◌∙◌}
use mathlib.Core.Logic.{◌↔◌}
use mathlib.Core.Bool.{Bool, true, false, ◌&&◌, ◌||◌}
use mathlib.Core.Option.{Option, none, some}
use mathlib.Core.List.{List, [], ◌∷◌, ◌++◌}
use native.Mathlib.Omega.{arith}
use adaptiveservice.Prelude.Tests.{leb, ◌==◌, if◌then◌else◌, Eq}
use adaptiveservice.Prelude.Lists.{length, take, drop, length-append, drop-append, take-append-drop}

abbrev pub Text : Type 0
Text = List ℕ

-- The bytes of a literal in ASCII.
abbrev pub codes : String → Text
codes String.[] = []
codes (String.◌∷◌ c s) = code c ∷ codes s

unfoldable pub text_eq : Text → Text → Bool
text_eq [] [] = true
text_eq [] (y ∷ ys) = false
text_eq (x ∷ xs) [] = false
text_eq (x ∷ xs) (y ∷ ys) = x == y && text_eq xs ys

text_eq→ : (a b : Text) → text_eq a b ≡ true → a ≡ b
unfolding text_eq
text_eq→ [] [] h = refl
text_eq→ [] (y ∷ ys) h = cc
text_eq→ (x ∷ xs) [] h = cc
text_eq→ (x ∷ xs) (y ∷ ys) h = ground (arith, text_eq→ xs ys)

pub text_eq_refl : (a : Text) → text_eq a a ≡ true
unfolding text_eq
text_eq_refl [] = refl
text_eq_refl (x ∷ xs) = ground (arith, text_eq_refl xs)

pub text_eq_iff : (a b : Text) → (text_eq a b ≡ true) ↔ (a ≡ b)
text_eq_iff a b = (text_eq→ a b, λ e. rw e (text_eq_refl b))

instance abbrev pub text_key : Eq Text
text_key = record { beq = text_eq; beq_iff = text_eq_iff }

-- strings.HasPrefix(s, prefix)
unfoldable pub has_prefix : Text → Text → Bool
has_prefix s [] = true
has_prefix [] (p ∷ ps) = false
has_prefix (x ∷ xs) (p ∷ ps) = x == p && has_prefix xs ps

-- strings.HasSuffix(s, suffix)
unfoldable pub has_suffix : Text → Text → Bool
has_suffix s e = leb (length e) (length s) && text_eq (drop (length s - length e) s) e

-- strings.TrimSuffix(s, suffix)
unfoldable pub trim_suffix : Text → Text → Text
unfolding has_suffix
trim_suffix s e = if has_suffix s e then take (length s - length e) s else s

-- strings.IndexByte(s, c) >= 0, and strings.Contains with a separator of one byte
unfoldable pub has_byte : ℕ → Text → Bool
has_byte c [] = false
has_byte c (x ∷ xs) = x == c || has_byte c xs

abbrev next : Option ℕ → Option ℕ
next none = none
next (some i) = some (suc i)

-- strings.Index(s, sub), with none for -1
unfoldable pub index : Text → Text → Option ℕ
unfolding has_prefix
index [] sub = if has_prefix [] sub then some 0 else none
index (x ∷ xs) sub =
    let rest = next (index xs sub) in if has_prefix (x ∷ xs) sub then some 0 else rest

-- strings.Split(s, sep) with a separator of one byte: the first part, and the others.
unfoldable pub split : ℕ → Text → Text × List Text
split c [] = ([], [])
split c (x ∷ xs) = let (p, ps) = split c xs in if x == c then ([], p ∷ ps) else (x ∷ p, ps)

pub has_prefix→ : (s p : Text) → has_prefix s p ≡ true → s ≡ p ++ drop (length p) s
unfolding has_prefix
has_prefix→ s [] h = refl
has_prefix→ [] (p ∷ ps) h = cc
has_prefix→ (x ∷ xs) (p ∷ ps) h = ground (arith, has_prefix→ xs ps)

pub has_prefix-append : (p s : Text) → has_prefix (p ++ s) p ≡ true
unfolding has_prefix
has_prefix-append [] s = refl
has_prefix-append (p ∷ ps) s = ground (arith, has_prefix-append ps s)

pub has_suffix→ : (s e : Text) → has_suffix s e ≡ true → s ≡ take (length s - length e) s ++ e
unfolding has_suffix
has_suffix→ s e h =
    sym (take-append-drop (length s - length e) s)
    ∙ ap (◌++◌ (take (length s - length e) s))
        ((text_eq_iff (drop (length s - length e) s) e).0 (ground arith))

pub append_cut : (m e : Text) → length (m ++ e) - length e ≡ length m
append_cut m e = omega (arith, length-append m e)

pub has_suffix-append : (m e : Text) → has_suffix (m ++ e) e ≡ true
unfolding has_suffix
has_suffix-append m e =
    rw (append_cut m e, drop-append m e, text_eq_refl e) (ground (arith, length-append m e))
