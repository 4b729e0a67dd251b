-- ===== src/Wildcard/Glob.antt =====
-- What a pattern means: a "*" stands for any text, any other byte for itself. The meaning is
-- given on the bytes of the pattern, and then on its segments, which the code works with.
use adaptiveservice.Prelude.{
  ℕ, ◌==◌, ◌≡◌, refl, ap, List, [], ◌∷◌, ◌++◌, Text, split, Bool-cases, inl, inr, if◌then◌else◌,
}
use adaptiveservice.Wildcard.{star}

abbrev pub Glob : Text → Text → Type 0
Glob [] str = str ≡ []
Glob (c ∷ p) str =
    if c == star
    then ((pre : Text) × (post : Text) × (str ≡ pre ++ post) × Glob p post)
    else ((rest : Text) × (str ≡ c ∷ rest) × Glob p rest)

-- The text begins with the first segment, and each other segment follows after any text.
abbrev pub Segments : Text → List Text → Text → Type 0
Segments b [] str = str ≡ b
Segments b (q ∷ qs) str =
    (pre : Text) × (post : Text) × (str ≡ b ++ (pre ++ post)) × Segments q qs post

Segments-cons :
    (c : ℕ) (b : Text) (qs : List Text) (str : Text)
    → Segments b qs str
    → Segments (c ∷ b) qs (c ∷ str)
Segments-cons c b [] str h = ap (◌∷◌ c) h
Segments-cons c b (q ∷ qs) str (pre, post, e, h) = (pre, post, ap (◌∷◌ c) e, h)

Segments-uncons :
    (c : ℕ) (b : Text) (qs : List Text) (str : Text)
    → Segments (c ∷ b) qs str
    → (rest : Text) × (str ≡ c ∷ rest) × Segments b qs rest
Segments-uncons c b [] str h = (b, h, refl)
Segments-uncons c b (q ∷ qs) str (pre, post, e, h) = (b ++ (pre ++ post), e, (pre, post, refl, h))

pub Glob→Segments : (p str : Text) → Glob p str → Segments (split star p).0 (split star p).1 str
unfolding split
Glob→Segments [] str h = h
Glob→Segments (c ∷ p) str h = elim (Bool-cases (c == star)) [
  | inl e ↦ let (pre, post, q, g) = rw e at h in rw e (pre, post, q, Glob→Segments p post g)
  | inr e ↦
      let (rest, q, g) = rw e at h in
      rw e (rw q (Segments-cons c _ _ rest (Glob→Segments p rest g)))
]

pub Segments→Glob : (p str : Text) → Segments (split star p).0 (split star p).1 str → Glob p str
unfolding split
Segments→Glob [] str h = h
Segments→Glob (c ∷ p) str h = elim (Bool-cases (c == star)) [
  | inl e ↦ let (pre, post, q, g) = rw e at h in rw e (pre, post, q, Segments→Glob p post g)
  | inr e ↦
      let (rest, q, g) = Segments-uncons c _ _ str (rw e at h) in
      rw e (rest, q, Segments→Glob p rest g)
]
