-- ===== src/Wildcard/Search.antt =====
-- The search of WildcardMatch for the middle segments.
use adaptiveservice.Prelude.{
  ℕ, ◌+◌, ◌≡◌, refl, sym, ap, ◌∙◌, ◌≤◌, true, some, List, [], ◌∷◌, ◌++◌, Text, length, drop, index,
  has_prefix, has_prefix→, text_eq, text_eq_iff, has_prefix-append, append_assoc, Bool-cases,
  Option-cases, inl, inr, arith, suc, drop-append, length-append,
}
use adaptiveservice.Wildcard.{match_middle}

pub index-prefix : (s sub : Text) → has_prefix s sub ≡ true → index s sub ≡ some 0
unfolding index
index-prefix [] sub h = rw h
index-prefix (x ∷ xs) sub h = rw h

zero_add_drop : (n : ℕ) (s : Text) → drop (0 + n) s ≡ drop n s
zero_add_drop n s = ap (λ k. drop k s) (omega arith)

suc_add_drop : (i n x : ℕ) (s : Text) → drop (suc i + n) (x ∷ s) ≡ drop (i + n) s
suc_add_drop i n x s = ap (λ k. drop k (x ∷ s)) (let e : suc i + n ≡ suc (i + n) = omega arith in e)

-- index finds a place where the text stands.
pub index→ :
    (s sub : Text) (i : ℕ)
    → index s sub ≡ some i
    → (pre : Text) × (s ≡ pre ++ (sub ++ drop (i + length sub) s))
unfolding index
index→ [] sub i h = ([], ground (arith, has_prefix→ [] sub, zero_add_drop (length sub) []))
index→ (x ∷ xs) sub i h = elim (Bool-cases (has_prefix (x ∷ xs) sub)) [
  | inl p ↦ ([], ground (arith, has_prefix→ (x ∷ xs) sub, zero_add_drop (length sub) (x ∷ xs)))
  | inr p ↦ elim (Option-cases (index xs sub)) [
    | inl e ↦ ground (arith)
    | inr (j, e) ↦
        let (pre, q) = index→ xs sub j e in
        (x ∷ pre, ground (arith, suc_add_drop j (length sub) x xs))
  ]
]

-- Of two ways to cut a text, the longer front leaves an end of what the shorter one leaves.
pub cut_longer :
    (a b r post : Text) → a ++ r ≡ b ++ post → length a ≤ length b → (x : Text) × (r ≡ x ++ post)
cut_longer [] b r post e h = (b, e)
cut_longer (c ∷ a) [] r post e h = absurd (omega arith)
cut_longer (c ∷ a) (d ∷ b) r post e h = cut_longer a b r post (cc) (omega arith)

-- It finds the first such place.
pub index_first :
    (pre sub post : Text)
    → (i : ℕ) × (x : Text) × (index (pre ++ (sub ++ post)) sub ≡ some i)
      × (drop (i + length sub) (pre ++ (sub ++ post)) ≡ x ++ post)
unfolding index
index_first [] sub post = (
  0,
  [],
  index-prefix _ sub (has_prefix-append sub post),
  zero_add_drop (length sub) (sub ++ post) ∙ drop-append sub post,
)
index_first (y ∷ pre) sub post = elim (Bool-cases (has_prefix (y ∷ (pre ++ (sub ++ post))) sub)) [
  | inl p ↦
      let whole : Text = y ∷ (pre ++ (sub ++ post)) in
      let (x, q) =
        cut_longer sub ((y ∷ pre) ++ sub) (drop (length sub) whole) post
          (sym (has_prefix→ whole sub p) ∙ sym (append_assoc (y ∷ pre) sub post))
          (omega (arith, length-append pre sub)) in
      (0, x, rw p, zero_add_drop (length sub) whole ∙ q)
  | inr p ↦
      let (i, x, e, q) = index_first pre sub post in
      (suc i, x, rw (p, e), suc_add_drop i (length sub) y _ ∙ q)
]

-- The middle segments stand one after another in the text, with any text between.
abbrev pub Middle : List Text → Text → Type 0
Middle [] str = Unit {0}
Middle (q ∷ qs) str = (pre : Text) × (post : Text) × (str ≡ pre ++ (q ++ post)) × Middle qs post

Middle-append : (qs : List Text) (x str : Text) → Middle qs str → Middle qs (x ++ str)
Middle-append [] x str h = tt
Middle-append (q ∷ qs) x str (pre, post, e, h) =
    (x ++ pre, post, ap (◌++◌ x) e ∙ sym (append_assoc x pre (q ++ post)), h)

pub match_middle_sound : (qs : List Text) (str : Text) → match_middle qs str ≡ true → Middle qs str
unfolding match_middle
match_middle_sound [] str h = tt
match_middle_sound (q ∷ qs) str h = elim (Bool-cases (text_eq q [])) [
  | inl e ↦ ([], str, rw ((text_eq_iff q []).0 e), match_middle_sound qs str (rw e at h))
  | inr e ↦ elim (Option-cases (index str q)) [
    | inl m ↦ ground arith
    | inr (i, m) ↦
        let (pre, c) = index→ str q i m in
        (
          pre,
          drop (i + length q) str,
          c,
          match_middle_sound qs (drop (i + length q) str) (ground arith),
        )
  ]
]

-- Taking the first place for each segment loses no match.
pub match_middle_complete :
    (qs : List Text) (str : Text) → Middle qs str → match_middle qs str ≡ true
unfolding match_middle
match_middle_complete [] str h = refl
match_middle_complete (q ∷ qs) str (pre, post, e, h) = elim (Bool-cases (text_eq q [])) [
  | inl m ↦
      rw (m, e, (text_eq_iff q []).0 m)
        (match_middle_complete qs (pre ++ post) (Middle-append qs pre post h))
  | inr m ↦
      let (i, x, f, c) = index_first pre q post in
      rw (m, e, f, e, c) (match_middle_complete qs (x ++ post) (Middle-append qs x post h))
]
