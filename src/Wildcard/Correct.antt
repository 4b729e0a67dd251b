-- ===== src/Wildcard/Correct.antt =====
-- WildcardMatch decides the meaning of the pattern.
use adaptiveservice.Prelude.{
  false, has_byte, ◌==◌, arith, ap, ◌∙◌, Bool, ◌-◌, ◌≡◌, refl, sym, ap, ◌∙◌, ◌↔◌, true, List, [],
  ◌∷◌, ◌++◌, Text, length, take, drop, split, has_prefix, has_suffix, has_prefix→, text_eq,
  text_eq_iff, has_prefix-append, append_assoc, append-nil, Bool-cases, inl, inr, arith,
  drop-append, take-append, has_suffix→, has_suffix-append, append_cut, subst,
}
use adaptiveservice.Wildcard.{
  star, last_part, middle_parts, match_last, match_parts, wildcard_cases, wildcard_match,
}
use adaptiveservice.Wildcard.Glob.{Glob, Segments, Glob→Segments, Segments→Glob}
use adaptiveservice.Wildcard.Search.{Middle, match_middle_sound, match_middle_complete}

-- The middle segments and, at the end of the text, the last one.
abbrev Tail : Text → List Text → Text → Type 0
Tail end mids str = (mid : Text) × (str ≡ mid ++ end) × Middle mids mid

-- The parts after the first, split into the middle ones and the last.
Segments→Tail :
    (b q : Text) (qs : List Text) (str : Text)
    → Segments b (q ∷ qs) str
    → (rest : Text) × (str ≡ b ++ rest) × Tail (last_part q qs) (middle_parts q qs) rest
unfolding last_part middle_parts
Segments→Tail b q [] str (pre, post, e, h) = (pre ++ post, e, (pre, ap (◌++◌ pre) h, tt))
Segments→Tail b q (r ∷ rs) str (pre, post, e, h) =
    let (rest, f, (mid, g, m)) = Segments→Tail q r rs post h in
    (
      pre ++ post,
      e,
      (
        pre ++ (q ++ mid),
        simp append_assoc (ap (◌++◌ pre) (f ∙ ap (◌++◌ q) g)),
        (pre, mid, refl, m),
      ),
    )

Tail→Segments :
    (b q : Text) (qs : List Text) (rest : Text)
    → Tail (last_part q qs) (middle_parts q qs) rest
    → Segments b (q ∷ qs) (b ++ rest)
unfolding last_part middle_parts
Tail→Segments b q [] rest (mid, e, h) = (mid, q, ap (◌++◌ b) e, refl)
Tail→Segments b q (r ∷ rs) rest (mid, e, (pre, post, f, m)) = (
  pre,
  q ++ (post ++ last_part r rs),
  ap (◌++◌ b) (e ∙ ap (λ t. t ++ last_part r rs) f ∙ simp append_assoc),
  Tail→Segments q r rs (post ++ last_part r rs) (post, refl, m),
)

match_last→Tail :
    (end : Text) (mids : List Text) (str : Text)
    → match_last end mids str ≡ true
    → Tail end mids str
unfolding match_last
match_last→Tail end mids str h = elim (Bool-cases (text_eq end [])) [
  | inl e ↦ (
    str,
    rw ((text_eq_iff end []).0 e) (sym (append-nil str)),
    match_middle_sound mids str (ground arith),
  )
  | inr e ↦ elim (Bool-cases (has_suffix str end)) [
    | inl f ↦ (
      take (length str - length end) str,
      has_suffix→ str end f,
      match_middle_sound mids (take (length str - length end) str) (ground arith),
    )
    | inr f ↦ ground arith
  ]
]

Tail→match_last :
    (end : Text) (mids : List Text) (str : Text)
    → Tail end mids str
    → match_last end mids str ≡ true
unfolding match_last
Tail→match_last end mids str (mid, e, h) = elim (Bool-cases (text_eq end [])) [
  | inl f ↦ rw (f, e, (text_eq_iff end []).0 f, append-nil) (match_middle_complete mids mid h)
  | inr f ↦ rw (f, e, has_suffix-append, append_cut, take-append) (match_middle_complete mids mid h)
]

match_parts→Segments :
    (b q : Text) (qs : List Text) (str : Text)
    → match_parts b q qs str ≡ true
    → Segments b (q ∷ qs) str
unfolding match_parts
match_parts→Segments b q qs str h = elim (Bool-cases (text_eq b [])) [
  | inl e ↦
      rw ((text_eq_iff b []).0 e)
        (Tail→Segments [] q qs str (match_last→Tail _ _ str (ground arith)))
  | inr e ↦ elim (Bool-cases (has_prefix str b)) [
    | inl f ↦
        let rest : Text = drop (length b) str in
        subst (Segments b (q ∷ qs)) (sym (has_prefix→ str b f))
          (Tail→Segments b q qs rest (match_last→Tail _ _ rest (ground arith)))
    | inr f ↦ ground arith
  ]
]

Segments→match_parts :
    (b q : Text) (qs : List Text) (str : Text)
    → Segments b (q ∷ qs) str
    → match_parts b q qs str ≡ true
unfolding match_parts
Segments→match_parts b q qs str h =
    let (rest, e, t) = Segments→Tail b q qs str h in
    elim (Bool-cases (text_eq b [])) [
      | inl f ↦ rw (f, e, (text_eq_iff b []).0 f) (Tail→match_last _ _ rest t)
      | inr f ↦ rw (f, e, has_prefix-append, drop-append) (Tail→match_last _ _ rest t)
    ]

cases→Segments :
    (p str : Text) (parts : Text × List Text)
    → (parts.1 ≡ [] → parts.0 ≡ p)
    → (wildcard_cases p str parts ≡ true) ↔ Segments parts.0 parts.1 str
unfolding wildcard_cases
cases→Segments p str (b, []) h = (
  λ e. sym ((text_eq_iff p str).0 e) ∙ sym (h refl),
  λ e. (text_eq_iff p str).1 (sym (h refl) ∙ sym e),
)
cases→Segments p str (b, q ∷ qs) h =
    (match_parts→Segments b q qs str, Segments→match_parts b q qs str)

split-whole : (p : Text) → (split star p).1 ≡ [] → (split star p).0 ≡ p
unfolding split
split-whole [] h = refl
split-whole (c ∷ p) h = ground (arith, split-whole p)

pub star_matches : (str : Text) → Glob (star ∷ []) str
star_matches str = (str, [], sym (append-nil str), refl)

-- WildcardMatch returns true exactly when the text is one that the pattern stands for, each "*" in
-- the pattern for any text and each other byte for itself.
pub wildcard_match-Glob : (p str : Text) → (wildcard_match p str ≡ true) ↔ Glob p str
unfolding wildcard_match
wildcard_match-Glob p str = elim (Bool-cases (text_eq p (star ∷ []))) [
  | inl e ↦ rw (e, (text_eq_iff p (star ∷ [])).0 e) (λ h. star_matches str, λ h. refl)
  | inr e ↦ elim (Bool-cases (text_eq p [])) [
    | inl f ↦ rw (e, f, (text_eq_iff p []).0 f) (text_eq_iff str [])
    | inr f ↦
        let i = cases→Segments p str (split star p) (split-whole p) in
        rw (e, f) (λ h. Segments→Glob p str (i.0 h), λ h. i.1 (Glob→Segments p str h))
  ]
]

-- A pattern with no "*" stands for itself alone.
pub Glob-literal : (p str : Text) → has_byte star p ≡ false → Glob p str ↔ (str ≡ p)
unfolding has_byte
Glob-literal [] str h = (λ g. g, λ e. e)
Glob-literal (c ∷ p) str h =
    let ih = λ (s : Text). Glob-literal p s (ground arith) in
    let not_star : (c == star) ≡ false = ground arith in
    rw not_star (λ (rest, e, g). e ∙ ap (◌∷◌ c) ((ih rest).0 g), λ e. (p, e, (ih p).1 refl))

bool_ext : (a b : Bool) → (a ≡ true → b ≡ true) → (b ≡ true → a ≡ true) → a ≡ b
bool_ext a b f g = ground arith

pub wildcard_match-literal :
    (p str : Text) → has_byte star p ≡ false → wildcard_match p str ≡ text_eq p str
wildcard_match-literal p str h =
    let meaning = wildcard_match-Glob p str in
    let literal = Glob-literal p str h in
    bool_ext (wildcard_match p str) (text_eq p str)
      (λ e. (text_eq_iff p str).1 (sym (literal.0 (meaning.0 e))))
      (λ e. meaning.1 (literal.1 (sym ((text_eq_iff p str).0 e))))
