-- ===== src/Client/Found.antt =====
-- The loops of findWithinOS and of connect against the lists of Spec.
use adaptiveservice.Prelude.{
  ℕ, zero, suc, ◌+◌, ◌-◌, ◌≡◌, ◌<◌, refl, sym, ap, ◌∙◌, true, false, ◌||◌, Option, none, some, List,
  [], ◌∷◌, ◌++◌, take, length, arith, if◌then◌else◌, append_assoc, append-nil, Bool-cases,
  Option-cases, ◌⊎◌, inl, inr, length-append,
}
use adaptiveservice.Client.{
  Connection, Finding, Candidate, has_key, reached, remaining, try_candidate, try_candidates,
}
use adaptiveservice.Client.Spec.{fresh_by, seen_by, fresh, connected, limit, seen_after}

-- There is a connection yet to find.
abbrev pub Room : Option ℕ → ℕ → Type 0
Room none found = Unit
Room (some expect) found = found < expect

try_candidate-skip :
    (expect : Option ℕ) (c : Candidate) (f : Finding)
    → (f.returned || has_key c.key f.service_list) ≡ true
    → try_candidate expect c f ≡ f
unfolding try_candidate
try_candidate-skip expect c f h = rw h refl

abbrev mark : Candidate → Finding → Finding
mark c f = record f { service_list = c.key ∷ f.service_list }

abbrev send : Option ℕ → Candidate → Connection → Finding → Finding
send expect c conn f = record f {
  service_list = c.key ∷ f.service_list;
  connections = f.connections ++ (conn ∷ []);
  found = suc f.found;
  returned = reached expect (suc f.found);
}

try_candidate-none :
    (expect : Option ℕ) (c : Candidate) (f : Finding)
    → (f.returned || has_key c.key f.service_list) ≡ false
    → c.connection ≡ none
    → try_candidate expect c f ≡ mark c f
unfolding try_candidate
try_candidate-none expect c f h e = rw (h, e) refl

try_candidate-some :
    (expect : Option ℕ) (c : Candidate) (f : Finding) (conn : Connection)
    → (f.returned || has_key c.key f.service_list) ≡ false
    → c.connection ≡ some conn
    → try_candidate expect c f ≡ send expect c conn f
unfolding try_candidate
try_candidate-some expect c f conn h e = rw (h, e) refl

pub try_candidates-returned :
    (expect : Option ℕ) (cs : List Candidate) (f : Finding)
    → f.returned ≡ true
    → try_candidates expect cs f ≡ f
unfolding try_candidates
try_candidates-returned expect [] f h = refl
try_candidates-returned expect (c ∷ cs) f h =
    ap (try_candidates expect cs) (try_candidate-skip expect c f (ground (arith, h)))
    ∙ try_candidates-returned expect cs f h

pub try_candidates-append :
    (expect : Option ℕ) (cs ds : List Candidate) (f : Finding)
    → try_candidates expect (cs ++ ds) f ≡ try_candidates expect ds (try_candidates expect cs f)
unfolding try_candidates
try_candidates-append expect [] ds f = refl
try_candidates-append expect (c ∷ cs) ds f =
    try_candidates-append expect cs ds (try_candidate expect c f)

pub limit-step :
    (expect : Option ℕ) (found : ℕ) (conn : Connection) (conns : List Connection)
    → Room expect found
    → limit (remaining expect found) (conn ∷ conns)
      ≡ conn ∷ limit (remaining expect (suc found)) conns
unfolding limit
limit-step none found conn conns room = refl
limit-step (some e) found conn conns room =
    let q : e - found ≡ suc (e - suc found) = omega arith in rw q refl

take-nil : (n : ℕ) → take {A = Connection} n [] ≡ []
take-nil zero = refl
take-nil (suc n) = refl

pub limit-nil : (expect : Option ℕ) (found : ℕ) → limit (remaining expect found) [] ≡ []
unfolding limit
limit-nil none found = refl
limit-nil (some e) found = take-nil (e - found)

pub reached-none :
    (expect : Option ℕ) (found : ℕ) (conns : List Connection)
    → reached expect found ≡ true
    → limit (remaining expect found) conns ≡ []
unfolding limit reached
reached-none none found conns h = ground arith
reached-none (some e) found conns h = let q : e - found ≡ 0 = ground arith in rw q refl

reached-Room :
    (expect : Option ℕ) (found : ℕ)
    → Room expect found
    → reached expect (suc found) ≡ false
    → Room expect (suc found)
unfolding reached
reached-Room none found room h = tt
reached-Room (some e) found room h = ground arith

pub try_candidates-connections :
    (expect : Option ℕ) (cs : List Candidate) (f : Finding)
    → f.returned ≡ false
    → Room expect f.found
    → (try_candidates expect cs f).connections
      ≡ f.connections ++ limit (remaining expect f.found) (connected (fresh f.service_list cs))
unfolding try_candidates fresh_by connected
try_candidates-connections expect [] f h room =
    sym (ap (λ l. f.connections ++ l) (limit-nil expect f.found) ∙ append-nil f.connections)
try_candidates-connections expect (c ∷ cs) f h room =
    elim (Bool-cases (has_key c.key f.service_list)) [
      | inl t ↦
          ap (λ g. (try_candidates expect cs g).connections)
            (try_candidate-skip expect c f (ground (arith, t, h)))
          ∙ rw t (try_candidates-connections expect cs f h room)
      | inr new ↦
          let passes : (f.returned || has_key c.key f.service_list) ≡ false =
            ground (arith, new, h) in
          let rest = connected (fresh (c.key ∷ f.service_list) cs) in
          elim (Option-cases c.connection) [
            | inl e ↦
                ap (λ g. (try_candidates expect cs g).connections)
                  (try_candidate-none expect c f passes e)
                ∙ rw (new, e) (try_candidates-connections expect cs (mark c f) h room)
            | inr (conn, e) ↦
                let sent = send expect c conn f in
                ap (λ g. (try_candidates expect cs g).connections)
                  (try_candidate-some expect c f conn passes e)
                ∙ elim (Bool-cases (reached expect (suc f.found))) [
                  | inl done ↦
                      ap (λ g. g.connections) (try_candidates-returned expect cs sent done)
                      ∙ rw
                          (
                            new,
                            e,
                            limit-step expect f.found conn rest room,
                            reached-none expect (suc f.found) rest done,
                          )
                          refl
                  | inr more ↦
                      try_candidates-connections expect cs sent more
                        (reached-Room expect f.found room more)
                      ∙ rw (new, e, limit-step expect f.found conn rest room)
                          (append_assoc f.connections (conn ∷ [])
                            (limit (remaining expect (suc f.found)) rest))
                ]
          ]
    ]

try_candidate-found :
    (expect : Option ℕ) (c : Candidate) (f : Finding)
    → (try_candidate expect c f).found + length f.connections
      ≡ f.found + length (try_candidate expect c f).connections
unfolding try_candidate
try_candidate-found expect c f = elim (Option-cases c.connection) [
  | inl e ↦ ground arith
  | inr (conn, e) ↦ ground (arith, length-append f.connections (conn ∷ []))
]

try_candidate-reached :
    (expect : Option ℕ) (c : Candidate) (f : Finding)
    → (f.returned ≡ true → reached expect f.found ≡ true)
    → (try_candidate expect c f).returned ≡ true
    → reached expect (try_candidate expect c f).found ≡ true
unfolding try_candidate
try_candidate-reached expect c f h = ground arith

-- As many are found as connections are sent.
pub try_candidates-found :
    (expect : Option ℕ) (cs : List Candidate) (f : Finding)
    → (try_candidates expect cs f).found + length f.connections
      ≡ f.found + length (try_candidates expect cs f).connections
unfolding try_candidates
try_candidates-found expect [] f = refl
try_candidates-found expect (c ∷ cs) f = ground (
  arith,
  try_candidate-found expect c f,
  try_candidates-found expect cs (try_candidate expect c f),
)

try_candidate-next :
    (expect : Option ℕ) (c : Candidate) (f : Finding)
    → f.returned ≡ false
    → Room expect f.found
    → ((try_candidate expect c f).returned ≡ true)
      ⊎ (((try_candidate expect c f).returned ≡ false)
          × Room expect (try_candidate expect c f).found
          × ((try_candidate expect c f).service_list
              ≡ (if has_key c.key f.service_list then f.service_list else c.key ∷ f.service_list)))
unfolding try_candidate reached
try_candidate-next none c f h room = ground arith
try_candidate-next (some e) c f h room = ground arith

-- A loop that did not return has room left, and has seen every key.
pub try_candidates-Room :
    (expect : Option ℕ) (cs : List Candidate) (f : Finding)
    → f.returned ≡ false
    → Room expect f.found
    → (try_candidates expect cs f).returned ≡ false
    → Room expect (try_candidates expect cs f).found
      × ((try_candidates expect cs f).service_list ≡ seen_after f.service_list cs)
unfolding try_candidates seen_by
try_candidates-Room expect [] f h room end = (room, refl)
try_candidates-Room expect (c ∷ cs) f h room end = elim (try_candidate-next expect c f h room) [
  | inl done ↦
      let stays =
        ap (λ g. g.returned) (try_candidates-returned expect cs (try_candidate expect c f) done) in
      ground (arith, done, stays, end)
  | inr (more, room', seen) ↦
      let (room'', seen') =
        try_candidates-Room expect cs (try_candidate expect c f) more room' end in
      (room'', seen' ∙ ap (λ l. seen_after l cs) seen)
]

pub try_candidates-reached :
    (expect : Option ℕ) (cs : List Candidate) (f : Finding)
    → (f.returned ≡ true → reached expect f.found ≡ true)
    → (try_candidates expect cs f).returned ≡ true
    → reached expect (try_candidates expect cs f).found ≡ true
unfolding try_candidates
try_candidates-reached expect [] f h end = h end
try_candidates-reached expect (c ∷ cs) f h end =
    try_candidates-reached expect cs (try_candidate expect c f) (try_candidate-reached expect c f h)
      end
