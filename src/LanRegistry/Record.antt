-- ===== src/LanRegistry/Record.antt =====
-- The record file of the host's own services: what a registry leaves, the next one starts from.
use adaptiveservice.Prelude.{
  ℕ, ◌≡◌, refl, sym, ap, ◌∙◌, subst, inl, inr, false, Option, none, some, List, [], ◌∷◌, ◌++◌, Text,
  text_key, Map, keys, Elem, Distinct, All, insert, lookup, lookup-insert, text_eq, text_eq_iff,
  Elem-keys, if◌then◌else◌, ◌>>=◌, Bool-cases, Option-cases, has_byte, split, words, words-append,
  words_word, runs, append_assoc,
}
use adaptiveservice.Names.RoundTrip.{split-append, has_byte-append}
use adaptiveservice.RootRegistry.Record.{IsWord, newline}
use adaptiveservice.LanRegistry.{
  LocalSvcInfo, local_line, local_record, load_local_fields, load_local_lines, load_local_record,
}

abbrev pub IsPlainEntry : Text × LocalSvcInfo → Type 0
IsPlainEntry (name, lsi) = IsWord name × IsWord lsi.port

local_body : Text → LocalSvcInfo → Text
local_body name lsi = name ++ (b' ' ∷ lsi.port)

local_line-local_body :
    (name : Text) (lsi : LocalSvcInfo) (rest : Text)
    → local_line name lsi ++ rest ≡ local_body name lsi ++ (b'\n' ∷ rest)
unfolding local_line local_body
local_line-local_body name lsi rest = simp append_assoc refl

local_body-newline :
    (name : Text) (lsi : LocalSvcInfo)
    → IsPlainEntry (name, lsi)
    → has_byte b'\n' (local_body name lsi) ≡ false
unfolding local_body has_byte
local_body-newline name lsi (n, p) = has_byte-append b'\n' name _ (newline n) (newline p)

words-local_body :
    (name : Text) (lsi : LocalSvcInfo)
    → IsPlainEntry (name, lsi)
    → words (local_body name lsi) ≡ name ∷ lsi.port ∷ []
unfolding local_body
words-local_body name lsi (n, p) =
    words-append name lsi.port n.not_empty n.no_space
    ∙ ap (λ l. name ∷ l) (words_word lsi.port p.not_empty p.no_space)

abbrev refreshed : ℕ → LocalSvcInfo → LocalSvcInfo
refreshed t lsi = record { time_stamp = t; port = lsi.port }

load_local_entries : ℕ → Map Text LocalSvcInfo → Map Text LocalSvcInfo → Map Text LocalSvcInfo
load_local_entries t [] table = table
load_local_entries t ((name, lsi) ∷ entries) table =
    load_local_entries t entries (insert name (refreshed t lsi) table)

load_local_lines-cons :
    (t : ℕ) (line : Text) (lines : List Text) (table after : Map Text LocalSvcInfo)
    → load_local_fields t (words line) table ≡ some after
    → load_local_lines t (line ∷ lines) table ≡ load_local_lines t lines after
unfolding load_local_lines
load_local_lines-cons t line lines table after e = rw (e, load_local_lines) refl

load_local_fields-local_body :
    (t : ℕ) (name : Text) (lsi : LocalSvcInfo) (table : Map Text LocalSvcInfo)
    → IsPlainEntry (name, lsi)
    → load_local_fields t (words (local_body name lsi)) table
      ≡ some (insert name (refreshed t lsi) table)
unfolding load_local_fields
load_local_fields-local_body t name lsi table v = rw (words-local_body name lsi v) refl

load_local_lines-local_record :
    (t : ℕ) (entries table : Map Text LocalSvcInfo)
    → All IsPlainEntry entries
    → load_local_lines t
        ((split b'\n' (local_record entries)).0 ∷ (split b'\n' (local_record entries)).1)
        table
      ≡ load_local_entries t entries table
unfolding load_local_entries local_record
load_local_lines-local_record t [] table v =
    unfold load_local_lines split text_eq words runs load_local_fields in refl
load_local_lines-local_record t ((name, lsi) ∷ entries) table v =
    rw
      (
        local_line-local_body name lsi (local_record entries),
        split-append b'\n' (local_body name lsi) (local_record entries)
            (local_body-newline name lsi v.0),
      )
      (load_local_lines-cons t (local_body name lsi) _ table (insert name (refreshed t lsi) table)
          (load_local_fields-local_body t name lsi table v.0)
        ∙ load_local_lines-local_record t entries (insert name (refreshed t lsi) table) v.1)

abbrev entry : ℕ → Option LocalSvcInfo → Option LocalSvcInfo → Option LocalSvcInfo
entry t none old = old
entry t (some lsi) old = some (refreshed t lsi)

lookup-load_local_entries :
    (t : ℕ) (name : Text) (entries table : Map Text LocalSvcInfo)
    → Distinct (keys entries)
    → lookup name (load_local_entries t entries table)
      ≡ entry t (lookup name entries) (lookup name table)
unfolding load_local_entries lookup
lookup-load_local_entries t name [] table d = refl
lookup-load_local_entries t name ((n, lsi) ∷ entries) table d =
    let after = insert n (refreshed t lsi) table in
    let absent : n ≡ name → lookup name entries ≡ none = λ e.
      elim (Option-cases (lookup name entries)) [
        | inl h ↦ h
        | inr (l, h) ↦
            absurd
              (d.0 (subst (λ k. Elem k (keys entries)) (sym e) ((Elem-keys name entries).1 (l, h))))
      ] in
    let step : entry t (lookup name entries) (lookup name after)
        ≡ entry t (if text_eq n name then some lsi else lookup name entries) (lookup name table) =
      elim (Bool-cases (text_eq n name)) [
        | inl same ↦
            rw
              (
                absent ((text_eq_iff n name).0 same),
                lookup-insert n name (refreshed t lsi) table,
                same,
              )
              refl
        | inr other ↦ rw (lookup-insert n name (refreshed t lsi) table, other) refl
      ] in
    lookup-load_local_entries t name entries after d.1 ∙ step

-- A registry that starts from the record file of another holds exactly the services that the other
-- held, with their ports, as seen now. No name is twice in the table, and no name and no port is
-- empty, holds a space, or is not ASCII.
pub lookup-load_local_record :
    (t : ℕ) (name : Text) (table : Map Text LocalSvcInfo)
    → Distinct (keys table)
    → All IsPlainEntry table
    → lookup name (load_local_record t (local_record table))
      ≡ (lookup name table >>= λ lsi. some (record lsi { time_stamp = t }))
unfolding load_local_record lookup
lookup-load_local_record t name table d v =
    ap (lookup name) (load_local_lines-local_record t table [] v)
    ∙ lookup-load_local_entries t name table [] d
    ∙ elim (Option-cases (lookup name table)) [ inl e ↦ rw e refl | inr (lsi, e) ↦ rw e refl ]
