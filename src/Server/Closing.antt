-- ===== src/Server/Closing.antt =====
-- When the loop of Serve ends, and what is closed then.
use adaptiveservice.Prelude.{◌≡◌, refl, sym, none, some, List, [], ◌∷◌, ◌++◌, append-nil, map, Text}
use adaptiveservice.Server.{
  ErrorRecover, no_error, recovered, not_recovered, Server, do_close, serve_loop,
}

abbrev pub Closes : Server → Type 0
Closes s =
    (do_close (do_close s) ≡ do_close s)
    × ((do_close s).done ≡ s.done ++ s.closers)
    × ((do_close s).closers ≡ [])

-- doClose closes all closers in their order, and another doClose closes nothing more.
pub do_close-Closes : (s : Server) → Closes s
unfolding do_close
do_close-Closes s = elim s.closers as (λ cs. Closes (record s { closers = cs })) [
  | [] ↦ (refl, sym (append-nil s.done), refl)
  | c ∷ cs ↦ (refl, refl, refl)
]

-- The loop of Serve goes on as long as it can recover from the errors that come in. It ends with the first that
-- it cannot recover from, which it returns, or with Close, and does doClose.
pub serve_lem :
    (errors : List Text) (e : Text) (rest : List ErrorRecover) (s : Server)
    → (serve_loop (map recovered errors) s ≡ none)
      × (serve_loop (map recovered errors ++ (no_error ∷ rest)) s ≡ some (none, do_close s))
      × (serve_loop (map recovered errors ++ (not_recovered e ∷ rest)) s
          ≡ some (some e, do_close s))
unfolding serve_loop
serve_lem [] e rest s = (refl, refl, refl)
serve_lem (x ∷ errors) e rest s = serve_lem errors e rest s
