-- ===== src/Report.antt =====
-- The report over the traced messages: ReadTracedMsg of messagetracing.go. What uuid.Parse makes of
-- a text, how a time is printed, what the tracing services answer and in which order sort.Slice
-- leaves their records are arguments. The indentation is a natural number, since the source sets one
-- below zero to zero at once.
pub mod Calls
pub mod Depth
pub mod Summary
mod Examples
use adaptiveservice.Prelude.{
  ℕ, zero, suc, ◌+◌, ◌-◌, ◌*◌, ltb, leb, Bool, true, false, ◌&&◌, Option, none, some, List, [], ◌∷◌,
  ◌++◌, Text, codes, text_eq, has_byte, split, if◌then◌else◌, ◌>>=◌,
}
use adaptiveservice.Tracer.{UuidInfo, TracedMessageRecord}
use adaptiveservice.Prelude.{words}

pub data ReadResult (A : Type 0) : Type 0 where
  ok : A → ReadResult A
  token_format_error : ReadResult A
  uuid_error : ReadResult A
  sequence_number_error : ReadResult A

-- The value of decimal digits after those read so far
unfoldable pub digits_value : ℕ → Text → Option ℕ
digits_value n [] = some n
digits_value n (c ∷ cs) =
    let rest = digits_value (n * 10 + (c - b'0')) cs in
    if leb b'0' c && leb c b'9' then rest else none

-- strconv.ParseUint(s, 10, 32)
unfoldable pub parse_uint32 : Text → Option ℕ
unfolding digits_value
parse_uint32 [] = none
parse_uint32 (c ∷ cs) = digits_value 0 (c ∷ cs) >>= λ n. if ltb n 4294967296 then some n else none

unfoldable pub parse_token : (Text → Option ℕ) → Text × List Text → ReadResult UuidInfo
parse_token uuid_parse (first, second ∷ []) = elim (uuid_parse first) [
  | none ↦ uuid_error
  | some id ↦ elim (parse_uint32 second) [
    | none ↦ sequence_number_error
    | some seq_num ↦ ok (record { id = id; seq_num = seq_num })
  ]
]
parse_token uuid_parse (first, []) = token_format_error
parse_token uuid_parse (first, s ∷ t ∷ ts) = token_format_error

-- What Discover and SendRecv give: the records of each service, for the token.
unfoldable pub all_record :
    List (UuidInfo → List TracedMessageRecord) → UuidInfo → List TracedMessageRecord
all_record [] token = []
all_record (s ∷ ss) token = s token ++ all_record ss token

abbrev pub client_send : Text
client_send = codes "client send"

abbrev pub client_recv : Text
client_recv = codes "client recv"

-- strings.Repeat("\t", n)
unfoldable pub tabs : ℕ → Text
tabs zero = []
tabs (suc n) = b'\t' ∷ tabs n

-- The text after the last closing brace, if there is one.
unfoldable pub after_brace : Text → Option Text
after_brace [] = none
after_brace (c ∷ cs) = elim (after_brace cs) [
  | some rest ↦ some rest
  | none ↦ if text_eq (c ∷ []) (codes "}") then some cs else none
]

-- A line in which the text from the first opening to the last closing brace is left out.
unfoldable pub shorten_line : Text → Text
unfolding after_brace text_eq
shorten_line [] = []
shorten_line (c ∷ cs) =
    let rest = c ∷ shorten_line cs in
    if text_eq (c ∷ []) (codes "{")
    then (elim (after_brace cs) [ none ↦ rest | some t ↦ codes "{}" ++ t ])
    else rest

unfoldable pub shorten_lines : List Text → Text
unfolding shorten_line
shorten_lines [] = []
shorten_lines (l ∷ ls) = b'\n' ∷ (shorten_line l ++ shorten_lines ls)

-- ReplaceAllLiteralString of \{.*\} by {}; the dot does not match a newline.
unfoldable pub shorten_msg : Text → Text
unfolding shorten_lines split
shorten_msg msg = let (l, ls) = split b'\n' msg in shorten_line l ++ shorten_lines ls

abbrev pub heading : Text
heading = codes "\nSummary(paste below content to http://www.plantuml.com/plantuml):\n"

module _ (stamp : ℕ → Text) where
  -- A line of the details
  unfoldable pub detail_line : ℕ → TracedMessageRecord → Text
  unfolding tabs
  detail_line indent rcd =
      stamp rcd.time_stamp
      ++ (codes " "
          ++ (tabs indent
              ++ (codes "["
                  ++ (rcd.tag
                      ++ (codes "] |"
                          ++ (rcd.conn_info ++ (codes "| <" ++ (rcd.msg ++ codes ">\n"))))))))

  unfoldable pub details : ℕ → List TracedMessageRecord → Text
  unfolding detail_line text_eq
  details indent [] = []
  details indent (rcd ∷ rcds) =
      let at_line = if text_eq rcd.tag client_recv then indent - 1 else indent in
      let after = if text_eq rcd.tag client_send then suc at_line else at_line in
      detail_line at_line rcd ++ details after rcds

  -- "who" ->
  abbrev pub arrow_from : Text → Text
  arrow_from who = codes "\"" ++ (who ++ codes "\" -> ")

  -- "who": time message
  unfoldable pub arrow_to : Text → TracedMessageRecord → Text
  unfolding shorten_msg
  arrow_to who rcd =
      codes "\""
      ++ (who
          ++ (codes "\": "
              ++ (stamp rcd.time_stamp ++ (codes " " ++ (shorten_msg rcd.msg ++ codes "\n")))))

  -- Who receives: the client is the service on top of svcs.
  unfoldable pub in_svcs : Text → List Text → Text
  unfolding text_eq
  in_svcs who [] = who
  in_svcs who (svc ∷ svcs) = if text_eq who (codes "client") then svc else who

  -- A record of the summary; svcs has the last service first.
  unfoldable pub act : Text → Text → TracedMessageRecord → List Text → List Text × Text
  unfolding arrow_to in_svcs text_eq
  act who action rcd svcs =
      if text_eq action (codes "send")
      then (elim svcs [
        | [] ↦ ([], arrow_from who)
        | svc ∷ rest ↦
            if text_eq who (codes "client")
            then (svc ∷ rest, arrow_from svc)
            else (rest, arrow_from who)
      ])
      else if text_eq action (codes "handler")
      then (who ∷ svcs, arrow_to who rcd)
      else if text_eq action (codes "recv")
      then (svcs, arrow_to (in_svcs who svcs) rcd)
      else (svcs, [])

  unfoldable pub act_fields : List Text → TracedMessageRecord → List Text → List Text × Text
  unfolding act
  act_fields (who ∷ action ∷ []) rcd svcs = act who action rcd svcs
  act_fields [] rcd svcs = (svcs, [])
  act_fields (f ∷ []) rcd svcs = (svcs, [])
  act_fields (f ∷ g ∷ h ∷ fs) rcd svcs = (svcs, [])

  unfoldable pub summary : List Text → List TracedMessageRecord → Text
  unfolding act_fields words
  summary svcs [] = []
  summary svcs (rcd ∷ rcds) =
      let (svcs', out) = act_fields (words rcd.tag) rcd svcs in out ++ summary svcs' rcds

  unfoldable pub report : List TracedMessageRecord → Text
  unfolding details summary
  report [] = []
  report (rcd ∷ rcds) = details 0 (rcd ∷ rcds) ++ (heading ++ summary [] (rcd ∷ rcds))

  unfoldable pub read_traced_msg :
      (Text → Option ℕ)
      → (List TracedMessageRecord → List TracedMessageRecord)
      → List (UuidInfo → List TracedMessageRecord)
      → Text
      → ReadResult Text
  unfolding parse_token all_record report
  read_traced_msg uuid_parse order services token =
      elim (parse_token uuid_parse (split b'.' token)) [
        | ok id ↦ ok (report (order (all_record services id)))
        | token_format_error ↦ token_format_error
        | uuid_error ↦ uuid_error
        | sequence_number_error ↦ sequence_number_error
      ]
