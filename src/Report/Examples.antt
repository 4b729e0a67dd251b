-- ===== src/Report/Examples.antt =====
-- A client calls a, whose handler calls b.
use adaptiveservice.Prelude.{
  is_space, space_width, has_space, ℕ, suc, ◌≡◌, refl, some, none, [], ◌∷◌, ◌++◌, Text, codes,
}
use adaptiveservice.Tracer.{TracedMessageRecord}
use adaptiveservice.Report.{report, heading, parse_uint32, digits_value}
use adaptiveservice.Report.Calls.{Hop, Calls, no_calls, call, trace_of, IsSvc, AllSvcs}
use adaptiveservice.Report.Depth.{call_lines}
use adaptiveservice.Report.Summary.{call_arrows, report-trace_of}

abbrev record_at : ℕ → TracedMessageRecord
record_at t = record {
  time_stamp = t;
  msg = codes "m{1}";
  tracing_id = record { id = 7; seq_num = 0 };
  tag = [];
  conn_info = codes "uds";
}

abbrev hop : Text → ℕ → ℕ → Hop
hop svc t u = record {
  svc = svc;
  request = record_at t;
  handled = record_at (suc t);
  reply = record_at u;
  received = record_at (suc u);
}

abbrev inner_calls : Calls
inner_calls = call (hop (codes "b") 3 5) no_calls no_calls

abbrev stamp : ℕ → Text
stamp t = b'0' ∷ []

a-IsSvc : IsSvc (codes "a")
unfolding has_space space_width is_space
a-IsSvc = record { some_byte = λ e. cc e; no_space = refl; not_client = λ e. cc e }

b-IsSvc : IsSvc (codes "b")
unfolding has_space space_width is_space
b-IsSvc = record { some_byte = λ e. cc e; no_space = refl; not_client = λ e. cc e }

named : AllSvcs (call (hop (codes "a") 1 7) inner_calls no_calls)
unfolding AllSvcs
named = (a-IsSvc, (b-IsSvc, tt, tt), tt)

report-trace_of_example :
    report stamp (trace_of (call (hop (codes "a") 1 7) inner_calls no_calls))
    ≡ call_lines stamp 0 (call (hop (codes "a") 1 7) inner_calls no_calls)
      ++ (heading
          ++ call_arrows stamp (codes "client") (call (hop (codes "a") 1 7) inner_calls no_calls))
report-trace_of_example = report-trace_of stamp (hop (codes "a") 1 7) inner_calls no_calls named

largest : parse_uint32 (codes "4294967295") ≡ some 4294967295
unfolding parse_uint32 digits_value
largest = refl

too_large : parse_uint32 (codes "4294967296") ≡ none
unfolding parse_uint32 digits_value
too_large = refl
