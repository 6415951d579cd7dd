-- ===== src/Loadgen/Tests.antt =====
-- The daemon of the load generator at concrete turns and lines.
use linerate.Base.{false, ℕ, suc, ◌+◌, ◌*◌, ◌-◌, ◌≡◌, refl, Bool, true, List, [], ◌∷◌, ◌==◌, arith}
use linerate.Base.Text.{text}
use linerate.Ctrl.{StopReply}
use linerate.Loadgen.{StartRequest, generator, LoadUnit, new_unit, Quantiles}
use linerate.Loadgen.Commands.{Numbers, Host}
use linerate.Loadgen.Session.{
  char, again, closed, Turn, reads, signalled, begins, sends, returns, connected, take_turns, serve,
}
use linerate.Loadgen.Quiet.{IsOff, serve-IsOff}
use linerate.Loadgen.Lines.{typed, typed_all, answers, lines_handled}
use linerate.Loadgen.Requests.{Formats}

-- The number that the digits say.
abbrev value : ℕ → List ℕ → ℕ
value acc [] = acc
value acc (c ∷ s) = value (acc * 10 + (c - 48)) s

-- Doubles and ints as the text that stands for them.
abbrev numbers : Numbers (List ℕ) (List ℕ)
numbers = record {
  to_size = value 0;
  to_double = λ s. s;
  to_port = value 0;
  to_u64 = value 0;
  to_int = λ s. s;
  print_double = λ d. text "0";
}

abbrev host : Host
host = record {
  arch = text "x86_64";
  nic = text "eth0";
  driver = text "ena";
  addr = text "10.0.0.2";
  echo_port = 9098;
  tick_hz = 1000000000;
}

-- The histogram is the list of the spans.
abbrev quantiles : Quantiles (List ℕ) (List ℕ)
quantiles = record {
  p50 = λ h. text "0";
  p99 = λ h. text "0";
  p999 = λ h. text "0";
  nil = text "0";
}

abbrev emit : ℕ → ℕ → ℕ × Bool
emit g seq = (suc g, seq == 1)

abbrev off : LoadUnit ℕ (StartRequest (List ℕ) (List ℕ)) (List ℕ)
off = new_unit []

-- A connection that starts a unit and is dropped while it sends, and one that a signal ends.
abbrev dropped : List (Turn ℕ)
dropped =
    typed (text "START return_port=7") (
      begins (generator 0) ∷ sends ∷ sends ∷ reads again ∷ returns 9 [] ∷ reads closed ∷ sends ∷ [])

abbrev stopped : List (Turn ℕ)
stopped = typed (text "START") (begins (generator 0) ∷ signalled ∷ reads (char 83) ∷ [])

serve-IsOff_example :
    IsOff
      (serve numbers quantiles host [] (λ p. true) emit (λ n h. n ∷ h) off (dropped ∷ stopped ∷ []))
serve-IsOff_example =
    serve-IsOff numbers quantiles host [] (λ p. true) emit (λ n h. n ∷ h) off
      (dropped ∷ stopped ∷ []) (refl, refl, refl)

abbrev lines : List (List ℕ)
lines = text "PING" ∷ text "START pps=x" ∷ text "QUIT" ∷ text "STOP" ∷ []

lines_handled_example :
    take_turns numbers quantiles host []
      (λ p. true)
      emit
      (λ n h. n ∷ h)
      (connected off)
      (typed_all lines)
    ≡ record {
      unit = (answers numbers quantiles host [] (λ p. true) emit (λ n h. n ∷ h) off lines).0;
      line = [];
      open_loop = false;
      replies = (answers numbers quantiles host [] (λ p. true) emit (λ n h. n ∷ h) off lines).1;
    }
lines_handled_example =
    lines_handled numbers quantiles host [] (λ p. true) emit (λ n h. n ∷ h) off lines (ground arith)

abbrev reply : StopReply (List ℕ)
reply = record {
  sent = 300;
  refused = 1;
  returned = 299;
  rtt_p50_ns = text "0";
  rtt_p99_ns = text "0";
  rtt_p999_ns = text "0";
  fault = text "generator:no_route";
}

abbrev formats : Formats (List ℕ) (List ℕ)
formats = record { print_3 = λ d. text "5.000"; print_int = λ i. text "-1" }

abbrev request : StartRequest (List ℕ) (List ℕ)
request = record {
  cipher = text "aes-256-gcm";
  payload = 512;
  pps = text "5.0";
  seconds = text "5.0";
  dst_addr = text "10.0.0.1";
  dst_port = 9000;
  return_port = 9001;
  epoch_packets = 0;
  cpu = text "-1";
}
