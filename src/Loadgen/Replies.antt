-- ===== src/Loadgen/Replies.antt =====
-- The reply to STOP, from the daemon to the client of src/core/ctrl.cpp.
use linerate.Base.{ℕ, List, [], ◌∷◌}
use linerate.Base.Text.{text}
use linerate.Ctrl.{Fields, StopReply}
use linerate.Loadgen.Commands.{decimal, Numbers}

module _ {D I : Type 0} (num : Numbers D I) (strtod : List ℕ → D) (to_u64 : D → ℕ) (nil : D) where
  abbrev fields_of : StopReply D → Fields
  fields_of rep =
      (text "sent", decimal rep.sent)
      ∷ (text "refused", decimal rep.refused)
      ∷ (text "returned", decimal rep.returned)
      ∷ (text "rtt_p50_ns", num.print_double rep.rtt_p50_ns)
      ∷ (text "rtt_p99_ns", num.print_double rep.rtt_p99_ns)
      ∷ (text "rtt_p999_ns", num.print_double rep.rtt_p999_ns)
      ∷ (text "fault", rep.fault)
      ∷ []

  -- What the client keeps of a reply: the counts and the reason, and the quantiles as printed.
  abbrev pub received : StopReply D → StopReply D
  received rep = record {
    sent = rep.sent;
    refused = rep.refused;
    returned = rep.returned;
    rtt_p50_ns = strtod (num.print_double rep.rtt_p50_ns);
    rtt_p99_ns = strtod (num.print_double rep.rtt_p99_ns);
    rtt_p999_ns = strtod (num.print_double rep.rtt_p999_ns);
    fault = rep.fault;
  }
