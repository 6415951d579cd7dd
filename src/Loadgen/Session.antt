-- ===== src/Loadgen/Session.antt =====
-- A control connection of the daemon, in `main` of src/apps/lr_loadgend.cpp: the loop that reads a
-- byte at a time, and what follows it. A run is a list of turns, in which those of the unit's two
-- threads stand where they come.
use linerate.Base.{ℕ, Bool, true, false, List, [], ◌∷◌, ◌++◌, length, ltb, ◌==◌, if◌then◌else◌}
use linerate.Loadgen.{
  StartRequest, Made, LoadUnit, sender_begins, sender_turn, returner_turn, Quantiles, stop_unit,
}
use linerate.Loadgen.Commands.{Numbers, Host, handle}

-- What `recv` of one byte gives: the byte, a timeout or an interruption, or the end.
pub data Received : Type 0 where
  char : ℕ → Received
  again : Received
  closed : Received

pub data Turn (G : Type 0) : Type 0 where
  reads : Received → Turn G
  -- A signal sets g_stop.
  signalled : Turn G
  begins : Made G → Turn G
  sends : Turn G
  returns : ℕ → List ℕ → Turn G

-- The unit, the line so far, whether the loop goes on, and the replies sent.
pub record Session (G Q Hist : Type 0) : Type 0 where
  pub unit : LoadUnit G Q Hist
  pub line : List ℕ
  pub open_loop : Bool
  pub replies : List (List ℕ)

abbrev pub connected : {G Q Hist : Type 0} → LoadUnit G Q Hist → Session G Q Hist
connected u = record { unit = u; line = []; open_loop = true; replies = [] }

module _ {G D I Hist : Type 0} (num : Numbers D I) (quantiles : Quantiles Hist D) (host : Host)
    (empty : Hist) (binds : ℕ → Bool) (emit : G → ℕ → G × Bool) (add : ℕ → Hist → Hist) where
  -- A line is read: it is handled, the reply sent and the line cleared.
  unfoldable pub read_line :
      Session G (StartRequest D I) Hist → List ℕ → Session G (StartRequest D I) Hist
  read_line s line =
      let (u, reply, alive) = handle num quantiles host empty binds s.unit line in
      record {
        unit = u;
        line = [];
        open_loop = alive;
        replies = s.replies ++ ((reply ++ (10 ∷ [])) ∷ []);
      }

  -- `if (ch != '\n') { line += ch; if (line.size() < 8192) continue; }`
  unfoldable pub read_char :
      Session G (StartRequest D I) Hist → ℕ → Session G (StartRequest D I) Hist
  read_char s c =
      let longer = s.line ++ (c ∷ []) in
      if c == 10
      then read_line s s.line
      else if ltb (length longer) 8192
      then record s { line = longer }
      else read_line s longer

  -- One turn. Where the loop has ended nothing is read.
  unfoldable pub take_turn :
      Session G (StartRequest D I) Hist → Turn G → Session G (StartRequest D I) Hist
  take_turn s (reads (char c)) = if s.open_loop then read_char s c else s
  take_turn s (reads again) = s
  take_turn s (reads closed) = record s { open_loop = false }
  take_turn s signalled = record s { open_loop = false }
  take_turn s (begins made) = record s { unit = sender_begins s.unit made }
  take_turn s sends = record s { unit = sender_turn emit s.unit }
  take_turn s (returns now p) = record s { unit = returner_turn add s.unit now p }

  unfoldable pub take_turns :
      Session G (StartRequest D I) Hist → List (Turn G) → Session G (StartRequest D I) Hist
  take_turns s [] = s
  take_turns s (t ∷ ts) = take_turns (take_turn s t) ts

  -- After the loop: a unit that still runs is stopped.
  unfoldable pub end_session :
      Session G (StartRequest D I) Hist → LoadUnit G (StartRequest D I) Hist
  end_session s = if s.unit.active then (stop_unit quantiles s.unit).0 else s.unit

  -- A connection from accept to close, and the next ones, each with its turns; after a signal there is
  -- no next one.
  unfoldable pub serve :
      LoadUnit G (StartRequest D I) Hist → List (List (Turn G)) → LoadUnit G (StartRequest D I) Hist
  serve u [] = u
  serve u (ts ∷ rest) = serve (end_session (take_turns (connected u) ts)) rest
