-- ===== src/Loadgen/Quiet.antt =====
-- No unit outlives its control connection.
use linerate.Base.{
  ℕ, Bool, true, false, ◌≡◌, refl, List, [], ◌∷◌, ◌++◌, ltb, ◌==◌, if◌then◌else◌, arith, length,
}
use linerate.Loadgen.{
  StartRequest, idle, Made, LoadUnit, sender_begins, sender_turn, returner_turn, start_unit,
  Quantiles, stop_unit,
}
use linerate.Loadgen.Commands.{Numbers, Host, start_request, handle}
use linerate.Loadgen.Session.{
  char, again, closed, Turn, reads, signalled, begins, sends, returns, Session, connected,
  read_line, read_char, take_turn, take_turns, end_session, serve,
}

if_cases :
    {A : Type 0} (P : A → Type 0) (b : Bool) (x y : A)
    → (b ≡ true → P x)
    → (b ≡ false → P y)
    → P (if b then x else y)
if_cases P true x y p q = p refl
if_cases P false x y p q = q refl

-- A unit that is not active has no thread and no socket.
abbrev pub IsOrderly : {G Q Hist : Type 0} → LoadUnit G Q Hist → Type 0
IsOrderly u = u.active ≡ false → (u.sender ≡ idle) × (u.has_socket ≡ false)

-- It is off.
abbrev pub IsOff : {G Q Hist : Type 0} → LoadUnit G Q Hist → Type 0
IsOff u = (u.active ≡ false) × (u.sender ≡ idle) × (u.has_socket ≡ false)

module _ {G D I Hist : Type 0} where
  start_unit-IsOrderly :
      (empty : Hist) (binds : ℕ → Bool) (u : LoadUnit G (StartRequest D I) Hist)
      (q : StartRequest D I)
      → IsOrderly u
      → IsOrderly (start_unit empty binds u q).0
  unfolding start_unit
  start_unit-IsOrderly empty binds u q h = ground arith

  stop_unit-IsOff :
      (quantiles : Quantiles Hist D) (u : LoadUnit G (StartRequest D I) Hist)
      → IsOrderly u
      → IsOff (stop_unit quantiles u).0
  unfolding stop_unit
  stop_unit-IsOff quantiles u h = ground arith

  sender_begins-IsOrderly :
      (u : LoadUnit G (StartRequest D I) Hist) (m : Made G)
      → IsOrderly u
      → IsOrderly (sender_begins u m)
  unfolding sender_begins
  sender_begins-IsOrderly u m h = ground arith

  sender_turn-IsOrderly :
      (emit : G → ℕ → G × Bool) (u : LoadUnit G (StartRequest D I) Hist)
      → IsOrderly u
      → IsOrderly (sender_turn emit u)
  unfolding sender_turn
  sender_turn-IsOrderly emit u h = ground arith

  returner_turn-IsOrderly :
      (add : ℕ → Hist → Hist) (u : LoadUnit G (StartRequest D I) Hist) (now : ℕ) (p : List ℕ)
      → IsOrderly u
      → IsOrderly (returner_turn add u now p)
  unfolding returner_turn
  returner_turn-IsOrderly add u now p h = ground arith

module _ {G D I Hist : Type 0} (num : Numbers D I) (quantiles : Quantiles Hist D) (host : Host)
    (empty : Hist) (binds : ℕ → Bool) where
  handle-IsOrderly :
      (u : LoadUnit G (StartRequest D I) Hist) (line : List ℕ)
      → IsOrderly u
      → IsOrderly (handle num quantiles host empty binds u line).0
  unfolding handle
  handle-IsOrderly u line h = ground (
    arith,
    start_unit-IsOrderly empty binds u (start_request num line) h,
    stop_unit-IsOff quantiles u h,
  )

  module _ (emit : G → ℕ → G × Bool) (add : ℕ → Hist → Hist) where
    abbrev turn : Session G (StartRequest D I) Hist → Turn G → Session G (StartRequest D I) Hist
    turn = take_turn num quantiles host empty binds emit add

    read_char-IsOrderly :
        (s : Session G (StartRequest D I) Hist) (c : ℕ)
        → IsOrderly s.unit
        → IsOrderly ((read_char num quantiles host empty binds emit add s c).unit)
    unfolding read_char read_line
    read_char-IsOrderly s c h =
        let P = λ (r : Session G (StartRequest D I) Hist). IsOrderly r.unit in
        let longer = s.line ++ (c ∷ []) in
        if_cases P (c == 10) _ _ (λ e. handle-IsOrderly s.unit s.line h)
          (λ e.
            if_cases P (ltb (length longer) 8192) _ _ (λ f. h)
              (λ f. handle-IsOrderly s.unit longer h))

    take_turn-IsOrderly :
        (s : Session G (StartRequest D I) Hist) (t : Turn G)
        → IsOrderly s.unit
        → IsOrderly ((turn s t).unit)
    unfolding take_turn
    take_turn-IsOrderly s (reads (char c)) h =
        if_cases (λ (r : Session G (StartRequest D I) Hist). IsOrderly r.unit) s.open_loop
          (read_char num quantiles host empty binds emit add s c) s (λ e. read_char-IsOrderly s c h)
          (λ e. h)
    take_turn-IsOrderly s (reads again) h = h
    take_turn-IsOrderly s (reads closed) h = h
    take_turn-IsOrderly s signalled h = h
    take_turn-IsOrderly s (begins made) h = sender_begins-IsOrderly s.unit made h
    take_turn-IsOrderly s sends h = sender_turn-IsOrderly emit s.unit h
    take_turn-IsOrderly s (returns now p) h = returner_turn-IsOrderly add s.unit now p h

    take_turns-IsOrderly :
        (ts : List (Turn G)) (s : Session G (StartRequest D I) Hist)
        → IsOrderly s.unit
        → IsOrderly ((take_turns num quantiles host empty binds emit add s ts).unit)
    unfolding take_turns
    take_turns-IsOrderly [] s h = h
    take_turns-IsOrderly (t ∷ ts) s h =
        take_turns-IsOrderly ts (turn s t) (take_turn-IsOrderly s t h)

    end_session-IsOff :
        (s : Session G (StartRequest D I) Hist)
        → IsOrderly s.unit
        → IsOff (end_session num quantiles host empty binds emit add s)
    unfolding end_session
    end_session-IsOff s h =
        if_cases IsOff s.unit.active (stop_unit quantiles s.unit).0 s.unit
          (λ e. stop_unit-IsOff quantiles s.unit h) (λ e. (e, (h e).0, (h e).1))

    -- From a unit that is off, whatever the connections send, however each ends, and whatever the
    -- threads do meanwhile: when a connection has been served, no unit is active, no thread runs
    -- and no return socket is open.
    pub serve-IsOff :
        (u : LoadUnit G (StartRequest D I) Hist) (sessions : List (List (Turn G)))
        → IsOff u
        → IsOff (serve num quantiles host empty binds emit add u sessions)
    unfolding serve
    serve-IsOff u [] h = h
    serve-IsOff u (ts ∷ rest) h =
        let s = take_turns num quantiles host empty binds emit add (connected u) ts in
        serve-IsOff (end_session num quantiles host empty binds emit add s) rest
          (end_session-IsOff s (take_turns-IsOrderly ts (connected u) (λ e. (h.1, h.2))))
