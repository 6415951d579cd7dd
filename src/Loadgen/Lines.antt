-- ===== src/Loadgen/Lines.antt =====
-- The loop that reads a byte at a time handles line after line.
use linerate.Base.{
  ℕ, ◌+◌, ◌<◌, ◌≡◌, refl, ap, sym, ◌∙◌, Bool, true, false, List, [], ◌∷◌, ◌++◌, length, ltb, ◌==◌,
  if◌then◌else◌, arith, not, ◌&&◌, inl, inr, Bool-cases, All, append_assoc, append-nil,
  length-append,
}
use linerate.Base.Text.{text}
use linerate.Ctrl.{has_prefix}
use linerate.Ctrl.Lines.{IsLine}
use linerate.Loadgen.{StartRequest, LoadUnit, Quantiles}
use linerate.Loadgen.Commands.{Numbers, Host, handle}
use linerate.Loadgen.Session.{
  char, Turn, reads, Session, connected, read_line, read_char, take_turn, take_turns,
}

module _ {G : Type 0} where
  -- The turns that read a line and its line feed.
  abbrev pub typed : List ℕ → List (Turn G) → List (Turn G)
  typed [] ts = reads (char 10) ∷ ts
  typed (c ∷ l) ts = reads (char c) ∷ typed l ts

  abbrev pub typed_all : List (List ℕ) → List (Turn G)
  typed_all [] = []
  typed_all (l ∷ ls) = typed l (typed_all ls)

module _ {G D I Hist : Type 0} (num : Numbers D I) (quantiles : Quantiles Hist D) (host : Host)
    (empty : Hist) (binds : ℕ → Bool) (emit : G → ℕ → G × Bool) (add : ℕ → Hist → Hist) where
  abbrev Here : Type 0
  Here = Session G (StartRequest D I) Hist

  abbrev handled : Here → List ℕ → Here
  handled = read_line num quantiles host empty binds emit add

  abbrev run : Here → List (Turn G) → Here
  run = take_turns num quantiles host empty binds emit add

  -- What is to come of the lines: of each, up to a QUIT, the reply with a line feed.
  abbrev pub answers :
      LoadUnit G (StartRequest D I) Hist
      → List (List ℕ)
      → LoadUnit G (StartRequest D I) Hist × List (List ℕ)
  answers u [] = (u, [])
  answers u (l ∷ ls) =
      let (u', reply, _) = handle num quantiles host empty binds u l in
      let (u'', replies) = answers u' ls in
      if has_prefix (text "QUIT") l
      then (u', (reply ++ (10 ∷ [])) ∷ [])
      else (u'', (reply ++ (10 ∷ [])) ∷ replies)

  -- No QUIT is among them.
  abbrev pub goes_on : List (List ℕ) → Bool
  goes_on [] = true
  goes_on (l ∷ ls) = not (has_prefix (text "QUIT") l) && goes_on ls

  abbrev at : Bool → LoadUnit G (StartRequest D I) Hist → List ℕ → List (List ℕ) → Here
  at b u p r = record { unit = u; line = p; open_loop = b; replies = r }

  ended :
      (u : LoadUnit G (StartRequest D I) Hist) (l p : List ℕ) (r : List (List ℕ))
      (ts : List (Turn G))
      → run (at false u p r) (typed l ts) ≡ run (at false u p r) ts
  unfolding take_turns take_turn
  ended u [] p r ts = refl
  ended u (c ∷ l) p r ts = ended u l p r ts

  read_char_more :
      (u : LoadUnit G (StartRequest D I) Hist) (p : List ℕ) (r : List (List ℕ)) (c : ℕ)
      → (c == 10) ≡ false
      → ltb (length (p ++ (c ∷ []))) 8192 ≡ true
      → read_char num quantiles host empty binds emit add (at true u p r) c
        ≡ at true u (p ++ (c ∷ [])) r
  unfolding read_char
  read_char_more u p r c e f = rw (e, f, read_char) refl

  gathered :
      (u : LoadUnit G (StartRequest D I) Hist) (l p : List ℕ) (r : List (List ℕ))
      (ts : List (Turn G))
      → IsLine l
      → length p + length l < 8192
      → run (at true u p r) (typed l ts) ≡ run (handled (at true u [] r) (p ++ l)) ts
  unfolding take_turns take_turn read_char read_line
  gathered u [] p r ts h room = ap (λ q. run (handled (at true u [] r) q) ts) (sym (append-nil p))
  gathered u (c ∷ l) p r ts h room =
      let short : ltb (length (p ++ (c ∷ []))) 8192 ≡ true =
        ground (arith, length-append p (c ∷ [])) in
      ap (λ s. run s (typed l ts)) (read_char_more u p r c h.0 short)
      ∙ (gathered u l (p ++ (c ∷ [])) r ts h.1 (omega (arith, length-append p (c ∷ [])))
          ∙ ap (λ q. run (handled (at true u [] r) q) ts) (append_assoc p (c ∷ []) l))

  handle-alive :
      (u : LoadUnit G (StartRequest D I) Hist) (l : List ℕ)
      → (handle num quantiles host empty binds u l).2 ≡ not (has_prefix (text "QUIT") l)
  unfolding handle
  handle-alive u [] = refl
  handle-alive u (c ∷ s) = ground arith

  still_closed :
      (u : LoadUnit G (StartRequest D I) Hist) (r : List (List ℕ)) (ls : List (List ℕ))
      → run (at false u [] r) (typed_all ls) ≡ at false u [] r
  unfolding take_turns
  still_closed u r [] = refl
  still_closed u r (l ∷ ls) = ended u l [] r (typed_all ls) ∙ still_closed u r ls

  lines_run :
      (ls : List (List ℕ)) (u : LoadUnit G (StartRequest D I) Hist) (r : List (List ℕ))
      → All (λ l. IsLine l × (length l < 8192)) ls
      → run (at true u [] r) (typed_all ls)
        ≡ at (goes_on ls) (answers u ls).0 [] (r ++ (answers u ls).1)
  unfolding take_turns read_line
  lines_run [] u r h = ap (at true u []) (sym (append-nil r))
  lines_run (l ∷ ls) u r h =
      let (u', reply, alive) = handle num quantiles host empty binds u l in
      let said = (reply ++ (10 ∷ [])) ∷ [] in
      gathered u l [] r (typed_all ls) h.0.0 (omega (arith, h.0.1))
      ∙ ap (λ b. run (at b u' [] (r ++ said)) (typed_all ls)) (handle-alive u l)
      ∙ elim (Bool-cases (has_prefix (text "QUIT") l)) [
        | inl quit ↦ rw quit (still_closed u' (r ++ said) ls)
        | inr other ↦ rw other (
            lines_run ls u' (r ++ said) h.1
            ∙ ap (at (goes_on ls) (answers u' ls).0 []) (append_assoc r said (answers u' ls).1))
      ]

  -- Of lines of less than 8192 bytes and without a line feed, each with one after it, read byte by
  -- byte on a new connection: each up to the first that begins with QUIT is handled once, in
  -- order, on the unit that the one before it left, and answered with its reply and a line feed.
  -- After a QUIT the connection is at its end and nothing more is handled; without one it goes on.
  -- No part of a line is left over.
  pub lines_handled :
      (u : LoadUnit G (StartRequest D I) Hist) (ls : List (List ℕ))
      → All (λ l. IsLine l × (length l < 8192)) ls
      → take_turns num quantiles host empty binds emit add (connected u) (typed_all ls) ≡ record {
        unit = (answers u ls).0;
        line = [];
        open_loop = goes_on ls;
        replies = (answers u ls).1;
      }
  lines_handled u ls h = lines_run ls u [] h
