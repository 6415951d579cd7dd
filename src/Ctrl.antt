-- ===== src/Ctrl.antt =====
-- The client half of the control channel: include/lr/ctrl.hpp and src/core/ctrl.cpp. Text is a
-- list of bytes. The connection is a parameter: `send` gives the number of bytes taken and `recv`
-- one byte, or nothing where the call returns 0 or fails. `strtod` and the conversion of its
-- result to `uint64_t` are parameters, and so is the text that `snprintf` formats for START.
pub mod Fields
pub mod Lines
pub mod Token
pub mod Tests
use Prim.Native.String.{String}
use linerate.Base.{
  ℕ, zero, suc, ◌+◌, ◌-◌, Bool, true, false, ◌&&◌, ◌||◌, Option, none, some, List, [], ◌∷◌, ◌++◌,
  length, take, drop, ltb, leb, ◌==◌, if◌then◌else◌,
}

-- `isspace` in the C locale.
abbrev pub is_space : ℕ → Bool
is_space c = c == 32 || (leb 9 c && leb c 13)

-- A token that has been read, if it has a character.
abbrev pub flush : List ℕ → List (List ℕ) → List (List ℕ)
flush [] rest = rest
flush (c ∷ tok) rest = (c ∷ tok) ∷ rest

-- The tokens of `is >> tok`, given what has been read of the current one.
unfoldable pub tokens : List ℕ → List ℕ → List (List ℕ)
tokens [] tok = flush tok []
tokens (c ∷ s) tok =
    let next = tokens s [] in
    let same = tokens s (tok ++ (c ∷ [])) in if is_space c then flush tok next else same

-- The token before and after its first '=', if it has one.
unfoldable pub cut_equals : List ℕ → Option (List ℕ × List ℕ)
cut_equals [] = none
cut_equals (c ∷ s) =
    let later = cut_equals s in
    if c == 61 then some ([], s) else elim later [ none ↦ none | some (k, v) ↦ some (c ∷ k, v) ]

abbrev pub same_bytes : List ℕ → List ℕ → Bool
same_bytes [] [] = true
same_bytes [] (_ ∷ _) = false
same_bytes (_ ∷ _) [] = false
same_bytes (x ∷ xs) (y ∷ ys) = x == y && same_bytes xs ys

abbrev pub Fields : Type 0
Fields = List (List ℕ × List ℕ)

-- `m[k] = v`
unfoldable pub assign : List ℕ → List ℕ → Fields → Fields
assign k v [] = (k, v) ∷ []
assign k v ((k', v') ∷ m) =
    let rest = assign k v m in if same_bytes k k' then (k', v) ∷ m else (k', v') ∷ rest

-- `m.find(k)`
unfoldable pub find : List ℕ → Fields → Option (List ℕ)
find k [] = none
find k ((k', v) ∷ m) = let rest = find k m in if same_bytes k k' then some v else rest

pub collect : List (List ℕ) → Fields → Fields
collect [] m = m
collect (tok ∷ toks) m = elim (cut_equals tok) [
  | none ↦ collect toks m
  | some (k, v) ↦ collect toks (assign k v m)
]

unfoldable pub parse_kv : List ℕ → Fields
unfolding collect
parse_kv s = collect (tokens s []) []

-- `rep.rfind(p, 0) == 0`
abbrev pub has_prefix : List ℕ → List ℕ → Bool
has_prefix [] s = true
has_prefix (p ∷ ps) [] = false
has_prefix (p ∷ ps) (c ∷ s) = p == c && has_prefix ps s

-- What a call gives: its error, a text and the reply it quotes, or its result.
pub data Outcome (A : Type 0) : Type 0 where
  failed : String → List ℕ → Outcome A
  done : A → Outcome A

pub record Conn (K : Type 0) : Type 0 where
  pub send : K → List ℕ → K × Option ℕ
  pub recv : K → K × Option ℕ

module _ {K : Type 0} (conn : Conn K) where
  -- The loop that sends; each turn takes a byte off at least, so as much fuel as bytes is enough.
  unfoldable pub send_all : ℕ → K → List ℕ → K × Bool
  send_all zero k s = (k, true)
  send_all (suc fuel) k [] = (k, true)
  send_all (suc fuel) k (c ∷ s) =
      let (k', r) = conn.send k (c ∷ s) in
      elim r [ none ↦ (k', false) | some w ↦ send_all fuel k' (drop w (c ∷ s)) ]

  -- The loop that receives, with room for so many more bytes before the reply is too long.
  unfoldable pub recv_line : ℕ → K → K × Outcome (List ℕ)
  recv_line zero k =
      let (k', r) = conn.recv k in
      elim r [
        | none ↦ (k', failed "control connection closed" [])
        | some c ↦ if c == 10 then (k', done []) else (k', failed "control reply too long" [])
      ]
  recv_line (suc room) k =
      let (k', r) = conn.recv k in
      let (k'', rest) = recv_line room k' in
      elim r [
        | none ↦ (k', failed "control connection closed" [])
        | some c ↦
            if c == 10
            then (k', done [])
            else (k'', elim rest [ failed e q ↦ failed e q | done s ↦ done (c ∷ s) ])
      ]

  -- Client::request; no connection is `fd_ < 0`.
  unfoldable pub request : Option K → List ℕ → Option K × Outcome (List ℕ)
  request none line = (none, failed "not connected" [])
  request (some k) line =
      let out = line ++ (10 ∷ []) in
      let (k', sent) = send_all (length out) k out in
      let (k'', reply) = recv_line 4096 k' in
      if sent then (some k'', reply) else (some k', failed "control send failed" [])

  -- Client::ping: the fields after PONG.
  unfoldable pub ping : Option K → Option K × Outcome Fields
  ping c =
      let (c', reply) = request c (80 ∷ 73 ∷ 78 ∷ 71 ∷ []) in
      elim reply [
        | failed e q ↦ (c', failed e q)
        | done rep ↦
            if has_prefix (80 ∷ 79 ∷ 78 ∷ 71 ∷ []) rep
            then (c', done (parse_kv (drop 4 rep)))
            else (c', failed "unexpected reply: " rep)
      ]

  -- Client::start, on the text that snprintf would write: the buffer holds 511 bytes of it.
  unfoldable pub start : Option K → List ℕ → Option K × Outcome Unit
  start c text =
      let (c', reply) = request c (take 511 text) in
      elim reply [
        | failed e q ↦ (c', failed e q)
        | done rep ↦
            if has_prefix (79 ∷ 75 ∷ []) rep
            then (c', done tt)
            else (c', failed "generator refused: " rep)
      ]

-- struct StopReply, for doubles of type `D`.
pub record StopReply (D : Type 0) : Type 0 where
  pub sent : ℕ
  pub refused : ℕ
  pub returned : ℕ
  pub rtt_p50_ns : D
  pub rtt_p99_ns : D
  pub rtt_p999_ns : D
  pub fault : List ℕ

module _ {K D : Type 0} (conn : Conn K) (strtod : List ℕ → D) (to_u64 : D → ℕ) (nil : D)
    (bytes : String → List ℕ) where
  -- The lambda `num`: 0.0 where the field is missing.
  abbrev pub num : Fields → String → D
  num kv k = elim (find (bytes k) kv) [ none ↦ nil | some v ↦ strtod v ]

  unfoldable pub stop_reply : Fields → StopReply D
  stop_reply kv = record {
    sent = to_u64 (num kv "sent");
    refused = to_u64 (num kv "refused");
    returned = to_u64 (num kv "returned");
    rtt_p50_ns = num kv "rtt_p50_ns";
    rtt_p99_ns = num kv "rtt_p99_ns";
    rtt_p999_ns = num kv "rtt_p999_ns";
    fault = elim (find (bytes "fault") kv) [ none ↦ [] | some v ↦ v ];
  }

  -- Client::stop.
  unfoldable pub stop : Option K → Option K × Outcome (StopReply D)
  stop c =
      let (c', reply) = request conn c (83 ∷ 84 ∷ 79 ∷ 80 ∷ []) in
      elim reply [
        | failed e q ↦ (c', failed e q)
        | done rep ↦
            if has_prefix (68 ∷ 79 ∷ 78 ∷ 69 ∷ []) rep
            then (c', done (stop_reply (parse_kv (drop 4 rep))))
            else (c', failed "unexpected reply: " rep)
      ]
