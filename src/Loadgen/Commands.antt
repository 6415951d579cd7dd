-- ===== src/Loadgen/Commands.antt =====
-- The commands of a control connection, in `main` of src/apps/lr_loadgend.cpp. The conversions of
-- the C library, the names of the host and what it formats of a double are parameters.
use linerate.Base.{
  ℕ, zero, suc, ◌+◌, ◌/◌, ◌%◌, Bool, true, false, Option, none, some, List, [], ◌∷◌, ◌++◌, take,
  drop, ◌==◌, if◌then◌else◌,
}
use linerate.Base.Text.{text}
use linerate.Ctrl.{Fields, parse_kv, find, has_prefix, StopReply}
use linerate.Loadgen.{StartRequest, LoadUnit, start_unit, Quantiles, stop_unit}

-- What `%llu` writes of a number below 2^64, in front of `s`; 20 digits are enough.
unfoldable pub digits_of : ℕ → ℕ → List ℕ → List ℕ
digits_of zero n s = s
digits_of (suc fuel) n s =
    let rest = digits_of fuel (n / 10) ((48 + n % 10) ∷ s) in
    if n / 10 == 0 then (48 + n % 10) ∷ s else rest

abbrev pub decimal : ℕ → List ℕ
decimal n = digits_of 20 n []

-- A reply's fields: each a blank, the name, '=' and the value.
abbrev pub print_field : List ℕ → List ℕ → List ℕ → List ℕ
print_field k v rest = (32 ∷ (k ++ (61 ∷ v))) ++ rest

-- The text before the last ':' and after it, `d.rfind(':')`.
unfoldable pub cut_colon : List ℕ → Option (List ℕ × List ℕ)
cut_colon [] = none
cut_colon (c ∷ s) =
    let later = cut_colon s in
    elim later [ some (a, p) ↦ some (c ∷ a, p) | none ↦ if c == 58 then some ([], s) else none ]

-- atol, atof, atoi and strtoull, with the casts of their results.
pub record Numbers (D I : Type 0) : Type 0 where
  pub to_size : List ℕ → ℕ
  pub to_double : List ℕ → D
  pub to_port : List ℕ → ℕ
  pub to_u64 : List ℕ → ℕ
  pub to_int : List ℕ → I
  pub print_double : D → List ℕ

pub record Host : Type 0 where
  pub arch : List ℕ
  pub nic : List ℕ
  pub driver : List ℕ
  pub addr : List ℕ
  pub echo_port : ℕ
  pub tick_hz : ℕ

abbrev pub pong : Host → List ℕ
pong host = take 511 (
    text "PONG"
    ++ print_field (text "version") (text "2") (
        print_field (text "arch") host.arch (
          print_field (text "nic") host.nic (
            print_field (text "driver") host.driver (
              print_field (text "addr") host.addr (
                print_field (text "echo_port") (decimal host.echo_port)
                  (print_field (text "tick_hz") (decimal host.tick_hz) [])))))))

-- The lambda `get`.
abbrev pub get_field : Fields → List ℕ → List ℕ → List ℕ
get_field kv k d = elim (find k kv) [ none ↦ d | some v ↦ v ]

module _ {D I : Type 0} (num : Numbers D I) where
  -- `dst` is 127.0.0.1 and port 0 where the field has no ':'.
  abbrev pub target : Option (List ℕ × List ℕ) → List ℕ × ℕ
  target cut = elim cut [ none ↦ (text "127.0.0.1", 0) | some (a, p) ↦ (a, num.to_port p) ]

  -- The request that the fields of a START line give.
  abbrev pub request_of : Fields → StartRequest D I
  request_of kv = record {
    cipher = get_field kv (text "cipher") (text "aes-256-gcm");
    payload = num.to_size (get_field kv (text "payload") (text "512"));
    pps = num.to_double (get_field kv (text "pps") (text "0"));
    seconds = num.to_double (get_field kv (text "seconds") (text "2"));
    dst_addr = (target (cut_colon (get_field kv (text "dst") []))).0;
    dst_port = (target (cut_colon (get_field kv (text "dst") []))).1;
    return_port = num.to_port (get_field kv (text "return_port") (text "0"));
    epoch_packets = num.to_u64 (get_field kv (text "epoch_packets") (text "0"));
    cpu = num.to_int (get_field kv (text "cpu") (text "-1"));
  }

  unfoldable pub start_request : List ℕ → StartRequest D I
  start_request line = request_of (parse_kv (drop 5 line))

  -- The reply to STOP: a buffer of 512 bytes holds 511 of it.
  abbrev pub done_fields : StopReply D → List ℕ
  done_fields rep = print_field (text "sent") (decimal rep.sent) (
      print_field (text "refused") (decimal rep.refused) (
        print_field (text "returned") (decimal rep.returned) (
          print_field (text "rtt_p50_ns") (num.print_double rep.rtt_p50_ns) (
            print_field (text "rtt_p99_ns") (num.print_double rep.rtt_p99_ns) (
              print_field (text "rtt_p999_ns") (num.print_double rep.rtt_p999_ns)
                (print_field (text "fault") rep.fault []))))))

  unfoldable pub done_reply : StopReply D → List ℕ
  done_reply rep = take 511 (text "DONE" ++ done_fields rep)

module _ {G D I Hist : Type 0} (num : Numbers D I) (quantiles : Quantiles Hist D) (host : Host)
    (empty : Hist) (binds : ℕ → Bool) where
  -- A line that the connection has read: the unit, the reply without its line feed, and whether
  -- the connection stays.
  unfoldable pub handle :
      LoadUnit G (StartRequest D I) Hist
      → List ℕ
      → LoadUnit G (StartRequest D I) Hist × List ℕ × Bool
  handle u line =
      let (started, err) = start_unit empty binds u (start_request num line) in
      let (stopped, rep) = stop_unit quantiles u in
      if has_prefix (text "PING") line
      then (u, pong host, true)
      else if has_prefix (text "START") line
      then (started, elim err [ none ↦ text "OK" | some e ↦ text "ERR " ++ e ], true)
      else if has_prefix (text "STOP") line
      then (stopped, done_reply num rep, true)
      else if has_prefix (text "QUIT") line
      then (u, text "BYE", false)
      else (u, text "ERR unknown command", true)
