-- ===== src/Loadgen/Requests.antt =====
-- The client's START, in Client::start of src/core/ctrl.cpp, and what the daemon reads of it.
use linerate.Base.{
  ℕ, ◌^◌, ◌≤◌, ◌<◌, ◌≡◌, true, Bool, Option, none, some, List, [], ◌∷◌, ◌++◌, length, take,
}
use linerate.Base.Text.{text}
use linerate.Ctrl.{Fields}
use linerate.Ctrl.Fields.{IsToken}
use linerate.Loadgen.{StartRequest}
use linerate.Loadgen.Commands.{decimal, print_field, Numbers}

-- What `%.3f` writes of a double and `%d` of an int.
pub record Formats (D I : Type 0) : Type 0 where
  pub print_3 : D → List ℕ
  pub print_int : I → List ℕ

module _ {D I : Type 0} (formats : Formats D I) where
  abbrev pub request_fields : StartRequest D I → List ℕ
  request_fields q = print_field (text "cipher") q.cipher (
      print_field (text "payload") (decimal q.payload) (
        print_field (text "pps") (formats.print_3 q.pps) (
          print_field (text "seconds") (formats.print_3 q.seconds) (
            print_field (text "dst") (q.dst_addr ++ (58 ∷ decimal q.dst_port)) (
              print_field (text "return_port") (decimal q.return_port) (
                print_field (text "epoch_packets") (decimal q.epoch_packets)
                  (print_field (text "cpu") (formats.print_int q.cpu) [])))))))

  -- The line: a buffer of 512 bytes holds 511 of it.
  unfoldable pub start_line : StartRequest D I → List ℕ
  start_line q = take 511 (text "START" ++ request_fields q)

-- The unit after START, its answer, and that the connection stays.
abbrev pub answered : {U : Type 0} → U × Option (List ℕ) → U × List ℕ × Bool
answered (u, err) = (u, elim err [ none ↦ text "OK" | some e ↦ text "ERR " ++ e ], true)

module _ {D I : Type 0} (num : Numbers D I) (formats : Formats D I) where
  abbrev fields_of : StartRequest D I → Fields
  fields_of q =
      (text "cipher", q.cipher)
      ∷ (text "payload", decimal q.payload)
      ∷ (text "pps", formats.print_3 q.pps)
      ∷ (text "seconds", formats.print_3 q.seconds)
      ∷ (text "dst", q.dst_addr ++ (58 ∷ decimal q.dst_port))
      ∷ (text "return_port", decimal q.return_port)
      ∷ (text "epoch_packets", decimal q.epoch_packets)
      ∷ (text "cpu", formats.print_int q.cpu)
      ∷ []

  -- What the daemon has of a request: its doubles and its int are as printed.
  abbrev pub as_printed : StartRequest D I → StartRequest D I
  as_printed q = record q {
    pps = num.to_double (formats.print_3 q.pps);
    seconds = num.to_double (formats.print_3 q.seconds);
    cpu = num.to_int (formats.print_int q.cpu);
  }

  -- The conversions take back what was printed, and the formats have no blank.
  pub record IsExact : Type 0 where
    pub size_exact : (n : ℕ) → n < 2 ^ 63 → num.to_size (decimal n) ≡ n
    pub port_exact : (n : ℕ) → n < 2 ^ 16 → num.to_port (decimal n) ≡ n
    pub u64_exact : (n : ℕ) → n < 2 ^ 64 → num.to_u64 (decimal n) ≡ n
    pub print_3-IsToken : (d : D) → IsToken (formats.print_3 d)
    pub print_int-IsToken : (i : I) → IsToken (formats.print_int i)

  -- A request that the line can hold.
  pub record IsSendable (q : StartRequest D I) : Type 0 where
    pub payload_small : q.payload < 2 ^ 63
    pub ports_small : (q.dst_port < 2 ^ 16) × (q.return_port < 2 ^ 16)
    pub epoch_small : q.epoch_packets < 2 ^ 64
    pub names_plain : IsToken q.cipher × IsToken q.dst_addr
    pub fits : length (request_fields formats q) ≤ 506
