-- ===== src/Wire/Tests.antt =====
-- The header at a concrete value.
use linerate.Base.{◌≡◌, [], ◌∷◌, ◌++◌, arith}
use linerate.Wire.{WireHdr, encode, decode, lr_magic, wt_data}
use linerate.Wire.Header.{IsHeader, decode-encode}

abbrev data_header : WireHdr
data_header = record {
  magic = lr_magic;
  type = wt_data;
  epoch = 3;
  flags = 0;
  seq = 0x0102_0304_0506;
  tsc = 77;
}

data_header-IsHeader : IsHeader data_header
data_header-IsHeader = record {
  magic_fits = omega arith;
  flags_fits = omega arith;
  seq_fits = omega arith;
  tsc_fits = omega arith;
}

decode-encode_example : decode (encode data_header ++ (8 ∷ 9 ∷ [])) ≡ data_header
decode-encode_example = decode-encode data_header (8 ∷ 9 ∷ []) data_header-IsHeader
