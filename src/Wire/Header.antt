-- ===== src/Wire/Header.antt =====
-- The header survives the wire.
use linerate.Base.{ℕ, ◌^◌, ◌<◌, ◌≡◌, refl, List, ◌++◌, arith, length, take, drop}
use linerate.Base.Bytes.{le_bytes, le_value-le_bytes}
use linerate.Wire.{WireHdr, encode, decode, lr_hdr}

-- Every field fits its width.
pub record IsHeader (h : WireHdr) : Type 0 where
  pub magic_fits : h.magic < 256 ^ 4
  pub flags_fits : h.flags < 256 ^ 2
  pub seq_fits : h.seq < 256 ^ 8
  pub tsc_fits : h.tsc < 256 ^ 8

pub length-encode : (h : WireHdr) → length (encode h) ≡ lr_hdr
unfolding encode le_bytes
length-encode h = refl

pub take-encode : (h : WireHdr) (rest : List ℕ) → take lr_hdr (encode h ++ rest) ≡ encode h
unfolding encode le_bytes
take-encode h rest = refl

pub drop-encode : (h : WireHdr) (rest : List ℕ) → drop lr_hdr (encode h ++ rest) ≡ rest
unfolding encode le_bytes
drop-encode h rest = refl

-- A header whose fields fit their widths is read back from the first 24 bytes of a packet.
pub decode-encode : (h : WireHdr) (rest : List ℕ) → IsHeader h → decode (encode h ++ rest) ≡ h
unfolding encode decode le_bytes
decode-encode h rest v = ground (
  arith,
  le_value-le_bytes 4 h.magic,
  le_value-le_bytes 2 h.flags,
  le_value-le_bytes 8 h.seq,
  le_value-le_bytes 8 h.tsc,
)

pub epoch-encode : (h : WireHdr) (rest : List ℕ) → (decode (encode h ++ rest)).epoch ≡ h.epoch
unfolding encode decode le_bytes
epoch-encode h rest = refl
