-- ===== src/Wire.antt =====
-- The packet header of include/lr/worker.hpp: struct WireHdr, packed, in the byte order of the
-- supported hosts (x86-64 and aarch64, little-endian). A memcpy to and from the packet is
-- `encode` and `decode`.
pub mod Header
mod Tests
use linerate.Base.{ℕ, ◌+◌, ◌-◌, List, ◌∷◌, ◌++◌, get_or, take, drop}
use linerate.Base.Bytes.{le_bytes, le_value}

pub record WireHdr : Type 0 where
  pub magic : ℕ
  pub type : ℕ
  pub epoch : ℕ
  pub flags : ℕ
  pub seq : ℕ
  pub tsc : ℕ

-- enum WireType
abbrev pub wt_data : ℕ
wt_data = 1

abbrev pub lr_magic : ℕ
lr_magic = 0x4C525032

abbrev pub lr_hdr : ℕ
lr_hdr = 24

abbrev pub lr_tag : ℕ
lr_tag = 16

abbrev pub lr_max_payload : ℕ
lr_max_payload = 1472 - lr_hdr - lr_tag

unfoldable pub encode : WireHdr → List ℕ
encode h =
    le_bytes 4 h.magic
    ++ (h.type ∷ h.epoch ∷ (le_bytes 2 h.flags ++ (le_bytes 8 h.seq ++ le_bytes 8 h.tsc)))

unfoldable pub decode : List ℕ → WireHdr
decode p = record {
  magic = le_value (take 4 p);
  type = get_or p 4 0;
  epoch = get_or p 5 0;
  flags = le_value (take 2 (drop 6 p));
  seq = le_value (take 8 (drop 8 p));
  tsc = le_value (take 8 (drop 16 p));
}
