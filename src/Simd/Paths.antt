-- ===== src/Simd/Paths.antt =====
-- The run-time dispatch of src/core/simd_crypto.c: which version of each cipher runs. The target
-- stands for the preprocessor's branches, and what the processor reports is a parameter.
pub mod Masks
use Prim.Native.String.{String}
use linerate.Base.{Bool, true, false, ◌&&◌, ◌||◌, Option, none, some, if◌then◌else◌}

-- `arm_crypto` is AArch64 with __ARM_FEATURE_CRYPTO, `arm` AArch64 without.
pub data Target : Type 0 where
  x86 : Target
  arm_crypto : Target
  arm : Target
  other : Target

-- PATH_PORTABLE, PATH_X86, PATH_ARM.
pub data SimdPath : Type 0 where
  portable : SimdPath
  x86 : SimdPath
  arm : SimdPath

abbrev pub on_x86 : Target → Bool
on_x86 Target.x86 = true
on_x86 _ = false

abbrev pub on_arm : Target → Bool
on_arm Target.arm_crypto = true
on_arm Target.arm = true
on_arm _ = false

-- What cpu_has_aes_clmul, cpu_has_avx2 and cpu_has_neon report.
pub record Cpu : Type 0 where
  pub aes_clmul : Bool
  pub avx2 : Bool
  pub neon : Bool

-- The static variables. A path of `none` is -1, not yet resolved.
pub record Globals : Type 0 where
  pub force_portable : Bool
  pub mask_aes_accel : Bool
  pub gcm_path : Option SimdPath
  pub chap_path : Option SimdPath

abbrev pub at_start : Globals
at_start = record {
  force_portable = false;
  mask_aes_accel = false;
  gcm_path = none;
  chap_path = none;
}

abbrev pub if_supported : Bool → SimdPath → SimdPath
if_supported has p = if has then p else SimdPath.portable

module _ (t : Target) (cpu : Cpu) where
  -- The paths that resolve_paths assigns.
  abbrev pub gcm_resolved : SimdPath
  gcm_resolved = elim t [
    | Target.x86 ↦ if_supported cpu.aes_clmul SimdPath.x86
    | Target.arm_crypto ↦ if_supported cpu.aes_clmul SimdPath.arm
    | Target.arm ↦ SimdPath.portable
    | Target.other ↦ SimdPath.portable
  ]

  abbrev pub chap_resolved : SimdPath
  chap_resolved = elim t [
    | Target.x86 ↦ if_supported cpu.avx2 SimdPath.x86
    | Target.arm_crypto ↦ if_supported cpu.neon SimdPath.arm
    | Target.arm ↦ if_supported cpu.neon SimdPath.arm
    | Target.other ↦ SimdPath.portable
  ]

  assign_paths : Globals → Globals
  assign_paths g = record g { gcm_path = some gcm_resolved; chap_path = some chap_resolved }

  unfoldable pub resolve_paths : Globals → Globals
  unfolding assign_paths
  resolve_paths g = elim g.gcm_path [
    | none ↦ assign_paths g
    | some p ↦ elim g.chap_path [ none ↦ assign_paths g | some q ↦ g ]
  ]

  resolved : Option SimdPath → SimdPath
  resolved none = SimdPath.portable
  resolved (some p) = p

  -- gcm_path and chap_path: the variables after the call, and the path. `resolved` reads a variable
  -- that is resolved by then.
  unfoldable pub gcm_path : Globals → Globals × SimdPath
  unfolding resolved
  gcm_path g =
      let g' = resolve_paths g in
      (
        g',
        if g'.force_portable || g'.mask_aes_accel then SimdPath.portable else resolved g'.gcm_path,
      )

  unfoldable pub chap_path : Globals → Globals × SimdPath
  unfolding resolved
  chap_path g =
      let g' = resolve_paths g in
      (g', if g'.force_portable then SimdPath.portable else resolved g'.chap_path)

  unfoldable pub lr_simd_gcm_backend : Globals → String
  lr_simd_gcm_backend g = elim ((gcm_path g).1) [
    | SimdPath.x86 ↦ "aesni+pclmulqdq"
    | SimdPath.arm ↦ "armv8-aes+pmull"
    | SimdPath.portable ↦ "portable-c"
  ]

  unfoldable pub lr_simd_chap_backend : Globals → String
  lr_simd_chap_backend g = elim ((chap_path g).1) [
    | SimdPath.x86 ↦ "avx2"
    | SimdPath.arm ↦ "neon"
    | SimdPath.portable ↦ "portable-c"
  ]

unfoldable pub lr_simd_force_portable : Bool → Globals → Globals
lr_simd_force_portable on g = record g { force_portable = on }

unfoldable pub lr_simd_mask_aes_accel : Bool → Globals → Globals
lr_simd_mask_aes_accel on g = record g { mask_aes_accel = on }
