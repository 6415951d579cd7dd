-- ===== src/Simd/Paths/Masks.antt =====
-- What the two switches do to the paths, whatever the order of the calls.
use linerate.Base.{
  ◌≡◌, subst, ◌⊎◌, inl, inr, refl, Bool, false, ◌||◌, none, some, List, [], ◌∷◌, if◌then◌else◌,
  arith,
}
use linerate.Simd.Paths.{
  Target, SimdPath, Cpu, Globals, at_start, gcm_resolved, chap_resolved, resolve_paths, gcm_path,
  chap_path, lr_simd_force_portable, lr_simd_mask_aes_accel,
}

-- A call of the interface that reads or writes the static variables.
pub data Call : Type 0 where
  force : Bool → Call
  mask : Bool → Call
  ask_gcm : Call
  ask_chap : Call

module _ (t : Target) (cpu : Cpu) where
  abbrev pub run_call : Call → Globals → Globals
  run_call (force on) g = lr_simd_force_portable on g
  run_call (mask on) g = lr_simd_mask_aes_accel on g
  run_call ask_gcm g = (gcm_path t cpu g).0
  run_call ask_chap g = (chap_path t cpu g).0

  abbrev pub run : List Call → Globals → Globals
  run [] g = g
  run (c ∷ calls) g = run calls (run_call c g)

-- The last setting of each switch, given the one before the calls.
abbrev pub forced : List Call → Bool → Bool
forced [] b = b
forced (force on ∷ calls) b = forced calls on
forced (mask on ∷ calls) b = forced calls b
forced (ask_gcm ∷ calls) b = forced calls b
forced (ask_chap ∷ calls) b = forced calls b

abbrev pub masked : List Call → Bool → Bool
masked [] b = b
masked (force on ∷ calls) b = masked calls b
masked (mask on ∷ calls) b = masked calls on
masked (ask_gcm ∷ calls) b = masked calls b
masked (ask_chap ∷ calls) b = masked calls b

module _ (t : Target) (cpu : Cpu) where
  -- No path is resolved yet, or both are as the processor gives them.
  abbrev Fits : Globals → Type 0
  Fits g =
      ((g.gcm_path ≡ none) × (g.chap_path ≡ none))
      ⊎ ((g.gcm_path ≡ some (gcm_resolved t cpu)) × (g.chap_path ≡ some (chap_resolved t cpu)))

  run_call-Fits : (c : Call) (g : Globals) → Fits g → Fits (run_call t cpu c g)
  unfolding resolve_paths gcm_path chap_path lr_simd_force_portable lr_simd_mask_aes_accel
  run_call-Fits (force on) g h = h
  run_call-Fits (mask on) g h = h
  run_call-Fits ask_gcm g (inl h) = inr (rw h.0 (refl, refl))
  run_call-Fits ask_gcm g (inr h) = ground arith
  run_call-Fits ask_chap g (inl h) = inr (rw h.0 (refl, refl))
  run_call-Fits ask_chap g (inr h) = ground arith

  -- The paths that a call finds, by the two switches.
  abbrev pub Found : Globals → Bool → Bool → Type 0
  Found g f m =
      ((gcm_path t cpu g).1 ≡ (if f || m then SimdPath.portable else gcm_resolved t cpu))
      × ((chap_path t cpu g).1 ≡ (if f then SimdPath.portable else chap_resolved t cpu))

  found : (g : Globals) → Fits g → Found g g.force_portable g.mask_aes_accel
  unfolding resolve_paths gcm_path chap_path
  found g (inl h) = rw h.0 (refl, refl)
  found g (inr h) = rw (h.0, h.1) (ground arith)

  asked :
      (g : Globals)
      → Fits g
      → ((resolve_paths t cpu g).force_portable ≡ g.force_portable)
        × ((resolve_paths t cpu g).mask_aes_accel ≡ g.mask_aes_accel)
  unfolding resolve_paths
  asked g (inl h) = rw h.0 (refl, refl)
  asked g (inr h) = rw (h.0, h.1) (refl, refl)

  settings :
      (calls : List Call) (x g' g : Globals)
      → g'.force_portable ≡ g.force_portable
      → g'.mask_aes_accel ≡ g.mask_aes_accel
      → Found x (forced calls g'.force_portable) (masked calls g'.mask_aes_accel)
      → Found x (forced calls g.force_portable) (masked calls g.mask_aes_accel)
  settings calls x g' g f m r =
      subst (λ b. Found x (forced calls b) (masked calls g.mask_aes_accel)) f
        (subst (λ b. Found x (forced calls g'.force_portable) (masked calls b)) m r)

  run-Found :
      (calls : List Call) (g : Globals)
      → Fits g
      → Found (run t cpu calls g) (forced calls g.force_portable) (masked calls g.mask_aes_accel)
  unfolding gcm_path chap_path lr_simd_force_portable lr_simd_mask_aes_accel
  run-Found [] g h = found g h
  run-Found (force on ∷ calls) g h = run-Found calls _ h
  run-Found (mask on ∷ calls) g h = run-Found calls _ h
  run-Found (ask_gcm ∷ calls) g h =
      let g' = resolve_paths t cpu g in
      settings calls (run t cpu calls g') g' g (asked g h).0 (asked g h).1
        (run-Found calls g' (run_call-Fits ask_gcm g h))
  run-Found (ask_chap ∷ calls) g h =
      let g' = resolve_paths t cpu g in
      settings calls (run t cpu calls g') g' g (asked g h).0 (asked g h).1
        (run-Found calls g' (run_call-Fits ask_chap g h))

  -- After any calls from the start, the GCM path is the portable one where either switch was last
  -- set, and else the processor's; the ChaCha path is the portable one where the force switch was
  -- last set, and else the processor's, whatever the mask.
  pub run_paths :
      (calls : List Call)
      → Found (run t cpu calls at_start) (forced calls false) (masked calls false)
  run_paths calls = run-Found calls at_start (inl (refl, refl))
