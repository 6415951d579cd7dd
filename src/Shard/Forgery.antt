-- ===== src/Shard/Forgery.antt =====
-- The window is moved before the packet is authenticated, so a forgery moves it too.
use Prim.Native.String.{String}
use linerate.Base.{
  ℕ, ◌+◌, ◌≤◌, ◌<◌, ◌≡◌, refl, ◌∙◌, ◌⊎◌, inl, inr, Bool, true, false, Option, none, some, List,
  length, take, drop, if◌then◌else◌, arith,
}
use linerate.Aead.{Aead}
use linerate.Keys.{Hkdf, for_epoch, nonce}
use linerate.Replay.{ReplayWindow, accept, advance}
use linerate.Wire.{decode, lr_magic, lr_hdr, lr_tag}
use linerate.Replay.Safety.{accept_ahead, accept_too_old, advance_fields}
use linerate.Shard.{
  u64, Shard, check_replay, count_auth_fail, store_plain, count_replay_drop, open_packet, process,
}

-- What a sender without the key can make: the right length and magic, any number.
abbrev pub Wellformed : List ℕ → Type 0
Wellformed p = (lr_hdr + lr_tag ≤ length p) × ((decode p).magic ≡ lr_magic)

module _ {Hist : Type 0} (s : Shard Hist) where
  -- The packet's epoch has no cipher, or its cipher rejects the tag.
  abbrev pub Rejects : List ℕ → Type 0
  Rejects p =
      (for_epoch s.keys (decode p).epoch ≡ none)
      ⊎ ((a : Aead) × (for_epoch s.keys (decode p).epoch ≡ some a)
          × (a.open_ct (nonce s.keys (decode p).epoch (decode p).seq) (take lr_hdr p)
                (drop lr_hdr p)
              ≡ none))

module _ {Hist : Type 0} (hkdf : Hkdf) (make_aead : String → List ℕ → Option Aead) (clock : ℕ → ℕ)
    (add_ticks : ℕ → Hist → Hist) where
  -- Of the staging buffer nothing is said.
  refused_packet :
      (s : Shard Hist) (p : List ℕ)
      → Rejects s p
      → (x : List ℕ) × (open_packet hkdf make_aead clock add_ticks s (decode p) p
          ≡ (count_auth_fail (record s { plain = x }), none))
  unfolding open_packet store_plain
  refused_packet s p (inl e) = (s.plain, rw (e, open_packet) refl)
  refused_packet s p (inr (a, e, f)) =
      let left =
        a.spill (nonce s.keys (decode p).epoch (decode p).seq) (take lr_hdr p) (drop lr_hdr p) in
      ((store_plain s left).plain, rw (e, f, open_packet) refl)

  in_window :
      (s : Shard Hist) (p : List ℕ) (w' : ReplayWindow) (ok : Bool)
      → check_replay s.replay (decode p).seq ≡ (some w', ok)
      → Wellformed p
      → process hkdf make_aead clock add_ticks s p ≡ (
          if ok
          then open_packet hkdf make_aead clock add_ticks
              (record s { replay = some w' })
              (decode p)
              p
          else (count_replay_drop (record s { replay = some w' }), none))
  unfolding process
  in_window s p w' ok e form = ground arith

  check_lem :
      (s : Shard Hist) (w w' : ReplayWindow) (seq : ℕ) (ok : Bool)
      → s.replay ≡ some w
      → accept w seq ≡ (w', ok)
      → check_replay s.replay seq ≡ (some w', ok)
  unfolding check_replay
  check_lem s w w' seq ok e f = ground arith

  -- A packet of the right length and magic that the cipher rejects, with a number ahead of the
  -- window, counts as an authentication failure and still moves the window to its number.
  pub forgery_moves_window :
      (s : Shard Hist) (w : ReplayWindow) (p : List ℕ)
      → s.replay ≡ some w
      → w.seen ≡ true
      → w.high < (decode p).seq
      → Wellformed p
      → Rejects s p
      → (x : List ℕ) × (process hkdf make_aead clock add_ticks s p ≡ (
        count_auth_fail (record s { replay = some (advance w (decode p).seq); plain = x }),
        none,
      ))
  forgery_moves_window s w p ew seen ahead form bad =
      let (x, e) = refused_packet (record s { replay = some (advance w (decode p).seq) }) p bad in
      (
        x,
        in_window s p (advance w (decode p).seq) true
              (check_lem s w (advance w (decode p).seq) (decode p).seq true ew
                (accept_ahead w (decode p).seq seen ahead))
              form
            ∙ e,
      )

  -- Where a window is in use: after a packet of the right length and magic that the cipher
  -- rejects, with a number ahead of the window, a second well-formed packet whose number is the
  -- window's width or more behind that number is dropped and counted as a replay, before any
  -- decryption, whoever sent it. The first counts as an authentication failure.
  pub forgery_shuts_out :
      (s : Shard Hist) (w : ReplayWindow) (p q : List ℕ)
      → s.replay ≡ some w
      → w.seen ≡ true
      → w.high < (decode p).seq
      → Wellformed p
      → Rejects s p
      → Wellformed q
      → (decode q).seq + w.width ≤ (decode p).seq
      → let s' = (process hkdf make_aead clock add_ticks s p).0 in
        let (s'', out) = process hkdf make_aead clock add_ticks s' q in
        (out ≡ none)
        × (s''.stats.replay_drop ≡ u64 (s.stats.replay_drop + 1))
        × (s''.stats.auth_fail ≡ u64 (s.stats.auth_fail + 1))
        × (s''.stats.packets ≡ s.stats.packets)
  unfolding count_auth_fail count_replay_drop
  forgery_shuts_out s w p q ew seen ahead form bad form' far =
      let (x, e) = forgery_moves_window s w p ew seen ahead form bad in
      rw e (
        rw
          (in_window (forged x) q _ false
            (check_lem (forged x) moved _ (decode q).seq false refl
              (accept_too_old moved (decode q).seq (now.2 ∙ seen) (omega (arith, now.0, now.1))))
            form')
          (refl, refl, refl, refl))
    where
      moved : ReplayWindow
      moved = advance w (decode p).seq

      now : (moved.high ≡ (decode p).seq) × (moved.width ≡ w.width) × (moved.seen ≡ w.seen)
      now = advance_fields w (decode p).seq

      forged : List ℕ → Shard Hist
      forged x = count_auth_fail (record s { replay = some moved; plain = x })
