-- ===== src/System/Knowledge.antt =====
-- What the firmware knows of a kind of frame: whether the store is valid for it, and its counter.
use zephyr_can_converter_uni.Prelude.{
  ℕ, zero, suc, ◌+◌, ◌≡◌, Bool, true, List, [], ◌∷◌, Option, none, some, arith, get_elem?, inl, inr,
  Option-cases,
}
use zephyr_can_converter_uni.Proto.{Payload}
use zephyr_can_converter_uni.Platform.{Platform}
use zephyr_can_converter_uni.Rs485.{
  Link, MasterData, Packet, Session, Store, store_payload, on_frame, on_frames, feed, feed_from,
  parser_round,
}
use zephyr_can_converter_uni.Frames.Messages.{FrameKind, counter}
use zephyr_can_converter_uni.System.{Firmware}
use zephyr_can_converter_uni.Periodic.Sources.{message_of, is_some}

-- What is valid stays valid.
is_some-store_payload :
    (k : FrameKind) (x : Payload) (d : MasterData)
    → is_some (message_of k d) ≡ true
    → is_some (message_of k (store_payload x d)) ≡ true
unfolding store_payload
is_some-store_payload FrameKind.mcu_state x d h = ground arith
is_some-store_payload k x d h = ground arith

module _ (link : Link) where
  open link use {cobs, decode}

  abbrev Knows : FrameKind → Store → Type 0
  Knows k st = is_some (message_of k st.master_data) ≡ true

  on_frames-Knows :
      (k : FrameKind) (fs : List (List ℕ)) (st : Store)
      → Knows k st
      → Knows k (on_frames link fs st)
  unfolding on_frames on_frame
  on_frames-Knows k [] st h = h
  on_frames-Knows k (f ∷ fs) st h = elim (Option-cases (decode f)) [
    | inl e ↦ rw (e, on_frames, on_frame) (on_frames-Knows k fs st h)
    | inr (m, e) ↦
        on_frames-Knows k fs (on_frame link f st)
          (rw (e, on_frame) (is_some-store_payload k m.payload st.master_data h))
  ]

  feed_from-Knows :
      (k : FrameKind) (n i : ℕ) (bytes : List ℕ) (s s' : Session link)
      → feed_from link n i bytes s ≡ some s'
      → Knows k s.store
      → Knows k s'.store
  unfolding feed_from feed
  feed_from-Knows k zero i bytes s s' h v = ground arith
  feed_from-Knows k (suc n) i bytes s s' h v = elim (Option-cases (get_elem? bytes i)) [
    | inl e ↦ ground arith
    | inr (b, e) ↦
        feed_from-Knows k n (i + 1) bytes (feed link b s) s' (ground arith)
          (on_frames-Knows k (cobs.feed s.parser b).1 s.store v)
  ]

module _ (pf : Platform) (link : Link) where
  -- Whether the part of the store that a kind of frame is made of is valid.
  abbrev pub known : FrameKind → Firmware pf link → Bool
  known k s = is_some (message_of k s.session.store.master_data)

  -- How many frames of a kind were sent, modulo 2^32.
  abbrev pub count : FrameKind → Firmware pf link → ℕ
  count k s = counter k s.machine.can.tx.frame_counts

  -- Also over a round of the parser thread.
  pub parser_round-known :
      (k : FrameKind) (p : Option Packet) (s s' : Session link)
      → parser_round link p s ≡ some s'
      → Knows link k s.store
      → Knows link k s'.store
  unfolding parser_round
  parser_round-known k none s s' h v = ground arith
  parser_round-known k (some p) s s' h v = feed_from-Knows link k p.len 0 p.bytes s s' h v
