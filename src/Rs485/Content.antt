-- ===== src/Rs485/Content.antt =====
-- What the parts of the store hold, valid or not, and how they follow from the bytes that came in.

use zephyr_can_converter_uni.Prelude.{
  ℕ, zero, suc, ◌≡◌, refl, ◌∙◌, List, [], ◌∷◌, Option, none, some, arith, take, inl, inr,
  Option-cases, sym, subst, length, ◌≤◌,
}
use zephyr_can_converter_uni.Proto.{Payload}
use zephyr_can_converter_uni.Rs485.{
  Link, MasterData, master_data_zero, Session, Store, store_payload, on_frame, on_frames, feed,
  feed_from, start,
}
use zephyr_can_converter_uni.Rs485.Stream.{feed_all, feed_from_lem, feed_from-suc}
use zephyr_can_converter_uni.Rs485.Latest.{Part, Held, held, frames_in, store-feed_all}

-- What a part of the store holds, whether it is valid or not.
abbrev pub content : (p : Part) → MasterData → Held p
content Part.measurements d = d.master_measurements
content Part.status d = d.master_status
content Part.values d = d.protium_values
content Part.operating_state d = d.protium_operating_state
content Part.faults d = d.master_faults

-- The value, or zero where there is none.
abbrev pub or_zero : (p : Part) → Option (Held p) → Held p
or_zero p none = content p master_data_zero
or_zero p (some x) = x

-- A part that is not valid holds zero.
abbrev pub IsClean : MasterData → Type 0
IsClean d = (p : Part) → content p d ≡ or_zero p (held p d)

zero-IsClean : IsClean master_data_zero
zero-IsClean Part.measurements = refl
zero-IsClean _ = refl

store_payload-IsClean : (x : Payload) (d : MasterData) → IsClean d → IsClean (store_payload x d)
unfolding store_payload
store_payload-IsClean x d c Part.measurements = ground (arith, c Part.measurements)
store_payload-IsClean x d c Part.status = ground (arith, c Part.status)
store_payload-IsClean x d c Part.values = ground (arith, c Part.values)
store_payload-IsClean x d c Part.operating_state = ground (arith, c Part.operating_state)
store_payload-IsClean x d c Part.faults = ground (arith, c Part.faults)

module _ (link : Link) where
  open link use {cobs, decode}

  on_frames-IsClean :
      (fs : List (List ℕ)) (st : Store)
      → IsClean st.master_data
      → IsClean (on_frames link fs st).master_data
  unfolding on_frames on_frame
  on_frames-IsClean [] st c = c
  on_frames-IsClean (f ∷ fs) st c = elim (Option-cases (decode f)) [
    | inl e ↦ rw (e, on_frames, on_frame) (on_frames-IsClean fs st c)
    | inr (m, e) ↦
        on_frames-IsClean fs (on_frame link f st)
          (rw (e, on_frame) (store_payload-IsClean m.payload st.master_data c))
  ]

  -- The store after some bytes since the start of the thread.
  abbrev pub stored : List ℕ → MasterData
  stored bs = (feed_all link bs (start link)).store.master_data

  pub stored-IsClean : (bs : List ℕ) → IsClean (stored bs)
  stored-IsClean bs =
      subst (λ (st : Store). IsClean st.master_data) (sym (store-feed_all link bs (start link)))
        (on_frames-IsClean (frames_in link cobs.init bs) (start link).store zero-IsClean)

  -- A packet that the loop gets through lies within its buffer.
  feed_from-le :
      (n : ℕ) (bytes : List ℕ) (s s' : Session link)
      → feed_from link n 0 bytes s ≡ some s'
      → n ≤ length bytes
  unfolding feed_from
  feed_from-le zero bytes s s' h = omega arith
  feed_from-le (suc n) [] s s' h = absurd (ground arith)
  feed_from-le (suc n) (b ∷ bytes) s s' h =
      let rest : n ≤ length bytes =
        feed_from-le n bytes (feed link b s) s'
          (sym (feed_from-suc link n 0 b bytes (feed link b s)) ∙ h) in
      omega arith

  -- What a packet feeds.
  pub feed_from-feed_all :
      (n : ℕ) (bytes : List ℕ) (s s' : Session link)
      → feed_from link n 0 bytes s ≡ some s'
      → s' ≡ feed_all link (take n bytes) s
  feed_from-feed_all n bytes s s' h =
      let fed = feed_from_lem link n bytes s (feed_from-le n bytes s s' h) in ground (arith, fed)
