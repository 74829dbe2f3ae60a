-- ===== src/Frames/Delivery.antt =====
-- What `enqueue_frame` leaves in the queue, on every branch, and what every sender leaves there.
use zephyr_can_converter_uni.Prelude.{
  ℕ, zero, suc, ◌-◌, ◌≤◌, ◌<◌, ◌≡◌, refl, ap, ap₂, inl, inr, List, [], ◌∷◌, ◌++◌, arith, ltb,
  length, take, drop, replicate, u8, lt→ltb, le→ltb_false, Bool-cases,
}
use zephyr_can_converter_uni.Candef.{Codec}
use zephyr_can_converter_uni.Platform.{CanFrame, Platform, can_tx_depth}
use zephyr_can_converter_uni.Frames.{Tx, max_data, memcpy, enqueue_frame, pack_and_enqueue}

take-of_length : (n : ℕ) (xs : List ℕ) → length xs ≡ n → take n xs ≡ xs
take-of_length zero [] h = refl
take-of_length zero (x ∷ xs) h = absurd (omega arith)
take-of_length (suc n) [] h = refl
take-of_length (suc n) (x ∷ xs) h = ap (λ l. x ∷ l) (take-of_length n xs (omega arith))

drop-replicate : (k n : ℕ) (a : ℕ) → drop k (replicate n a) ≡ replicate (n - k) a
drop-replicate zero n a = let e : n - 0 ≡ n = omega arith in rw e
drop-replicate (suc k) zero a = let e : 0 - suc k ≡ 0 = omega arith in rw e
drop-replicate (suc k) (suc n) a =
    let e : suc n - suc k ≡ n - k = omega arith in rw e (drop-replicate k n a)

-- A whole buffer copied over zeros is padded by the zeros behind it.
memcpy-zeros :
    (n k : ℕ) (src : List ℕ)
    → length src ≡ k
    → memcpy (replicate n 0) src k ≡ src ++ replicate (n - k) 0
unfolding memcpy
memcpy-zeros n k src h = ap₂ ◌++◌ (take-of_length k src h) (drop-replicate k n 0)

module _ (pf : Platform) where
  open pf use {can_tx, can_frame_ide}

  -- The frames that wait to be sent.
  abbrev pub waiting : Tx pf → List CanFrame
  waiting tx = can_tx.contents tx.queue

  abbrev buffered_frame : ℕ → List ℕ → ℕ → CanFrame
  buffered_frame id bytes len = record {
    id = id;
    dlc = len;
    flags = can_frame_ide;
    bytes = memcpy (replicate max_data 0) bytes len;
  }

  -- The frame that carries the packed signals of `s`.
  abbrev pub packed_frame : {S : Type 0} → Codec S → S → CanFrame
  packed_frame c s = record {
    id = c.frame_id;
    dlc = c.len;
    flags = can_frame_ide;
    bytes = c.pack s ++ replicate (max_data - c.len) 0;
  }

  -- A buffer longer than a frame's data leaves the queue and the counters alone.
  pub enqueue_frame-too_long :
      (id : ℕ) (bytes : List ℕ) (len : ℕ) (tx : Tx pf)
      → max_data < len
      → enqueue_frame pf id bytes len tx ≡ tx
  unfolding enqueue_frame
  enqueue_frame-too_long id bytes len tx h = rw (lt→ltb max_data len h)

  pub waiting-enqueue_frame :
      (id : ℕ) (bytes : List ℕ) (len : ℕ) (tx : Tx pf)
      → len ≤ max_data
      → length (waiting tx) < can_tx_depth
      → waiting (enqueue_frame pf id bytes len tx) ≡ waiting tx ++ buffered_frame id bytes len ∷ []
  unfolding enqueue_frame
  waiting-enqueue_frame id bytes len tx fits room =
      rw (le→ltb_false max_data len fits) (can_tx.put_room tx.queue _ room).1

  -- A frame that finds the queue full is lost, whatever its length.
  pub waiting-enqueue_frame_full :
      (id : ℕ) (bytes : List ℕ) (len : ℕ) (tx : Tx pf)
      → can_tx_depth ≤ length (waiting tx)
      → waiting (enqueue_frame pf id bytes len tx) ≡ waiting tx
  unfolding enqueue_frame
  waiting-enqueue_frame_full id bytes len tx full = elim (Bool-cases (ltb max_data len)) [
    | inl long ↦ rw long
    | inr fits ↦ rw fits (can_tx.put_full tx.queue _ full).1
  ]

  pub frame_counts-enqueue_frame :
      (id : ℕ) (bytes : List ℕ) (len : ℕ) (tx : Tx pf)
      → (enqueue_frame pf id bytes len tx).frame_counts ≡ tx.frame_counts
  unfolding enqueue_frame
  frame_counts-enqueue_frame id bytes len tx = ground arith

  -- With room in the queue the packed frame is appended: the frame's identifier and length, the
  -- extended-frame flag, and the packed bytes padded by zeros.
  pub waiting-pack_and_enqueue :
      {S : Type 0} (c : Codec S) (s : S) (tx : Tx pf)
      → c.len ≤ max_data
      → length (waiting tx) < can_tx_depth
      → waiting (pack_and_enqueue pf c s tx) ≡ waiting tx ++ packed_frame c s ∷ []
  unfolding pack_and_enqueue
  waiting-pack_and_enqueue c s tx fits room =
      let same : u8 c.len ≡ c.len = omega arith in
      rw (same, waiting-enqueue_frame c.frame_id (c.pack s) c.len tx fits room)
        (rw (memcpy-zeros max_data c.len (c.pack s) (c.length-pack s)))

  pub waiting-pack_and_enqueue_full :
      {S : Type 0} (c : Codec S) (s : S) (tx : Tx pf)
      → can_tx_depth ≤ length (waiting tx)
      → waiting (pack_and_enqueue pf c s tx) ≡ waiting tx
  unfolding pack_and_enqueue
  waiting-pack_and_enqueue_full c s tx full =
      waiting-enqueue_frame_full c.frame_id (c.pack s) (u8 c.len) tx full

  pub frame_counts-pack_and_enqueue :
      {S : Type 0} (c : Codec S) (s : S) (tx : Tx pf)
      → (pack_and_enqueue pf c s tx).frame_counts ≡ tx.frame_counts
  unfolding pack_and_enqueue
  frame_counts-pack_and_enqueue c s tx =
      frame_counts-enqueue_frame c.frame_id (c.pack s) (u8 c.len) tx
