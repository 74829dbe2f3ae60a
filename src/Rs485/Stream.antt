-- ===== src/Rs485/Stream.antt =====
-- The parser thread of src/can_converter_rs485.c against a stream of bytes without packets.
use zephyr_can_converter_uni.Prelude.{
  ℕ, zero, suc, ◌+◌, ◌≤◌, ◌≡◌, refl, ◌∙◌, List, [], ◌∷◌, ◌++◌, Option, none, some, get_elem?, take,
  length, inl, inr, Option-cases, arith,
}
use zephyr_can_converter_uni.Rs485.{
  Link, Packet, Session, feed, feed_from, parser_round, parser_rounds,
}

-- The filled part of each packet lies in its buffer.
abbrev pub InBounds : List (Option Packet) → Type 0
InBounds [] = Unit
InBounds (none ∷ ps) = InBounds ps
InBounds (some p ∷ ps) = (p.len ≤ length p.bytes) × InBounds ps

-- The bytes that came in, timeouts left out.
abbrev pub received : List (Option Packet) → List ℕ
received [] = []
received (none ∷ ps) = received ps
received (some p ∷ ps) = take p.len p.bytes ++ received ps

module _ (link : Link) where
  unfoldable pub feed_all : List ℕ → Session link → Session link
  feed_all [] s = s
  feed_all (b ∷ bs) s = feed_all bs (feed link b s)

  pub feed_all-append :
      (xs ys : List ℕ) (s : Session link) → feed_all (xs ++ ys) s ≡ feed_all ys (feed_all xs s)
  unfolding feed_all
  feed_all-append [] ys s = refl
  feed_all-append (x ∷ xs) ys s = feed_all-append xs ys (feed link x s)

  pub feed_from-suc :
      (n i b : ℕ) (bytes : List ℕ) (s : Session link)
      → feed_from link n (suc i) (b ∷ bytes) s ≡ feed_from link n i bytes s
  unfolding feed_from
  feed_from-suc zero i b bytes s = refl
  feed_from-suc (suc n) i b bytes s = elim (Option-cases (get_elem? bytes i)) [
    | inl e ↦ rw (e, feed_from)
    | inr (c, e) ↦
        let next : suc i + 1 ≡ suc (i + 1) = omega arith in
        rw (e, feed_from, next) (feed_from-suc n (i + 1) b bytes (feed link c s))
  ]

  -- The loop over a packet feeds its filled part.
  pub feed_from_lem :
      (n : ℕ) (bytes : List ℕ) (s : Session link)
      → n ≤ length bytes
      → feed_from link n 0 bytes s ≡ some (feed_all (take n bytes) s)
  unfolding feed_from feed_all
  feed_from_lem zero bytes s h = refl
  feed_from_lem (suc n) [] s h = absurd (omega arith)
  feed_from_lem (suc n) (b ∷ bytes) s h =
      feed_from-suc n 0 b bytes (feed link b s)
      ∙ feed_from_lem n bytes (feed link b s) (omega arith)

  -- While every packet lies in its buffer the thread never reads past one, and after any number of
  -- packets and timeouts its state is that of the received bytes fed one by one.
  pub parser_rounds-received :
      (ps : List (Option Packet)) (s : Session link)
      → InBounds ps
      → parser_rounds link ps s ≡ some (feed_all (received ps) s)
  unfolding parser_rounds parser_round feed_all
  parser_rounds-received [] s h = refl
  parser_rounds-received (none ∷ ps) s h = parser_rounds-received ps s h
  parser_rounds-received (some p ∷ ps) s h =
      rw
        (
          feed_from_lem p.len p.bytes s h.0,
          parser_rounds,
          feed_all-append (take p.len p.bytes) (received ps) s,
        )
        (parser_rounds-received ps (feed_all (take p.len p.bytes) s) h.1)
