-- ===== src/System/Gateway/Carried.antt =====
-- What the payloads in some bytes carried, and the lists that are made of it.
use zephyr_can_converter_uni.Prelude.{
  ℕ, ◌≡◌, ◌⊎◌, refl, ap, ◌∙◌, sym, Bool, List, [], ◌∷◌, ◌++◌, append_assoc, Option, some, arith,
  inl, inr, All, All-append, Bool-cases, Option-cases, ltb, length,
}
use zephyr_can_converter_uni.Platform.{CanFrame, can_tx_depth}
use zephyr_can_converter_uni.Proto.{Payload}
use zephyr_can_converter_uni.Rs485.{Link}
use zephyr_can_converter_uni.Rs485.Latest.{
  Part, Held, or_else, carried, last_carried, payloads, frames_in,
}
use zephyr_can_converter_uni.Frames.Messages.{FrameKind, Message}
use zephyr_can_converter_uni.Frames.Push.{push, push_all}
use zephyr_can_converter_uni.Periodic.Sources.{message_by}
use zephyr_can_converter_uni.Periodic.Schedule.{asked}

-- A payload of the history that alone leads to the message for this kind of frame.
pub record IsCarried (h : List Payload) (k : FrameKind) (m : Message) : Type 0 where
  pub payload : Payload
  pub before : List Payload
  pub after : List Payload
  pub received : h ≡ before ++ payload ∷ after
  pub leads : message_by k (λ p. carried p payload) ≡ some m

message_by-either :
    (k : FrameKind) (new old : (p : Part) → Option (Held p)) (m : Message)
    → message_by k (λ p. or_else (new p) (old p)) ≡ some m
    → (message_by k new ≡ some m) ⊎ (message_by k old ≡ some m)
message_by-either FrameKind.mcu_state new old m h = ground arith
message_by-either k new old m h = ground arith

-- What the last data leads to was carried by one payload.
pub last_carried-IsCarried :
    (k : FrameKind) (h : List Payload) (m : Message)
    → message_by k (λ p. last_carried p h) ≡ some m
    → IsCarried h k m
last_carried-IsCarried FrameKind.mcu_state [] m e = absurd (ground arith)
last_carried-IsCarried k [] m e = absurd (ground arith)
last_carried-IsCarried k (x ∷ xs) m e =
    elim (message_by-either k (λ p. last_carried p xs) (λ p. carried p x) m e) [
      | inl later ↦
          let c = last_carried-IsCarried k xs m later in
          record {
            payload = c.payload;
            before = x ∷ c.before;
            after = c.after;
            received = ap (λ l. x ∷ l) c.received;
            leads = c.leads;
          }
      | inr here ↦ record { payload = x; before = []; after = xs; received = refl; leads = here }
    ]

pub asked-All :
    (P : Message → Type 0) (is_asked : FrameKind → Bool) (part : (p : Part) → Option (Held p))
    (ks : List FrameKind)
    → ((k : FrameKind) (m : Message) → message_by k part ≡ some m → P m)
    → All P (asked is_asked part ks)
asked-All P is_asked part [] each = tt
asked-All P is_asked part (k ∷ ks) each =
    let rest = asked-All P is_asked part ks each in
    elim (Bool-cases (is_asked k)) [
      | inr no_turn ↦ rw (no_turn, asked) rest
      | inl turn ↦ elim (Option-cases (message_by k part)) [
        | inl e ↦ rw (turn, e, asked) rest
        | inr (m, e) ↦ rw (turn, e, asked) (each k m e, rest)
      ]
    ]

push-All :
    (P : CanFrame → Type 0) (q : List CanFrame) (f : CanFrame) → All P q → P f → All P (push q f)
push-All P q f all here = elim (Bool-cases (ltb (length q) can_tx_depth)) [
  | inl room ↦ rw room (All-append P q (f ∷ []) all (here, tt))
  | inr full ↦ rw full all
]

pub push_all-All :
    (P : CanFrame → Type 0) (fs q : List CanFrame) → All P q → All P fs → All P (push_all fs q)
push_all-All P [] q all new = all
push_all-All P (f ∷ fs) q all new = push_all-All P fs (push q f) (push-All P q f all new.0) new.1

pub All-map :
    (P Q : CanFrame → Type 0) (fs : List CanFrame)
    → ((f : CanFrame) → P f → Q f)
    → All P fs
    → All Q fs
All-map P Q [] each all = tt
All-map P Q (f ∷ fs) each all = (each f all.0, All-map P Q fs each all.1)

module _ (link : Link) where
  open link use {cobs, decode}

  -- Where the parser stands after some bytes.
  abbrev pub parser_after : cobs.Parser → List ℕ → cobs.Parser
  parser_after q [] = q
  parser_after q (b ∷ bs) = parser_after (cobs.feed q b).0 bs

  pub frames_in-append :
      (q : cobs.Parser) (xs ys : List ℕ)
      → frames_in link q (xs ++ ys) ≡ frames_in link q xs ++ frames_in link (parser_after q xs) ys
  frames_in-append q [] ys = refl
  frames_in-append q (x ∷ xs) ys =
      ap (λ l. (cobs.feed q x).1 ++ l) (frames_in-append (cobs.feed q x).0 xs ys)
      ∙ sym (
          append_assoc (cobs.feed q x).1 (frames_in link (cobs.feed q x).0 xs)
            (frames_in link (parser_after (cobs.feed q x).0 xs) ys))

  pub payloads-append :
      (xs ys : List (List ℕ)) → payloads link (xs ++ ys) ≡ payloads link xs ++ payloads link ys
  payloads-append [] ys = refl
  payloads-append (x ∷ xs) ys = elim (Option-cases (decode x)) [
    | inl e ↦ rw (e, payloads) (payloads-append xs ys)
    | inr (m, e) ↦ rw (e, payloads) (ap (λ l. m.payload ∷ l) (payloads-append xs ys))
  ]
