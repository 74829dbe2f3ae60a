-- ===== src/Rs485/Latest.antt =====
-- The store of src/can_converter_rs485.c against its specification, the last payload for each part.
use zephyr_can_converter_uni.Prelude.{
  ℕ, ◌+◌, ◌≡◌, ◌<◌, refl, ap, ◌∙◌, sym, Bool, List, [], ◌∷◌, ◌++◌, Option, none, some,
  if◌then◌else◌, arith, u32, length, Option-cases, inl, inr,
}
use zephyr_can_converter_uni.Proto.{
  MasterMeasurements, MasterStatus, ProtiumValues, ProtiumOperatingState, MasterFaults, Payload,
  MasterFrame,
}
use zephyr_can_converter_uni.Rs485.{
  MasterData, master_data_zero, Link, Store, Session, Packet, start, parser_rounds, store_payload,
  on_frame, on_frames, feed,
}
use zephyr_can_converter_uni.Rs485.Stream.{feed_all, InBounds, received, parser_rounds-received}

-- The five parts of the store, and what each of them holds.
pub data Part : Type 0 where
  measurements status values operating_state faults : Part

abbrev pub Held : Part → Type 0
Held Part.measurements = MasterMeasurements
Held Part.status = MasterStatus
Held Part.values = ProtiumValues
Held Part.operating_state = ProtiumOperatingState
Held Part.faults = MasterFaults

-- What a payload carries for a part.
abbrev pub carried : (p : Part) → Payload → Option (Held p)
carried Part.measurements (Payload.master_measurements m) = some m
carried Part.status (Payload.master_status s) = some s
carried Part.values (Payload.protium_values v) = some v
carried Part.operating_state (Payload.protium_operating_state msg) = some msg.current_state
carried Part.faults (Payload.master_faults f) = some f
carried _ _ = none

abbrev valid {ℓ} : {A : Type ℓ} → Bool → A → Option A
valid b a = if b then some a else none

-- What a reader of the store finds in a part.
abbrev pub held : (p : Part) → MasterData → Option (Held p)
held Part.measurements d = valid d.master_measurements_valid d.master_measurements
held Part.status d = valid d.master_status_valid d.master_status
held Part.values d = valid d.protium_values_valid d.protium_values
held Part.operating_state d = valid d.protium_operating_state_valid d.protium_operating_state
held Part.faults d = valid d.master_faults_valid d.master_faults

abbrev pub or_else {ℓ} : {A : Type ℓ} → Option A → Option A → Option A
or_else none o = o
or_else (some a) o = some a

-- The last payload of the history that carries something for the part.
abbrev pub last_carried : (p : Part) → List Payload → Option (Held p)
last_carried p [] = none
last_carried p (x ∷ xs) = or_else (last_carried p xs) (carried p x)

or_else_assoc {ℓ} :
    {A : Type ℓ} (a b c : Option A) → or_else (or_else a b) c ≡ or_else a (or_else b c)
or_else_assoc none b c = refl
or_else_assoc (some a) b c = refl

-- A payload replaces its own part and leaves the other parts as they were.
held-store_payload :
    (p : Part) (x : Payload) (d : MasterData)
    → held p (store_payload x d) ≡ or_else (carried p x) (held p d)
unfolding store_payload
held-store_payload Part.measurements x d = ground arith
held-store_payload Part.status x d = ground arith
held-store_payload Part.values x d = ground arith
held-store_payload Part.operating_state x d = ground arith
held-store_payload Part.faults x d = ground arith

-- The store after a frame that was decoded.
abbrev accepted : MasterFrame → Store → Store
accepted m st = record {
  master_data = store_payload m.payload st.master_data;
  frames_received = u32 (st.frames_received + 1);
}

held-zero : (p : Part) → held p master_data_zero ≡ none
held-zero Part.measurements = refl
held-zero _ = refl

or_else-none {ℓ} : {A : Type ℓ} (a : Option A) → or_else a none ≡ a
or_else-none none = refl
or_else-none (some a) = refl

module _ (link : Link) where
  open link use {cobs, decode}

  -- The payloads that NanoPB decodes out of the frames, in order; a frame that it refuses is skipped.
  abbrev pub payloads : List (List ℕ) → List Payload
  payloads [] = []
  payloads (f ∷ fs) = elim (decode f) [ none ↦ payloads fs | some m ↦ m.payload ∷ payloads fs ]

  -- The frames that the COBS parser finds in a stream of bytes.
  abbrev pub frames_in : cobs.Parser → List ℕ → List (List ℕ)
  frames_in q [] = []
  frames_in q (b ∷ bs) = (cobs.feed q b).1 ++ frames_in (cobs.feed q b).0 bs

  on_frames-append :
      (xs ys : List (List ℕ)) (st : Store)
      → on_frames link (xs ++ ys) st ≡ on_frames link ys (on_frames link xs st)
  unfolding on_frames
  on_frames-append [] ys st = refl
  on_frames-append (x ∷ xs) ys st = on_frames-append xs ys (on_frame link x st)

  -- Feeding a stream is handling the frames in it.
  pub store-feed_all :
      (bs : List ℕ) (s : Session link)
      → (feed_all link bs s).store ≡ on_frames link (frames_in s.parser bs) s.store
  unfolding feed_all feed on_frames
  store-feed_all [] s = refl
  store-feed_all (b ∷ bs) s =
      store-feed_all bs (feed link b s)
      ∙ sym (
          on_frames-append (cobs.feed s.parser b).1 (frames_in (cobs.feed s.parser b).0 bs) s.store)

  -- After any frames each part of the store holds what the last decodable frame for it carried, or
  -- what it held before if there was none.
  pub held-on_frames :
      (p : Part) (fs : List (List ℕ)) (st : Store)
      → held p (on_frames link fs st).master_data
        ≡ or_else (last_carried p (payloads fs)) (held p st.master_data)
  unfolding on_frames on_frame
  held-on_frames p [] st = refl
  held-on_frames p (f ∷ fs) st = elim (Option-cases (decode f)) [
    | inl e ↦ rw (e, on_frames, on_frame, payloads) (held-on_frames p fs st)
    | inr (m, e) ↦
        let st' = accepted m st in
        rw (e, on_frames, on_frame, payloads)
          (held-on_frames p fs st'
            ∙ (ap (or_else (last_carried p (payloads fs)))
                  (held-store_payload p m.payload st.master_data)
                ∙ sym (
                    or_else_assoc (last_carried p (payloads fs)) (carried p m.payload)
                      (held p st.master_data))))
  ]

  -- The counter of frames counts the decodable ones, modulo 2^32, unknown payloads included.
  pub frames_received-on_frames :
      (fs : List (List ℕ)) (st : Store)
      → u32 (on_frames link fs st).frames_received ≡ u32 (st.frames_received + length (payloads fs))
  unfolding on_frames on_frame
  frames_received-on_frames [] st = omega arith
  frames_received-on_frames (f ∷ fs) st = elim (Option-cases (decode f)) [
    | inl e ↦ rw (e, on_frames, on_frame, payloads) (frames_received-on_frames fs st)
    | inr (m, e) ↦
        rw (e, on_frames, on_frame, payloads)
          (omega (arith, frames_received-on_frames fs (accepted m st)))
  ]

  on_frames-lt :
      (fs : List (List ℕ)) (st : Store)
      → st.frames_received < 4294967296
      → (on_frames link fs st).frames_received < 4294967296
  unfolding on_frames on_frame
  on_frames-lt [] st h = h
  on_frames-lt (f ∷ fs) st h = elim (Option-cases (decode f)) [
    | inl e ↦ rw (e, on_frames, on_frame) (on_frames-lt fs st h)
    | inr (m, e) ↦ rw (e, on_frames, on_frame) (on_frames-lt fs (accepted m st) (omega arith))
  ]

  -- A part is valid after some bytes since the start of the thread if a decodable frame in them was
  -- for it, and holds what the last one carried.
  pub held-feed_all :
      (p : Part) (bs : List ℕ)
      → held p (feed_all link bs (start link)).store.master_data
        ≡ last_carried p (payloads (frames_in cobs.init bs))
  held-feed_all p bs =
      let fs = frames_in cobs.init bs in
      rw (store-feed_all bs (start link)) (
        held-on_frames p fs (start link).store
        ∙ (ap (or_else (last_carried p (payloads fs))) (held-zero p) ∙ or_else-none _))

  -- The receive path as a whole. From the start of the thread, after any packets and timeouts, each
  -- packet within its buffer: the thread is still running, each part of the store holds what the last
  -- decodable frame for it in the received bytes carried (and is not valid if there was none), and
  -- `rs485_frames_received` is the number of decodable frames modulo 2^32.
  pub parser_rounds-latest :
      (ps : List (Option Packet))
      → InBounds ps
      → let history = payloads (frames_in cobs.init (received ps)) in
        (s : Session link) × (parser_rounds link ps (start link) ≡ some s)
        × ((p : Part) → held p s.store.master_data ≡ last_carried p history)
        × (s.store.frames_received ≡ u32 (length history))
  parser_rounds-latest ps h = (
    last,
    parser_rounds-received link ps (start link) h,
    (λ p. held-feed_all p (received ps)),
    rw run (
        omega (
          arith,
          frames_received-on_frames fs (start link).store,
          on_frames-lt fs (start link).store,
        )),
  )
    where
      last : Session link
      last = feed_all link (received ps) (start link)

      fs : List (List ℕ)
      fs = frames_in cobs.init (received ps)

      run : last.store ≡ on_frames link fs (start link).store
      run = store-feed_all (received ps) (start link)
