-- ===== src/System/Writers/Joined.antt =====
-- What was sent in two stretches of time, one after the other.
use zephyr_can_converter_uni.Prelude.{◌≡◌, refl, sym, ap, ◌∙◌, List, [], ◌∷◌, ◌++◌, append_assoc}
use zephyr_can_converter_uni.Platform.{CanFrame, Platform}
use zephyr_can_converter_uni.Frames.Messages.{Message}
use zephyr_can_converter_uni.Frames.Push.{frame_of, frames_of}
use zephyr_can_converter_uni.System.Writers.{Interleaves, Shared, queue_of, IsMerged}

module _ (pf : Platform) where
  Interleaves-append :
      {xs ys zs xs' ys' zs' : List CanFrame}
      → Interleaves xs ys zs
      → Interleaves xs' ys' zs'
      → Interleaves (xs ++ xs') (ys ++ ys') (zs ++ zs')
  Interleaves-append Interleaves.neither later = later
  Interleaves-append (Interleaves.left x first) later =
      Interleaves.left x (Interleaves-append first later)
  Interleaves-append (Interleaves.right y first) later =
      Interleaves.right y (Interleaves-append first later)

  pub frames_of-append :
      (xs ys : List Message) → frames_of pf (xs ++ ys) ≡ frames_of pf xs ++ frames_of pf ys
  frames_of-append [] ys = refl
  frames_of-append (x ∷ xs) ys = ap (λ l. frame_of pf x ∷ l) (frames_of-append xs ys)

  pub joined :
      (q m m' h h' q' q'' : List CanFrame)
      → q ++ m ≡ h ++ q'
      → q' ++ m' ≡ h' ++ q''
      → q ++ (m ++ m') ≡ (h ++ h') ++ q''
  joined q m m' h h' q' q'' e e' =
      sym (append_assoc q m m')
      ∙ (ap (λ l. l ++ m') e
          ∙ (append_assoc h q' m' ∙ (ap (λ l. h ++ l) e' ∙ sym (append_assoc h h' q''))))

  pub IsMerged-then :
      (s t u : Shared pf) (h h' : List CanFrame)
      → IsMerged pf s t h
      → IsMerged pf t u h'
      → IsMerged pf s u (h ++ h')
  IsMerged-then s t u h h' a b = record {
    from_periodic = a.from_periodic ++ b.from_periodic;
    from_button = a.from_button ++ b.from_button;
    merged = a.merged ++ b.merged;
    rest_periodic =
        a.rest_periodic
        ∙ (ap (λ l. a.from_periodic ++ l) b.rest_periodic
            ∙ sym (append_assoc a.from_periodic b.from_periodic u.periodic));
    rest_button =
        a.rest_button
        ∙ (ap (λ l. a.from_button ++ l) b.rest_button
            ∙ sym (append_assoc a.from_button b.from_button u.button));
    in_order =
        rw
          (
            frames_of-append a.from_periodic b.from_periodic,
            frames_of-append a.from_button b.from_button,
          )
          (Interleaves-append a.in_order b.in_order);
    conserved =
        joined (queue_of pf s) a.merged b.merged h h' (queue_of pf t) (queue_of pf u) a.conserved
          b.conserved;
  }
