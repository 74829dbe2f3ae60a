-- ===== src/Frames/Race.antt =====
-- The increment of a counter of src/can_converter_frames.c in finer steps. `frame_counts` is neither
-- atomic nor under a mutex, and both the periodic thread and the handler of the test button increment
-- it, so `frame_counts.<kind>++` is a load, and later a store of what was loaded plus one.
pub mod Bounds
use zephyr_can_converter_uni.Prelude.{
  ℕ, zero, suc, ◌+◌, ◌≡◌, refl, ap, ◌∙◌, List, [], ◌∷◌, ◌++◌, Option, none, some, arith, u32,
  length,
}

pub data Writer : Type 0 where
  periodic button : Writer

-- The counter in memory, and what each writer has loaded and not yet stored.
pub record Cell : Type 0 where
  pub stored : ℕ
  pub in_periodic : Option ℕ
  pub in_button : Option ℕ

pub data Access : Type 0 where
  load : Writer → Access
  store : Writer → Access

-- A step; `none` where the writer is not at this point of its increment.
unfoldable pub step : Access → Cell → Option Cell
step (load periodic) c = elim c.in_periodic [
  | none ↦ some (record c { in_periodic = some c.stored })
  | some n ↦ none
]
step (load button) c = elim c.in_button [
  | none ↦ some (record c { in_button = some c.stored })
  | some n ↦ none
]
step (store periodic) c = elim c.in_periodic [
  | none ↦ none
  | some n ↦ some (record c { stored = u32 (n + 1); in_periodic = none })
]
step (store button) c = elim c.in_button [
  | none ↦ none
  | some n ↦ some (record c { stored = u32 (n + 1); in_button = none })
]

unfoldable pub run : List Access → Cell → Option Cell
unfolding step
run [] c = some c
run (a ∷ rest) c = elim (step a c) [ none ↦ none | some c' ↦ run rest c' ]

-- No increment is under way, and the counter is n.
abbrev pub at_rest : ℕ → Cell
at_rest n = record { stored = n; in_periodic = none; in_button = none }

-- The whole increments of some writers, one after the other.
abbrev pub increments : List Writer → List Access
increments [] = []
increments (w ∷ ws) = load w ∷ store w ∷ increments ws

-- Increments that do not overlap leave the counter at `stored_after`.
abbrev pub stored_after : List Writer → ℕ → ℕ
stored_after [] n = n
stored_after (w ∷ ws) n = stored_after ws (u32 (n + 1))

run-increments :
    (ws : List Writer) (n : ℕ)
    → run (increments ws) (at_rest n) ≡ some (at_rest (stored_after ws n))
unfolding run
run-increments [] n = refl
run-increments (periodic ∷ ws) n = run-increments ws (u32 (n + 1))
run-increments (button ∷ ws) n = run-increments ws (u32 (n + 1))

u32-stored_after : (ws : List Writer) (n : ℕ) → u32 (stored_after ws n) ≡ u32 (n + length ws)
u32-stored_after [] n = ap (λ x. u32 x) (omega arith)
u32-stored_after (w ∷ ws) n = let counted = u32-stored_after ws (u32 (n + 1)) in omega arith

abbrev pub presses : ℕ → List Writer
presses zero = []
presses (suc k) = button ∷ presses k

length-presses : (k : ℕ) → length (presses k) ≡ k
length-presses zero = refl
length-presses (suc k) = ap (λ x. suc x) (length-presses k)

-- The increments of the handler of the button while the periodic thread is about to store h + 1.
run-presses :
    (k n h : ℕ)
    → run
        (increments (presses k) ++ store periodic ∷ [])
        (record { stored = n; in_periodic = some h; in_button = none })
      ≡ some (at_rest (u32 (h + 1)))
unfolding run
run-presses zero n h = refl
run-presses (suc k) n h = run-presses k (u32 (n + 1)) h

-- When the periodic thread has loaded the counter, and the handler of the button does any number of
-- whole increments before it stores, all of these are lost: the counter is one more than it was. The
-- same increments without an overlap are all counted, modulo 2 ^ 32.
pub increments-lost :
    (k n : ℕ)
    → (run (load periodic ∷ (increments (presses k) ++ store periodic ∷ [])) (at_rest n)
        ≡ some (at_rest (u32 (n + 1))))
      × (m : ℕ) × (run (increments (periodic ∷ presses k)) (at_rest n) ≡ some (at_rest m))
      × (u32 m ≡ u32 (n + suc k))
unfolding run
increments-lost k n = (
  run-presses k n n,
  stored_after (periodic ∷ presses k) n,
  run-increments (periodic ∷ presses k) n,
  u32-stored_after (periodic ∷ presses k) n ∙ ap (λ x. u32 (n + suc x)) (length-presses k),
)
