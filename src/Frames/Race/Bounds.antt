-- ===== src/Frames/Race/Bounds.antt =====
-- How far a counter of src/can_converter_frames.c can be off when its increments overlap.
use zephyr_can_converter_uni.Prelude.{
  ℕ, suc, ◌+◌, ◌≤◌, ◌<◌, ◌≡◌, subst, List, [], ◌∷◌, Option, none, some, arith, u32, inl, inr,
  Option-cases,
}
use zephyr_can_converter_uni.Frames.Race.{Writer, Cell, Access, step, run, at_rest}

-- How many increments end.
abbrev pub stores : List Access → ℕ
stores [] = 0
stores (Access.load w ∷ accs) = stores accs
stores (Access.store w ∷ accs) = suc (stores accs)

abbrev Between : ℕ → ℕ → Option ℕ → Type 0
Between lo hi none = Unit
Between lo hi (some n) = (lo ≤ n) × (n ≤ hi)

-- The counter is at least `low`, what a writer has loaded is at least `start`, and none is over `top`.
record IsWithin (start low top : ℕ) (c : Cell) : Type 0 where
  from_start : start ≤ low
  above : low ≤ c.stored
  below : c.stored ≤ top
  periodic : Between start top c.in_periodic
  button : Between start top c.in_button

Between-le : (lo hi hi' : ℕ) (o : Option ℕ) → hi ≤ hi' → Between lo hi o → Between lo hi' o
Between-le lo hi hi' none h b = tt
Between-le lo hi hi' (some n) h (from, to) = (from, omega arith)

load-IsWithin :
    (w : Writer) (start low top : ℕ) (c c' : Cell)
    → IsWithin start low top c
    → step (Access.load w) c ≡ some c'
    → IsWithin start low top c'
unfolding step
load-IsWithin Writer.periodic start low top c c' v h = elim (Option-cases c.in_periodic) [
  | inl e ↦
      let same : record c { in_periodic = some c.stored } ≡ c' = ground arith in
      let now : Between start top (some c.stored) = (ground (arith, v), v.below) in
      subst (IsWithin start low top) same (record {
        from_start = v.from_start;
        above = v.above;
        below = v.below;
        periodic = now;
        button = v.button;
      })
  | inr (n, e) ↦ absurd (ground arith)
]
load-IsWithin Writer.button start low top c c' v h = elim (Option-cases c.in_button) [
  | inl e ↦
      let same : record c { in_button = some c.stored } ≡ c' = ground arith in
      let now : Between start top (some c.stored) = (ground (arith, v), v.below) in
      subst (IsWithin start low top) same (record {
        from_start = v.from_start;
        above = v.above;
        below = v.below;
        button = now;
        periodic = v.periodic;
      })
  | inr (n, e) ↦ absurd (ground arith)
]

store-IsWithin :
    (w : Writer) (start low top : ℕ) (c c' : Cell)
    → top + 1 < 4294967296
    → IsWithin start low top c
    → step (Access.store w) c ≡ some c'
    → IsWithin start (start + 1) (top + 1) c'
unfolding step
store-IsWithin Writer.periodic start low top c c' small v h = elim (Option-cases c.in_periodic) [
  | inl e ↦ absurd (ground arith)
  | inr (n, e) ↦
      let same : record c { stored = u32 (n + 1); in_periodic = none } ≡ c' = ground arith in
      let (from, to) : Between start top (some n) = subst (Between start top) e v.periodic in
      let whole : u32 (n + 1) ≡ n + 1 = omega arith in
      subst (IsWithin start (start + 1) (top + 1)) same (record {
        from_start = omega arith;
        above = omega (arith, whole, from);
        below = omega (arith, whole, to);
        periodic = tt;
        button = Between-le start top (top + 1) c.in_button (omega arith) v.button;
      })
]
store-IsWithin Writer.button start low top c c' small v h = elim (Option-cases c.in_button) [
  | inl e ↦ absurd (ground arith)
  | inr (n, e) ↦
      let same : record c { stored = u32 (n + 1); in_button = none } ≡ c' = ground arith in
      let (from, to) : Between start top (some n) = subst (Between start top) e v.button in
      let whole : u32 (n + 1) ≡ n + 1 = omega arith in
      subst (IsWithin start (start + 1) (top + 1)) same (record {
        from_start = omega arith;
        above = omega (arith, whole, from);
        below = omega (arith, whole, to);
        button = tt;
        periodic = Between-le start top (top + 1) c.in_periodic (omega arith) v.periodic;
      })
]

run-IsWithin :
    (accs : List Access) (start low top : ℕ) (c c' : Cell)
    → top + stores accs < 4294967296
    → start < low + stores accs
    → IsWithin start low top c
    → run accs c ≡ some c'
    → (start < c'.stored) × (c'.stored ≤ top + stores accs)
unfolding run
run-IsWithin [] start low top c c' small some_stored v h = (ground arith, ground arith)
run-IsWithin (Access.load w ∷ accs) start low top c c' small some_stored v h =
    elim (Option-cases (step (Access.load w) c)) [
      | inl stuck ↦ absurd (ground arith)
      | inr (next, moved) ↦
          run-IsWithin accs start low top next c' small some_stored
            (load-IsWithin w start low top c next v moved) (ground arith)
    ]
run-IsWithin (Access.store w ∷ accs) start low top c c' small some_stored v h =
    elim (Option-cases (step (Access.store w) c)) [
      | inl stuck ↦ absurd (ground arith)
      | inr (next, moved) ↦
          let (over, under) =
            run-IsWithin accs start (start + 1) (top + 1) next c' (omega arith) (omega arith)
              (store-IsWithin w start low top c next (omega arith) v moved) (ground arith) in
          (over, omega arith)
    ]

-- However the increments of the periodic thread and of the handler of the test button overlap, where
-- each store is one that ends an increment, there is at least one, and all of them together do not wrap
-- the counter: once no increment is under way, the counter has grown, and by no more than the number
-- of increments.
pub increments-bounded :
    (accs : List Access) (n m : ℕ)
    → n + stores accs < 4294967296
    → 0 < stores accs
    → run accs (at_rest n) ≡ some (at_rest m)
    → (n < m) × (m ≤ n + stores accs)
increments-bounded accs n m small some_stored h =
    run-IsWithin accs n n n (at_rest n) (at_rest m) small (omega arith)
      (record {
        from_start = omega arith;
        above = omega arith;
        below = omega arith;
        periodic = tt;
        button = tt;
      })
      h
