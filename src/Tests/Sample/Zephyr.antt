-- ===== src/Tests/Sample/Zephyr.antt =====
-- A message queue as a list and a semaphore as a number.
use zephyr_can_converter_uni.Prelude.{
  ℕ, zero, suc, ◌+◌, ◌≤◌, ◌<◌, ◌≡◌, refl, true, false, List, [], ◌∷◌, ◌++◌, Option, none, some, min,
  length, arith, ltb, if◌then◌else◌, ℤ, pos, negsuc, is_zero, lt→ltb, le→ltb_false,
}
use zephyr_can_converter_uni.Platform.{Msgq, Semaphore}

module _ (A : Type 0) (depth : ℕ) where
  abbrev pub put : List A → A → ℤ × List A
  put q a = if ltb (length q) depth then (pos 0, q ++ a ∷ []) else (negsuc 34, q)

  abbrev pub get : List A → Option (A × List A)
  get [] = none
  get (a ∷ q) = some (a, q)

  pub put_room_lem :
      (q : List A) (a : A)
      → length q < depth
      → (is_zero (put q a).0 ≡ true) × ((put q a).1 ≡ q ++ a ∷ [])
  put_room_lem q a h = (rw (lt→ltb _ _ h), rw (lt→ltb _ _ h))

  pub put_full_lem :
      (q : List A) (a : A) → depth ≤ length q → (is_zero (put q a).0 ≡ false) × ((put q a).1 ≡ q)
  put_full_lem q a h = (rw (le→ltb_false _ _ h), rw (le→ltb_false _ _ h))

  pub get_empty_lem : (q : List A) → q ≡ [] → get q ≡ none
  get_empty_lem q h = rw h

  pub get_first_lem :
      (q : List A) (a : A) (rest : List A)
      → q ≡ a ∷ rest
      → (q' : List A) × (get q ≡ some (a, q')) × (q' ≡ rest)
  get_first_lem q a rest h = (rest, rw h, refl)

  abbrev pub list_msgq : Msgq A depth
  list_msgq = record {
    Queue = List A;
    empty = [];
    contents = λ q. q;
    put = put;
    get = get;
    purge = λ q. [];
    contents-empty = refl;
    put_room = put_room_lem;
    put_full = put_full_lem;
    get_empty = get_empty_lem;
    get_first = get_first_lem;
    contents-purge = λ q. refl;
  }

abbrev pub take_one : ℕ → Option ℕ
take_one zero = none
take_one (suc n) = some n

pub take_one-none : (n : ℕ) → n ≡ 0 → take_one n ≡ none
take_one-none n h = rw h

pub take_one-some : (s n : ℕ) → s ≡ n + 1 → (s' : ℕ) × (take_one s ≡ some s') × (s' ≡ n)
take_one-some zero n h = absurd (omega arith)
take_one-some (suc s) n h = (s, refl, omega arith)

abbrev pub counting_sem : Semaphore 1
counting_sem = record {
  Sem = ℕ;
  zero_sem = 0;
  count = λ s. s;
  give = λ s. min (s + 1) 1;
  take = take_one;
  count-zero_sem = refl;
  count-give = λ s. refl;
  take_none = take_one-none;
  take_some = take_one-some;
}
