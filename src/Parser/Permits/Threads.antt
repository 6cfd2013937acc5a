-- ===== src/Parser/Permits/Threads.antt =====
-- The threads around the `DecodeConcurrency` of crates/vidcull-parser/src/fallback/concurrency.rs: the
-- permits that are out and the threads that wait, each with its session.
use vidcull.Prelude.{
  ℕ, zero, suc, Bool, true, false, Option, none, some, List, [], ◌∷◌, ◌++◌, map, get_elem?,
}
use vidcull.Parser.Permits.{
  DecodeConcurrency, new, set_capacity, try_acquire, try_acquire_fair, wake, release,
}

pub record Waiter : Type 0 where
  pub session : Option ℕ
  pub notified : Bool

pub record Threads : Type 0 where
  pub conc : DecodeConcurrency
  pub permits : List (Option ℕ)
  pub waiting : List Waiter

pub data Event : Type 0 where
  -- a call of `acquire`, or of `acquire_fair` with a session
  ask : Option ℕ → Event
  -- the waiter at an index goes on; a condition variable may wake it without a notification
  resume : ℕ → Event
  -- the permit at an index is dropped, and the waiter at another is notified, the last if none is there
  finish : ℕ → ℕ → Event
  -- `set_capacity`, which notifies all
  resize : ℕ → Event

module _ {ℓ} {A : Type ℓ} where
  abbrev pub remove_at : ℕ → List A → List A
  remove_at i [] = []
  remove_at zero (x ∷ xs) = xs
  remove_at (suc i) (x ∷ xs) = x ∷ remove_at i xs

abbrev pub notify : Waiter → Waiter
notify w = record w { notified = true }

abbrev pub notify_one : ℕ → List Waiter → List Waiter
notify_one i [] = []
notify_one i (w ∷ []) = notify w ∷ []
notify_one zero (w ∷ w' ∷ ws) = notify w ∷ w' ∷ ws
notify_one (suc i) (w ∷ w' ∷ ws) = w ∷ notify_one i (w' ∷ ws)

unfoldable pub try_for : Option ℕ → DecodeConcurrency → DecodeConcurrency × Bool
unfolding try_acquire try_acquire_fair
try_for none c = try_acquire c
try_for (some id) c = try_acquire_fair id c

abbrev pub settle : Option ℕ → DecodeConcurrency × Bool → Threads → Threads
settle session (c, true) s = record s { conc = c; permits = session ∷ s.permits }
settle session (c, false) s = record s {
  conc = c;
  waiting = s.waiting ++ (record { session = session; notified = false } ∷ []);
}

unfoldable pub attempt : Option ℕ → Threads → Threads
unfolding try_for
attempt session s = settle session (try_for session s.conc) s

abbrev pub leave : ℕ → Waiter → Threads → Threads
leave i w s = record s { conc = wake w.session s.conc; waiting = remove_at i s.waiting }

abbrev pub return_permit : ℕ → ℕ → Option ℕ → Threads → Threads
return_permit i j session s = record {
  conc = release session s.conc;
  permits = remove_at i s.permits;
  waiting = notify_one j s.waiting;
}

unfoldable pub step : Event → Threads → Threads
unfolding attempt
step (ask session) s = attempt session s
step (resume i) s = elim (get_elem? s.waiting i) [
  | none ↦ s
  | some w ↦ attempt w.session (leave i w s)
]
step (finish i j) s = elim (get_elem? s.permits i) [
  | none ↦ s
  | some session ↦ return_permit i j session s
]
step (resize n) s = record s { conc = set_capacity n s.conc; waiting = map notify s.waiting }

unfoldable pub run : List Event → Threads → Threads
unfolding step
run [] s = s
run (e ∷ es) s = run es (step e s)

unfoldable pub idle : ℕ → Threads
idle capacity = record { conc = new capacity; permits = []; waiting = [] }
