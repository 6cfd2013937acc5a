-- ===== src/Parser/Permits.antt =====
-- `DecodeConcurrency` of crates/vidcull-parser/src/fallback/concurrency.rs. What a thread does between
-- taking the lock and giving it up, by returning or by waiting on the condition variable, is one
-- function of the locked state; the counter `waiters` changes only there.
pub mod Threads
pub mod Counts
pub mod Consistent
pub mod Wakeup
use package.vidcull.Prelude.{
  ℕ, zero, suc, ◌+◌, ◌-◌, ◌/◌, max, Bool, true, false, ◌&&◌, Option, none, some, List, [], ◌∷◌, ltb,
  leb, ◌==◌, if◌then◌else◌,
}
use package.vidcull.Prelude.Maps.{lookup, or_default}

pub record DecodeConcurrency : Type 0 where
  pub capacity : ℕ
  pub in_use : ℕ
  pub held_by_session : List (ℕ × ℕ)
  pub waiting_by_session : List (ℕ × ℕ)
  pub next_session : ℕ
  pub waiters : ℕ

unfoldable pub new : ℕ → DecodeConcurrency
new capacity = record {
  capacity = max capacity 1;
  in_use = 0;
  held_by_session = [];
  waiting_by_session = [];
  next_session = 0;
  waiters = 0;
}

unfoldable pub serial : DecodeConcurrency
unfolding new
serial = new 1

unfoldable pub set_capacity : ℕ → DecodeConcurrency → DecodeConcurrency
set_capacity capacity c = record c { capacity = max capacity 1 }

unfoldable pub snapshot : DecodeConcurrency → ℕ × ℕ
snapshot c = (c.in_use, c.capacity)

unfoldable pub new_session : DecodeConcurrency → DecodeConcurrency × ℕ
new_session c = (record c { next_session = c.next_session + 1 }, c.next_session)

-- `map.get(&id).copied().unwrap_or(0)`.
unfoldable pub count_of : ℕ → List (ℕ × ℕ) → ℕ
count_of id map = or_default 0 (lookup id map)

-- `*map.entry(id).or_insert(0) += 1`.
unfoldable pub bump : ℕ → List (ℕ × ℕ) → List (ℕ × ℕ)
bump id [] = (id, 1) ∷ []
bump id ((k, n) ∷ map) =
    let rest = bump id map in if id == k then (k, n + 1) ∷ map else (k, n) ∷ rest

-- One less for the session, whose entry goes at 0.
unfoldable pub drop_one : ℕ → List (ℕ × ℕ) → List (ℕ × ℕ)
drop_one id [] = []
drop_one id ((k, n) ∷ map) =
    let rest = drop_one id map in
    if id == k then (if n - 1 == 0 then map else (k, n - 1) ∷ map) else (k, n) ∷ rest

unfoldable pub should_yield_for_fair_share : ℕ → ℕ → ℕ → ℕ → Bool
should_yield_for_fair_share held capacity own_waiting total_waiting =
    let fair_share = max ((capacity + 1) / 2) 1 in
    let waiting_other = total_waiting - own_waiting in leb fair_share held && ltb 0 waiting_other

-- One turn of the loop of `acquire`: a permit, or the start of a wait.
unfoldable pub try_acquire : DecodeConcurrency → DecodeConcurrency × Bool
try_acquire c =
    if ltb c.in_use c.capacity
    then (record c { in_use = c.in_use + 1 }, true)
    else (record c { waiters = c.waiters + 1 }, false)

abbrev pub wait_fair : ℕ → DecodeConcurrency → DecodeConcurrency × Bool
wait_fair id c =
    (record c { waiters = c.waiters + 1; waiting_by_session = bump id c.waiting_by_session }, false)

abbrev pub yields : ℕ → DecodeConcurrency → Bool
yields id c =
    should_yield_for_fair_share (count_of id c.held_by_session) c.capacity
      (count_of id c.waiting_by_session) c.waiters

unfoldable pub try_acquire_fair : ℕ → DecodeConcurrency → DecodeConcurrency × Bool
unfolding count_of bump should_yield_for_fair_share
try_acquire_fair id c =
    if ltb c.in_use c.capacity
    then (if yields id c then wait_fair id c else (
      record c { in_use = c.in_use + 1; held_by_session = bump id c.held_by_session },
      true,
    ))
    else wait_fair id c

-- The end of a wait.
unfoldable pub wake : Option ℕ → DecodeConcurrency → DecodeConcurrency
unfolding drop_one
wake none c = record c { waiters = c.waiters - 1 }
wake (some id) c = record c {
  waiters = c.waiters - 1;
  waiting_by_session = drop_one id c.waiting_by_session;
}

-- `Drop for DecodePermit`.
unfoldable pub release : Option ℕ → DecodeConcurrency → DecodeConcurrency
unfolding drop_one
release none c = record c { in_use = c.in_use - 1 }
release (some id) c = record c {
  in_use = c.in_use - 1;
  held_by_session = drop_one id c.held_by_session;
}
