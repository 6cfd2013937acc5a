-- ===== src/Tests/Permits.antt =====
-- Three threads and one permit of crates/vidcull-parser/src/fallback/concurrency.rs.
use vidcull.Prelude.{
  ℕ, ◌≤◌, max, ◌≡◌, ◌≢◌, refl, none, some, List, [], ◌∷◌, length, get_elem?, true, false, ap, arith,
}
use vidcull.Parser.Permits.{new, should_yield_for_fair_share, wake, release, drop_one}
use vidcull.Parser.Permits.Threads.{Waiter, Event, ask, resume, finish, step, run, idle}
use vidcull.Parser.Permits.Consistent.{IsConsistent, run-IsConsistent}
use vidcull.Parser.Permits.Wakeup.{waiter_served, permits_within_capacity}

-- The session 7 takes the permit, two threads wait, and the permit comes back.
abbrev contended : List Event
contended = ask (some 7) ∷ ask (some 7) ∷ ask none ∷ finish 0 1 ∷ []

after_contention :
    (run contended (idle 1)).waiting
    ≡ record { session = some 7; notified = false }
      ∷ record { session = none; notified = true }
      ∷ []
unfolding run idle new wake release drop_one
after_contention = refl

none_out : (run contended (idle 1)).permits ≡ []
unfolding run idle new wake release drop_one
none_out = refl

some_wait : (run contended (idle 1)).waiting ≢ []
some_wait e = let h = ap length e in absurd (omega (arith, h, ap length after_contention))

run-IsConsistent_example : IsConsistent (run contended (idle 1))
run-IsConsistent_example = run-IsConsistent 1 contended

waiter_served_example :
    (i : ℕ) × (w : Waiter) × (get_elem? (run contended (idle 1)).waiting i ≡ some w)
    × (w.notified ≡ true)
    × ((step (resume i) (run contended (idle 1))).permits ≡ w.session ∷ [])
waiter_served_example = waiter_served 1 contended some_wait none_out

permits_within_capacity_example : length (run contended (idle 1)).permits ≤ max 1 1
permits_within_capacity_example = permits_within_capacity 1 contended (tt, (tt, (tt, (tt, tt))))

-- With another file's thread waiting, a session that holds its share passes the free permit by.
fair_share :
    (should_yield_for_fair_share 2 4 1 3 ≡ true)
    × (should_yield_for_fair_share 1 4 1 3 ≡ false)
    × (should_yield_for_fair_share 2 4 3 3 ≡ false)
unfolding should_yield_for_fair_share
fair_share = (refl, refl, refl)
