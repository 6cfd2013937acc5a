-- ===== src/Parser/Permits/Consistent.antt =====
-- The counters of `DecodeConcurrency` in crates/vidcull-parser/src/fallback/concurrency.rs against the
-- permits that are out and the threads that wait.
use mathlib.Core.Path.{subst}
use vidcull.Prelude.{
  ℕ, ◌+◌, ◌≤◌, ◌<◌, ◌≡◌, refl, sym, ap, ◌∙◌, ◌⊎◌, inl, inr, true, false, Option, none, some,
  Option-cases, List, [], ◌∷◌, ◌++◌, length, length-append, length-map, get_elem?, ltb, ltb→lt,
  ltb→ge, Bool-cases, arith,
}
use vidcull.Parser.Permits.{
  DecodeConcurrency, new, set_capacity, count_of, bump, should_yield_for_fair_share, try_acquire,
  try_acquire_fair, yields, wake, release,
}
use vidcull.Parser.Permits.Threads.{
  Waiter, Threads, Event, ask, resume, finish, resize, remove_at, notify, try_for, settle, attempt,
  leave, return_permit, step, run, idle,
}
use vidcull.Parser.Permits.Counts.{
  one, count, sessions, IsKeyed, count_of-bump, bump-IsKeyed, count_of-drop_one, drop_one-IsKeyed,
  count-append, count-remove_at, length-remove_at, sessions-append, get_elem?-sessions,
  sessions-remove_at, sessions-notify_one, sessions-notify_all, length-notify_one,
}

-- The counters say what is out and who waits.
pub record IsConsistent (s : Threads) : Type 0 where
  pub in_use : s.conc.in_use ≡ length s.permits
  pub waiters : s.conc.waiters ≡ length s.waiting
  pub held : (id : ℕ) → count_of id s.conc.held_by_session ≡ count id s.permits
  pub waits : (id : ℕ) → count_of id s.conc.waiting_by_session ≡ count id (sessions s.waiting)
  pub held_keys : IsKeyed s.conc.held_by_session
  pub waiting_keys : IsKeyed s.conc.waiting_by_session
  pub some_capacity : 1 ≤ s.conc.capacity

abbrev pub grant : Option ℕ → DecodeConcurrency → DecodeConcurrency
grant none c = record c { in_use = c.in_use + 1 }
grant (some id) c = record c { in_use = c.in_use + 1; held_by_session = bump id c.held_by_session }

abbrev pub enlist : Option ℕ → DecodeConcurrency → DecodeConcurrency
enlist none c = record c { waiters = c.waiters + 1 }
enlist (some id) c = record c {
  waiters = c.waiters + 1;
  waiting_by_session = bump id c.waiting_by_session;
}

-- Why a thread waits: all permits are out, or its session holds one already.
abbrev pub Blocked : Option ℕ → DecodeConcurrency → Type 0
Blocked none c = c.capacity ≤ c.in_use
Blocked (some id) c = (c.capacity ≤ c.in_use) ⊎ (1 ≤ count_of id c.held_by_session)

yields-held :
    (id : ℕ) (c : DecodeConcurrency) → yields id c ≡ true → 1 ≤ count_of id c.held_by_session
unfolding should_yield_for_fair_share
yields-held id c h = ground arith

pub try_for-cases :
    (session : Option ℕ) (c : DecodeConcurrency)
    → ((try_for session c ≡ (grant session c, true)) × (c.in_use < c.capacity))
      ⊎ ((try_for session c ≡ (enlist session c, false)) × Blocked session c)
unfolding try_for try_acquire try_acquire_fair
try_for-cases none c = elim (Bool-cases (ltb c.in_use c.capacity)) [
  | inl e ↦ inl (rw e refl, ltb→lt c.in_use c.capacity e)
  | inr e ↦ inr (rw e refl, ltb→ge c.in_use c.capacity e)
]
try_for-cases (some id) c = elim (Bool-cases (ltb c.in_use c.capacity)) [
  | inl e ↦ elim (Bool-cases (yields id c)) [
    | inl y ↦ inr (rw (e, y) refl, inr (yields-held id c y))
    | inr y ↦ inl (rw (e, y) refl, ltb→lt c.in_use c.capacity e)
  ]
  | inr e ↦ inr (rw e refl, inl (ltb→ge c.in_use c.capacity e))
]

grant-IsConsistent :
    (session : Option ℕ) (s : Threads)
    → IsConsistent s
    → IsConsistent (settle session (grant session s.conc, true) s)
unfolding count
grant-IsConsistent none s w = record {
  in_use = omega (arith, w.in_use);
  waiters = w.waiters;
  held = λ id. omega (arith, w.held id);
  waits = w.waits;
  held_keys = w.held_keys;
  waiting_keys = w.waiting_keys;
  some_capacity = w.some_capacity;
}
grant-IsConsistent (some k) s w = record {
  in_use = omega (arith, w.in_use);
  waiters = w.waiters;
  held = λ id. omega (arith, w.held id, count_of-bump id k s.conc.held_by_session);
  waits = w.waits;
  held_keys = bump-IsKeyed k s.conc.held_by_session w.held_keys;
  waiting_keys = w.waiting_keys;
  some_capacity = w.some_capacity;
}

abbrev fresh_waiter : Option ℕ → Waiter
fresh_waiter session = record { session = session; notified = false }

sessions-fresh :
    (id : ℕ) (session : Option ℕ) (ws : List Waiter)
    → count id (sessions (ws ++ (fresh_waiter session ∷ [])))
      ≡ count id (sessions ws) + one id session
unfolding count
sessions-fresh id session ws =
    ap (count id) (sessions-append ws (fresh_waiter session))
    ∙ (count-append id (sessions ws) (session ∷ []) ∙ omega arith)

enlist-IsConsistent :
    (session : Option ℕ) (s : Threads)
    → IsConsistent s
    → IsConsistent (settle session (enlist session s.conc, false) s)
enlist-IsConsistent none s w = record {
  in_use = w.in_use;
  waiters = omega (arith, w.waiters, length-append s.waiting (fresh_waiter none ∷ []));
  held = w.held;
  waits = λ id. omega (arith, w.waits id, sessions-fresh id none s.waiting);
  held_keys = w.held_keys;
  waiting_keys = w.waiting_keys;
  some_capacity = w.some_capacity;
}
enlist-IsConsistent (some k) s w = record {
  in_use = w.in_use;
  waiters = omega (arith, w.waiters, length-append s.waiting (fresh_waiter (some k) ∷ []));
  held = w.held;
  waits = λ id. omega (
    arith,
    w.waits id,
    count_of-bump id k s.conc.waiting_by_session,
    sessions-fresh id (some k) s.waiting,
  );
  held_keys = w.held_keys;
  waiting_keys = bump-IsKeyed k s.conc.waiting_by_session w.waiting_keys;
  some_capacity = w.some_capacity;
}

pub attempt-IsConsistent :
    (session : Option ℕ) (s : Threads) → IsConsistent s → IsConsistent (attempt session s)
unfolding attempt
attempt-IsConsistent session s w = elim (try_for-cases session s.conc) [
  | inl (e, low) ↦
      subst (λ r. IsConsistent (settle session r s)) (sym e) (grant-IsConsistent session s w)
  | inr (e, why) ↦
      subst (λ r. IsConsistent (settle session r s)) (sym e) (enlist-IsConsistent session s w)
]

left-waits :
    (i : ℕ) (w : Waiter) (ws : List Waiter) (id : ℕ)
    → get_elem? ws i ≡ some w
    → count id (sessions ws) ≡ count id (sessions (remove_at i ws)) + one id w.session
left-waits i w ws id h =
    count-remove_at id i (sessions ws) w.session (get_elem?-sessions ws i w h)
    ∙ ap (λ l. count id l + one id w.session) (sym (sessions-remove_at ws i))

pub leave-IsConsistent :
    (i : ℕ) (w : Waiter) (s : Threads)
    → get_elem? s.waiting i ≡ some w
    → IsConsistent s
    → IsConsistent (leave i w s)
unfolding wake
leave-IsConsistent i w s h v = by_session w.session refl
  where
    by_session :
        (o : Option ℕ)
        → w.session ≡ o
        → IsConsistent (record s { conc = wake o s.conc; waiting = remove_at i s.waiting })
    by_session none e = record {
      in_use = v.in_use;
      waiters = omega (arith, v.waiters, length-remove_at i s.waiting w h);
      held = v.held;
      waits = λ id. omega (arith, v.waits id, left-waits i w s.waiting id h, ap (one id) e);
      held_keys = v.held_keys;
      waiting_keys = v.waiting_keys;
      some_capacity = v.some_capacity;
    }
    by_session (some k) e = record {
      in_use = v.in_use;
      waiters = omega (arith, v.waiters, length-remove_at i s.waiting w h);
      held = v.held;
      waits = λ id. omega (
        arith,
        v.waits id,
        left-waits i w s.waiting id h,
        ap (one id) e,
        count_of-drop_one id k s.conc.waiting_by_session v.waiting_keys,
      );
      held_keys = v.held_keys;
      waiting_keys = drop_one-IsKeyed k s.conc.waiting_by_session v.waiting_keys;
      some_capacity = v.some_capacity;
    }

return_permit-IsConsistent :
    (i j : ℕ) (o : Option ℕ) (s : Threads)
    → get_elem? s.permits i ≡ some o
    → IsConsistent s
    → IsConsistent (return_permit i j o s)
unfolding release
return_permit-IsConsistent i j none s h v = record {
  in_use = omega (arith, v.in_use, length-remove_at i s.permits none h);
  waiters = omega (arith, v.waiters, length-notify_one j s.waiting);
  held = λ id. omega (arith, v.held id, count-remove_at id i s.permits none h);
  waits = λ id. v.waits id ∙ ap (count id) (sym (sessions-notify_one j s.waiting));
  held_keys = v.held_keys;
  waiting_keys = v.waiting_keys;
  some_capacity = v.some_capacity;
}
return_permit-IsConsistent i j (some k) s h v = record {
  in_use = omega (arith, v.in_use, length-remove_at i s.permits (some k) h);
  waiters = omega (arith, v.waiters, length-notify_one j s.waiting);
  held = λ id. omega (
    arith,
    v.held id,
    count-remove_at id i s.permits (some k) h,
    count_of-drop_one id k s.conc.held_by_session v.held_keys,
  );
  waits = λ id. v.waits id ∙ ap (count id) (sym (sessions-notify_one j s.waiting));
  held_keys = drop_one-IsKeyed k s.conc.held_by_session v.held_keys;
  waiting_keys = v.waiting_keys;
  some_capacity = v.some_capacity;
}

pub step-IsConsistent : (e : Event) (s : Threads) → IsConsistent s → IsConsistent (step e s)
unfolding step set_capacity
step-IsConsistent (ask session) s v = attempt-IsConsistent session s v
step-IsConsistent (resume i) s v = elim (Option-cases (get_elem? s.waiting i)) [
  | inl e ↦ rw (e, step) v
  | inr (w, e) ↦
      rw (e, step) (attempt-IsConsistent w.session (leave i w s) (leave-IsConsistent i w s e v))
]
step-IsConsistent (finish i j) s v = elim (Option-cases (get_elem? s.permits i)) [
  | inl e ↦ rw (e, step) v
  | inr (o, e) ↦ rw (e, step) (return_permit-IsConsistent i j o s e v)
]
step-IsConsistent (resize n) s v = record {
  in_use = v.in_use;
  waiters = v.waiters ∙ sym (length-map s.waiting notify);
  held = v.held;
  waits = λ id. v.waits id ∙ ap (count id) (sym (sessions-notify_all s.waiting));
  held_keys = v.held_keys;
  waiting_keys = v.waiting_keys;
  some_capacity = omega arith;
}

pub idle-IsConsistent : (capacity : ℕ) → IsConsistent (idle capacity)
unfolding idle new count_of count sessions
idle-IsConsistent capacity = record {
  in_use = refl;
  waiters = refl;
  held = λ id. refl;
  waits = λ id. refl;
  held_keys = tt;
  waiting_keys = tt;
  some_capacity = omega arith;
}

run-keeps : (es : List Event) (s : Threads) → IsConsistent s → IsConsistent (run es s)
unfolding run
run-keeps [] s v = v
run-keeps (e ∷ es) s v = run-keeps es (step e s) (step-IsConsistent e s v)

-- Whatever the threads do, in_use is the number of permits that are out, waiters the number of threads
-- that wait, and the two maps count both for each session.
pub run-IsConsistent : (capacity : ℕ) (es : List Event) → IsConsistent (run es (idle capacity))
run-IsConsistent capacity es = run-keeps es (idle capacity) (idle-IsConsistent capacity)
