-- ===== src/Parser/Permits/Wakeup.antt =====
-- Who gets a permit of `DecodeConcurrency` in crates/vidcull-parser/src/fallback/concurrency.rs, and how
-- many are out.
use mathlib.Core.Path.{subst}
use vidcull.Prelude.{
  ℕ, zero, suc, ◌≤◌, ◌<◌, max, ◌≡◌, ◌≢◌, refl, sym, ap, ◌∙◌, ◌⊎◌, inl, inr, Bool, true, false,
  Option, none, some, Option-cases, List, [], ◌∷◌, map, any, length, get_elem?, Bool-cases, All,
  arith,
}
use vidcull.Parser.Permits.{new, wake, release}
use vidcull.Parser.Permits.Threads.{
  Waiter, Threads, Event, ask, resume, finish, resize, remove_at, notify, notify_one, try_for,
  settle, attempt, leave, return_permit, step, run, idle,
}
use vidcull.Parser.Permits.Counts.{count}
use vidcull.Parser.Permits.Consistent.{
  IsConsistent, grant, enlist, Blocked, try_for-cases, leave-IsConsistent, step-IsConsistent,
  idle-IsConsistent, run-IsConsistent,
}

count-length : (id : ℕ) (os : List (Option ℕ)) → count id os ≤ length os
unfolding count
count-length id [] = omega arith
count-length id (none ∷ os) = omega (arith, count-length id os)
count-length id (some k ∷ os) = ground (arith, count-length id os)

Blocked-permit :
    (session : Option ℕ) (s : Threads)
    → IsConsistent s
    → Blocked session s.conc
    → 1 ≤ length s.permits
Blocked-permit none s v h = omega (arith, v.in_use, v.some_capacity)
Blocked-permit (some id) s v (inl h) = omega (arith, v.in_use, v.some_capacity)
Blocked-permit (some id) s v (inr h) = omega (arith, h, v.held id, count-length id s.permits)

-- After a thread asks, it has a permit or another is out.
attempt-permit :
    (session : Option ℕ) (s : Threads) → IsConsistent s → 1 ≤ length (attempt session s).permits
unfolding attempt
attempt-permit session s v = elim (try_for-cases session s.conc) [
  | inl (e, low) ↦ subst (λ r. 1 ≤ length (settle session r s).permits) (sym e) (omega arith)
  | inr (e, why) ↦
      subst (λ r. 1 ≤ length (settle session r s).permits) (sym e) (Blocked-permit session s v why)
]

abbrev some_notified : List Waiter → Bool
some_notified ws = any (λ w. w.notified) ws

notify_one-notified :
    (i : ℕ) (ws : List Waiter) → (ws ≡ []) ⊎ (some_notified (notify_one i ws) ≡ true)
notify_one-notified i [] = inl refl
notify_one-notified i (w ∷ []) = inr refl
notify_one-notified zero (w ∷ w' ∷ ws) = inr refl
notify_one-notified (suc i) (w ∷ w' ∷ ws) =
    inr (elim (notify_one-notified i (w' ∷ ws)) [ inl e ↦ cc | inr h ↦ ground arith ])

-- Nobody waits, or one that waits is notified, or a permit is out.
abbrev Awake : Threads → Type 0
Awake s = (s.waiting ≡ []) ⊎ ((some_notified s.waiting ≡ true) ⊎ (1 ≤ length s.permits))

step-Awake : (e : Event) (s : Threads) → IsConsistent s → Awake s → Awake (step e s)
unfolding step
step-Awake (ask session) s v h = inr (inr (attempt-permit session s v))
step-Awake (resume i) s v h = elim (Option-cases (get_elem? s.waiting i)) [
  | inl e ↦ rw (e, step) h
  | inr (w, e) ↦
      let out = attempt-permit w.session (leave i w s) (leave-IsConsistent i w s e v) in
      let next : Awake (attempt w.session (leave i w s)) = inr (inr out) in rw (e, step) next
]
step-Awake (finish i j) s v h = elim (Option-cases (get_elem? s.permits i)) [
  | inl e ↦ rw (e, step) h
  | inr (o, e) ↦
      let next : Awake (return_permit i j o s) = elim (notify_one-notified j s.waiting) [
        | inl none_waits ↦ inl (ap (notify_one j) none_waits)
        | inr q ↦ inr (inl q)
      ] in
      rw (e, step) next
]
step-Awake (resize n) s v h = all_notified s.waiting
  where
    all_notified :
        (ws : List Waiter)
        → (map notify ws ≡ []) ⊎ ((some_notified (map notify ws) ≡ true) ⊎ (1 ≤ length s.permits))
    all_notified [] = inl refl
    all_notified (w ∷ ws) = inr (inl refl)

run-Awake : (es : List Event) (s : Threads) → IsConsistent s → Awake s → Awake (run es s)
unfolding run
run-Awake [] s v h = h
run-Awake (e ∷ es) s v h = run-Awake es (step e s) (step-IsConsistent e s v) (step-Awake e s v h)

notified_index :
    (ws : List Waiter)
    → some_notified ws ≡ true
    → (i : ℕ) × (w : Waiter) × (get_elem? ws i ≡ some w) × (w.notified ≡ true)
notified_index [] h = cc
notified_index (w ∷ ws) h = elim (Bool-cases w.notified) [
  | inl e ↦ (0, w, refl, e)
  | inr e ↦ let (i, u, at, q) = notified_index ws (rw e at h) in (suc i, u, at, q)
]

-- With no permit out, a thread that goes on gets one.
resume_served :
    (i : ℕ) (w : Waiter) (s : Threads)
    → IsConsistent s
    → s.permits ≡ []
    → get_elem? s.waiting i ≡ some w
    → (step (resume i) s).permits ≡ w.session ∷ []
unfolding step attempt
resume_served i w s v free at =
    let left = leave i w s in
    let u : IsConsistent (leave i w s) = leave-IsConsistent i w s at v in
    let served : (settle w.session (try_for w.session (leave i w s).conc) (leave i w s)).permits
        ≡ w.session ∷ [] =
      elim (try_for-cases w.session (leave i w s).conc) [
        | inl (e, low) ↦
            ap (λ r. (settle w.session r (leave i w s)).permits) e ∙ ap (λ l. w.session ∷ l) free
        | inr (e, why) ↦
            absurd (omega (arith, Blocked-permit w.session (leave i w s) u why, ap length free))
      ] in
    rw (at, step) served

nobody : (capacity : ℕ) → Awake (idle capacity)
unfolding idle
nobody capacity = inl refl

-- Whatever the threads did, when a thread waits and no permit is out, one that waits has been notified,
-- and it gets a permit when it goes on: no wake-up is lost, also where the fair share makes a thread
-- pass a free permit by.
pub waiter_served :
    (capacity : ℕ) (es : List Event)
    → (run es (idle capacity)).waiting ≢ []
    → (run es (idle capacity)).permits ≡ []
    → (i : ℕ) × (w : Waiter) × (get_elem? (run es (idle capacity)).waiting i ≡ some w)
      × (w.notified ≡ true)
      × ((step (resume i) (run es (idle capacity))).permits ≡ w.session ∷ [])
waiter_served capacity es waits free =
    let s = run es (idle capacity) in
    let start : Awake (idle capacity) = nobody capacity in
    elim (run-Awake es (idle capacity) (idle-IsConsistent capacity) start) [
      | inl e ↦ absurd (waits e)
      | inr (inl h) ↦
          let (i, w, at, q) = notified_index (run es (idle capacity)).waiting h in
          (
            i,
            w,
            at,
            q,
            resume_served i w (run es (idle capacity)) (run-IsConsistent capacity es) free at,
          )
      | inr (inr h) ↦ absurd (omega (arith, h, ap length free))
    ]

-- The capacity stays as it is.
abbrev pub Fixed : Event → Type 0
Fixed (ask session) = Unit
Fixed (resume i) = Unit
Fixed (finish i j) = Unit
Fixed (resize n) = ⊥

record IsWithin (n : ℕ) (s : Threads) : Type 0 where
  capacity : s.conc.capacity ≡ n
  within : s.conc.in_use ≤ n

attempt-IsWithin :
    (n : ℕ) (session : Option ℕ) (s : Threads) → IsWithin n s → IsWithin n (attempt session s)
unfolding attempt
attempt-IsWithin n session s w = elim (try_for-cases session s.conc) [
  | inl (e, low) ↦ subst (λ r. IsWithin n (settle session r s)) (sym e) (granted session low)
  | inr (e, why) ↦ subst (λ r. IsWithin n (settle session r s)) (sym e) (waits session)
]
  where
    granted :
        (o : Option ℕ)
        → s.conc.in_use < s.conc.capacity
        → IsWithin n (settle session (grant o s.conc, true) s)
    granted none low = record { capacity = w.capacity; within = omega (arith, w.capacity) }
    granted (some id) low = record { capacity = w.capacity; within = omega (arith, w.capacity) }

    waits : (o : Option ℕ) → IsWithin n (settle session (enlist o s.conc, false) s)
    waits none = record { capacity = w.capacity; within = w.within }
    waits (some id) = record { capacity = w.capacity; within = w.within }

woken :
    (n i : ℕ) (o : Option ℕ) (s : Threads)
    → IsWithin n s
    → IsWithin n (record s { conc = wake o s.conc; waiting = remove_at i s.waiting })
unfolding wake
woken n i none s w = record { capacity = w.capacity; within = w.within }
woken n i (some id) s w = record { capacity = w.capacity; within = w.within }

returned :
    (n i j : ℕ) (o : Option ℕ) (s : Threads) → IsWithin n s → IsWithin n (return_permit i j o s)
unfolding release
returned n i j none s w = record { capacity = w.capacity; within = omega (arith, w.within) }
returned n i j (some id) s w = record { capacity = w.capacity; within = omega (arith, w.within) }

step-IsWithin : (n : ℕ) (e : Event) (s : Threads) → Fixed e → IsWithin n s → IsWithin n (step e s)
unfolding step
step-IsWithin n (ask session) s f w = attempt-IsWithin n session s w
step-IsWithin n (resume i) s f w = elim (Option-cases (get_elem? s.waiting i)) [
  | inl e ↦ rw (e, step) w
  | inr (u, e) ↦ rw (e, step) (attempt-IsWithin n u.session (leave i u s) (woken n i u.session s w))
]
step-IsWithin n (finish i j) s f w = elim (Option-cases (get_elem? s.permits i)) [
  | inl e ↦ rw (e, step) w
  | inr (o, e) ↦ rw (e, step) (returned n i j o s w)
]
step-IsWithin n (resize m) s f w = absurd f

run-IsWithin :
    (n : ℕ) (es : List Event) (s : Threads) → All Fixed es → IsWithin n s → IsWithin n (run es s)
unfolding run
run-IsWithin n [] s f w = w
run-IsWithin n (e ∷ es) s f w = run-IsWithin n es (step e s) f.1 (step-IsWithin n e s f.0 w)

-- While the capacity is not changed, never more permits are out than it says, or one where it says 0.
pub permits_within_capacity :
    (capacity : ℕ) (es : List Event)
    → All Fixed es
    → length (run es (idle capacity)).permits ≤ max capacity 1
unfolding idle new
permits_within_capacity capacity es fixed =
    let start : IsWithin (max capacity 1) (idle capacity) = record {
      capacity = refl;
      within = omega arith;
    } in
    let w = run-IsWithin (max capacity 1) es (idle capacity) fixed start in
    omega (arith, w.within, (run-IsConsistent capacity es).in_use)
