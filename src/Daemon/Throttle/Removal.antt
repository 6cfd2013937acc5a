-- ===== src/Daemon/Throttle/Removal.antt =====
-- The interleavings of `register_decode`, `mark_roots_removed`, `clear_removed_root_overlap` and the
-- drop of a registration in crates/vidcull-daemon/src/throttle.rs, at the grain of their locks.
use vidcull.Prelude.{
  ◌≡◌, refl, sym, ap, inl, inr, Bool, true, Option, none, some, List, [], ◌∷◌, ◌++◌, arith, ◌∈◌,
  mem_of_append, mem_of_retain, length, get_elem?, mem-any,
}
use mathlib.Core.Path.{subst}
use mathlib.Core.Option.{some-injective}
use vidcull.Daemon.Paths.{FilePath, path_under_root}
use vidcull.Daemon.Throttle.{
  ThrottleControl, Token, default, is_path_removed, register_begin, register_push,
  deregister_decode, mark_extend, mark_tokens, clear_removed_root_overlap,
}
use vidcull.Daemon.Throttle.Covered.{
  Covered, Covered-append, Covered-fresh, Covered-weaken, Covered-mark,
}

-- A thread inside `register_decode` holds the lock on `active_decodes`, so there is at most one.
-- A thread inside `mark_roots_removed`, between its two blocks, holds no lock.
pub record World : Type 0 where
  pub control : ThrottleControl
  pub registering : Option (FilePath × Token)
  pub marking : List (List FilePath)

abbrev pub start : World
start = record { control = default; registering = none; marking = [] }

-- A step takes the lock on `active_decodes` only while nobody registers.
pub data Step (w : World) : World → Type 0 where
  begin_register :
      (path : FilePath)
      → w.registering ≡ none
      → Step w (record w {
        control = register_begin path w.control;
        registering = some (path, length w.control.flags);
      })
  end_register :
      (path : FilePath) (token : Token)
      → w.registering ≡ some (path, token)
      → Step w (record w { control = register_push path token w.control; registering = none })
  drop_registration :
      (token : Token)
      → w.registering ≡ none
      → Step w (record w { control = deregister_decode token w.control })
  begin_mark :
      (roots : List FilePath)
      → Step w (record w { control = mark_extend roots w.control; marking = roots ∷ w.marking })
  end_mark :
      (roots : List FilePath) (before after : List (List FilePath))
      → w.registering ≡ none
      → w.marking ≡ before ++ roots ∷ after
      → Step w (record w { control = mark_tokens roots w.control; marking = before ++ after })
  clear_overlap :
      (added : FilePath)
      → Step w (record w { control = clear_removed_root_overlap added w.control })

pub data Reach : World → Type 0 where
  here : Reach start
  next : {w v : World} → Reach w → Step w v → Reach v

record Inv (w : World) : Type 0 where
  active :
      (path : FilePath) (token : Token)
      → (path, token) ∈ w.control.active_decodes
      → Covered w.control.removed_roots w.marking w.control.flags path token
  mid :
      (path : FilePath) (token : Token)
      → w.registering ≡ some (path, token)
      → Covered w.control.removed_roots w.marking w.control.flags path token

start-Inv : Inv start
start-Inv = record {
  active = λ path token m. absurd m;
  mid = λ path token e. absurd (ground arith);
}

-- The thread that registers is the one at hand.
Covered-same :
    (removed : List FilePath) (marking : List (List FilePath)) (flags : List Bool)
    (path p : FilePath) (token t : Token)
    → Covered removed marking flags path token
    → ◌≡◌ {A = Option (FilePath × Token)} (some (path, token)) (some (p, t))
    → Covered removed marking flags p t
Covered-same removed marking flags path p token t k e =
    subst (λ (q : FilePath × Token). Covered removed marking flags q.0 q.1) (some-injective _ _ e) k

none-not-some :
    (path : FilePath) (token : Token) (o : Option (FilePath × Token))
    → o ≡ none
    → o ≡ some (path, token)
    → ⊥
none-not-some path token o e h = cc

Step-Inv : {w v : World} → Step w v → Inv w → Inv v
unfolding register_begin register_push deregister_decode mark_extend clear_removed_root_overlap
    mark_tokens
Step-Inv {w} (begin_register path e) i = record {
  active = λ p t m.
      Covered-append _ _ w.control.flags (is_path_removed path w.control) p t (i.active p t m);
  mid = λ p t h. Covered-same _ _ _ path p _ t (Covered-fresh w.control w.marking path) h;
}
Step-Inv {w} (end_register path token e) i = record {
  active = λ p t m. elim (mem_of_append w.control.active_decodes ((path, token) ∷ []) (p, t) m) [
    | inl old ↦ i.active p t old
    | inr (inl new) ↦
        Covered-same _ _ _ path p token t (i.mid path token e)
          (ap {B = Option (FilePath × Token)} some (sym new))
    | inr (inr nowhere) ↦ absurd nowhere
  ];
  mid = λ p t h. absurd (none-not-some p t none refl h);
}
Step-Inv {w} (drop_registration token e) i = record {
  active = λ p t m. i.active p t (mem_of_retain _ w.control.active_decodes (p, t) m).0;
  mid = i.mid;
}
Step-Inv {w} (begin_mark roots) i =
    let adds : (p : FilePath) (t : Token)
        → Covered w.control.removed_roots w.marking w.control.flags p t
        → Covered (w.control.removed_roots ++ roots) (roots ∷ w.marking) w.control.flags p t =
      λ p t.
        Covered-weaken w.control.removed_roots (w.control.removed_roots ++ roots) w.marking
          (roots ∷ w.marking) w.control.flags p t
          (λ root m. elim (mem_of_append w.control.removed_roots roots root m) [
            | inl old ↦ inl old
            | inr new ↦ inr (roots, inl refl, new)
          ])
          (λ root (rs, v, r). (rs, inr v, r)) in
    record { active = λ p t m. adds p t (i.active p t m); mid = λ p t h. adds p t (i.mid p t h) }
Step-Inv {w} (end_mark roots before after e same) i = record {
  active = λ p t m.
      Covered-mark w.control before after roots p t m
        (subst (λ k. Covered w.control.removed_roots k w.control.flags p t) same (i.active p t m));
  mid = λ p t h. absurd (none-not-some p t w.registering e h);
}
Step-Inv {w} (clear_overlap added) i =
    let less : (p : FilePath) (t : Token)
        → Covered w.control.removed_roots w.marking w.control.flags p t
        → Covered (clear_removed_root_overlap added w.control).removed_roots w.marking
            w.control.flags p t =
      λ p t.
        Covered-weaken w.control.removed_roots _ w.marking w.marking w.control.flags p t
          (λ root m. inl (mem_of_retain _ w.control.removed_roots root m).0) (λ root v. v) in
    record { active = λ p t m. less p t (i.active p t m); mid = λ p t h. less p t (i.mid p t h) }

Reach-Inv : {w : World} → Reach w → Inv w
Reach-Inv here = start-Inv
Reach-Inv (next r s) = Step-Inv s (Reach-Inv r)

-- However registrations, drops, removals and re-additions of roots interleave: whenever no
-- removal is between its two blocks, every registered decode of a path under a removed root has
-- its token set.
pub removed_decode_told :
    (w : World) (path : FilePath) (token : Token)
    → Reach w
    → w.marking ≡ []
    → (path, token) ∈ w.control.active_decodes
    → is_path_removed path w.control ≡ true
    → get_elem? w.control.flags token ≡ some true
unfolding is_path_removed
removed_decode_told w path token r quiet m gone = elim ((Reach-Inv r).active path token m).1 [
  | inl told ↦ told
  | inr free ↦
      let (root, at, under) = mem-any (λ x. path_under_root path x) w.control.removed_roots gone in
      let (rs, v, i) = free root at under in
      let nowhere : rs ∈ [] = subst (λ k. rs ∈ k) quiet v in absurd nowhere
]
