-- ===== src/Matcher/Merge/Classes.antt =====
-- Files that groups of crates/vidcull-matcher/src/cluster.rs put together, and their positions.
use vidcull.Prelude.{
  ℕ, ◌<◌, ◌≡◌, refl, sym, ap, ◌∙◌, ◌⊎◌, inl, inr, some, List, ◌∈◌, length, get_elem?-lt,
}
use mathlib.Core.Path.{subst}
use vidcull.Core.{FileId}
use vidcull.Matcher.DisjointSet.Closure.{Chain, same, pair, back, trans}
use vidcull.Matcher.Trust.{GroupMembership}
use vidcull.Matcher.Merge.Ids.{Member, first, later}
use vidcull.Matcher.Merge.Positions.{
  Shared, in_first, in_later, At, mem-At, At-get_elem?, At-injective, AllPairs,
}

-- Two files are together if a chain of groups leads from one to the other.
pub data Together (gs : List GroupMembership) : FileId → FileId → Type 0 where
  share : {x y : FileId} → Shared x y gs → Together gs x y
  swap : {x y : FileId} → Together gs x y → Together gs y x
  join : {x y z : FileId} → Together gs x y → Together gs y z → Together gs x z

pub Member-Shared : {x : FileId} {gs : List GroupMembership} → Member x gs → Shared x x gs
Member-Shared (first m) = in_first m m
Member-Shared (later m) = in_later (Member-Shared m)

pub Shared-Member :
    {x y : FileId} {gs : List GroupMembership} → Shared x y gs → Member x gs × Member y gs
Shared-Member (in_first m n) = (first m, first n)
Shared-Member (in_later s) = let (m, n) = Shared-Member s in (later m, later n)

pub Together-Member :
    {gs : List GroupMembership} {x y : FileId} → Together gs x y → Member x gs × Member y gs
Together-Member (share s) = Shared-Member s
Together-Member (swap t) = let (m, n) = Together-Member t in (n, m)
Together-Member (join t u) = ((Together-Member t).0, (Together-Member u).1)

abbrev Pulled : List FileId → List GroupMembership → ℕ → ℕ → Type 0
Pulled ids gs i j =
    (i ≡ j) ⊎ ((x : FileId) × (y : FileId) × At ids x i × At ids y j × Together gs x y)

pull_back :
    (ids : List FileId) (gs : List GroupMembership) (i j : ℕ)
    → Pulled ids gs i j
    → Pulled ids gs j i
pull_back ids gs i j (inl e) = inl (sym e)
pull_back ids gs i j (inr (x, y, at, at', t)) = inr (y, x, at', at, swap t)

pull_trans :
    (ids : List FileId) (gs : List GroupMembership) (i j k : ℕ)
    → Pulled ids gs i j
    → Pulled ids gs j k
    → Pulled ids gs i k
pull_trans ids gs i j k (inl e) p = rw e p
pull_trans ids gs i j k (inr p) (inl e) = subst (Pulled ids gs i) e (inr p)
pull_trans ids gs i j k (inr (x, y, ax, ay, t)) (inr (y', z, ay', az, u)) =
    inr (x, z, ax, az, join t (subst (λ v. Together gs v z) (At-injective ids y' y j ay' ay) u))

Chain-Pulled :
    {ids : List FileId} {gs : List GroupMembership} {pairs : List (ℕ × ℕ)} {i j : ℕ}
    → AllPairs ids gs pairs
    → Chain (length ids) pairs i j
    → Pulled ids gs i j
Chain-Pulled p (same low) = inl refl
Chain-Pulled p (pair {a = a} {b = b} m) =
    let (x, y, s, ax, ay) = p.sound a b m in inr (x, y, ax, ay, share s)
Chain-Pulled {ids = ids} {gs = gs} p (back {x = i} {y = j} c) =
    pull_back ids gs i j (Chain-Pulled p c)
Chain-Pulled {ids = ids} {gs = gs} p (trans {x = i} {y = j} {z = k} c d) =
    pull_trans ids gs i j k (Chain-Pulled p c) (Chain-Pulled p d)

-- A chain of pairs of positions is a chain of groups.
pub Chain-Together :
    {ids : List FileId} {gs : List GroupMembership} {pairs : List (ℕ × ℕ)} {x y : FileId} {i j : ℕ}
    → AllPairs ids gs pairs
    → Member x gs
    → At ids x i
    → At ids y j
    → Chain (length ids) pairs i j
    → Together gs x y
Chain-Together {ids = ids} {gs = gs} {x = x} {y = y} {i = i} {j = j} p m ax ay c =
    elim (Chain-Pulled p c) [
      | inl e ↦
          subst (Together gs x) (At-injective ids x y j (ax ∙ ap some e) ay)
            (share (Member-Shared m))
      | inr (x', y', ax', ay', t) ↦
          let ex = At-injective ids x' x i ax' ax in
          let ey = At-injective ids y' y j ay' ay in
          subst (λ v. Together gs v y) ex (subst (Together gs x') ey t)
    ]

step :
    {n : ℕ} {pairs : List (ℕ × ℕ)} (a c : ℕ)
    → a < n
    → (a ≡ c) ⊎ ((c, a) ∈ pairs)
    → Chain n pairs c a
step {n = n} {pairs = pairs} a c low (inl e) = subst (λ v. Chain n pairs v a) e (same low)
step a c low (inr m) = pair m

At-lt : (ids : List FileId) (x : FileId) (i : ℕ) → At ids x i → i < length ids
At-lt ids x i h = get_elem?-lt ids i x (At-get_elem? ids x i h)

-- A chain of groups is a chain of pairs of positions.
pub Together-Chain :
    {ids : List FileId} {gs : List GroupMembership} {pairs : List (ℕ × ℕ)} {x y : FileId} (i j : ℕ)
    → ((z : FileId) → Member z gs → z ∈ ids)
    → AllPairs ids gs pairs
    → Together gs x y
    → At ids x i
    → At ids y j
    → Chain (length ids) pairs i j
Together-Chain {ids = ids} {x = x} {y = y} i j h p (share s) ax ay =
    let (c, l, r) = p.linked x y i j s ax ay in
    trans (back (step i c (At-lt ids x i ax) l)) (step j c (At-lt ids y j ay) r)
Together-Chain i j h p (swap t) ax ay = back (Together-Chain j i h p t ay ax)
Together-Chain {ids = ids} i j h p (join {y = z} t u) ax ay =
    let (k, az, low) = mem-At ids z (h z (Together-Member t).1) in
    trans (Together-Chain i k h p t ax az) (Together-Chain k j h p u az ay)
