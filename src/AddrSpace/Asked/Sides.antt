-- ===== src/AddrSpace/Asked/Sides.antt =====
-- The regions on the two sides of an address, for is_region_free.
use aurora_os.Prelude.{
  ℕ, ◌≤◌, ◌<◌, ◌≡◌, refl, List, [], ◌∷◌, ◌++◌, Bool, true, false, ◌&&◌, inl, inr, arith, All,
}
use aurora_os.AddrSpace.{MappedRegion}
use aurora_os.AddrSpace.IsWf.{IsWfFrom, first, past, Free}
use aurora_os.AddrSpace.Order.{Before, After, IsWfFrom-After, not_absent, head-eq, tail-eq}

pub and-left : (a b : Bool) → (a && b) ≡ true → a ≡ true
and-left true b e = refl
and-left false b e = cc

pub and-right : (a b : Bool) → (a && b) ≡ true → b ≡ true
and-right true b e = e
and-right false b e = cc

-- The first region of a list begins at or after an address.
abbrev pub StartsAt : ℕ → List MappedRegion → Type 0
StartsAt hi [] = Unit
StartsAt hi (r ∷ _) = hi ≤ first r

-- What is before and after an address in a list that has a place for it.
pub IsWfFrom-sides :
    (lo k : ℕ) (pre post : List MappedRegion) (r : MappedRegion)
    → IsWfFrom lo (pre ++ (r ∷ post))
    → All (λ (x : MappedRegion). past x ≤ k) pre
    → k < r.address
    → Before k pre × After k (r ∷ post)
unfolding IsWfFrom
IsWfFrom-sides lo k [] post r (w, _, ws) free lt =
    (tt, (lt, IsWfFrom-After (past r) k post (omega (arith, lt, w.nonempty)) ws))
IsWfFrom-sides lo k (x ∷ pre) post r (w, _, ws) (le, free) lt =
    let (b, a) = IsWfFrom-sides (past x) k pre post r ws free lt in
    ((omega (arith, w.nonempty, le), b), a)

pub sides-other :
    (k : ℕ) (pre post : List MappedRegion)
    → Before k pre
    → After k post
    → (pre' post' : List MappedRegion) (r : MappedRegion) → pre ++ post ≡ pre' ++ (r ∷ post')
    → ¬ (r.address ≡ k)
sides-other k pre post b a pre' post' r e same =
    not_absent k pre' post' r (rw e at (other pre b)) same
  where
    above :
        (post : List MappedRegion)
        → After k post
        → All (λ (x : MappedRegion). ¬ (x.address ≡ k)) post
    above [] a = tt
    above (x ∷ post) (lt, a) = (λ q. absurd (omega (arith, lt, q)), above post a)

    other :
        (pre : List MappedRegion)
        → Before k pre
        → All (λ (x : MappedRegion). ¬ (x.address ≡ k)) (pre ++ post)
    other [] b = above post a
    other (x ∷ pre) (lt, b) = (λ q. absurd (omega (arith, lt, q)), other pre b)

pub sides_unique :
    (k : ℕ) (pre post pre' post' : List MappedRegion)
    → Before k pre
    → After k post
    → Before k pre'
    → After k post'
    → pre ++ post ≡ pre' ++ post'
    → (pre ≡ pre') × (post ≡ post')
sides_unique k [] post [] post' b a b' a' e = (refl, e)
sides_unique k [] post (x ∷ pre') post' b a (lt, b') a' e =
    absurd (omega (arith, (rw e at a).0, lt))
sides_unique k (x ∷ pre) post [] post' (lt, b) a b' a' e =
    absurd (omega (arith, (rw (← e) at a').0, lt))
sides_unique k (x ∷ pre) post (y ∷ pre') post' (_, b) a (_, b') a' e =
    let (one, two) = sides_unique k pre post pre' post' b a b' a' (tail-eq e) in
    (rw (head-eq e, one) refl, two)

-- What ends before the first region of a side begins, and begins after the other side, is free.
pub Free-sides :
    (lo from to : ℕ) (pre post : List MappedRegion)
    → IsWfFrom lo (pre ++ post)
    → All (λ (r : MappedRegion). past r ≤ from) pre
    → StartsAt to post
    → Free from to (pre ++ post)
unfolding IsWfFrom
Free-sides lo from to [] [] w b a = tt
Free-sides lo from to [] (r ∷ post) (w, _, ws) b le =
    (inr le, Free-sides (past r) from to [] post ws tt (later post ws))
  where
    later : (post : List MappedRegion) → IsWfFrom (past r) post → StartsAt to post
    later [] ws = tt
    later (q ∷ post) (_, l, _) = omega (arith, l, le, w.nonempty, w.fits)
Free-sides lo from to (r ∷ pre) post (w, _, ws) (le, b) a =
    (inl le, Free-sides (past r) from to pre post ws b a)
