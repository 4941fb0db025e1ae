-- ===== src/AddrSpace/Order.antt =====
-- The order of the regions by address: where a search leads in a well-formed list.
use Prim.Native.Nat.{compare}
use aurora_os.Prelude.{
  ℕ, ◌≤◌, ◌<◌, ◌≡◌, inl, inr, refl, arith, List, [], ◌∷◌, ◌++◌, All, length, subst, ap,
}
use aurora_os.Container.VecMap.{Place, found, missing, BinarySearch}
use aurora_os.AddrSpace.{MappedRegion}
use aurora_os.AddrSpace.IsWf.{first, past, IsRegion, IsWfFrom, Apart, Free}

abbrev pub Before : ℕ → List MappedRegion → Type 0
Before k = All (λ (r : MappedRegion). r.address < k)

abbrev pub After : ℕ → List MappedRegion → Type 0
After k = All (λ (r : MappedRegion). k < r.address)

unfoldable pub InOrder : List MappedRegion → Type 0
InOrder [] = Unit
InOrder (r ∷ rs) = After r.address rs × InOrder rs

-- What a search for an address answers: the place of its region, or the place for one.
pub data Finds (k : ℕ) (regions : List MappedRegion) (place : Place) : Type 0 where
  at :
      (pre post : List MappedRegion) (r : MappedRegion)
      → place ≡ found (length pre)
      → regions ≡ pre ++ (r ∷ post)
      → r.address ≡ k
      → Finds k regions place
  between :
      (pre post : List MappedRegion)
      → place ≡ missing (length pre)
      → regions ≡ pre ++ post
      → Before k pre
      → After k post
      → Finds k regions place

-- The documented behaviour of binary_search_by_key on a slice in order.
pub record SearchLaws (bs : BinarySearch MappedRegion) : Type 0 where
  pub finds :
      (k : ℕ) (regions : List MappedRegion)
      → InOrder regions
      → Finds k regions (bs.binary_search_by (λ (r : MappedRegion). compare r.address k) regions)

pub IsWfFrom-After :
    (lo k : ℕ) (regions : List MappedRegion) → k < lo → IsWfFrom lo regions → After k regions
unfolding IsWfFrom
IsWfFrom-After lo k [] lt w = tt
IsWfFrom-After lo k (r ∷ rs) lt (w, l, ws) = (
  omega (arith, lt, l, w.fits),
  IsWfFrom-After (past r) k rs (omega (arith, lt, l, w.fits, w.nonempty)) ws,
)

pub IsWfFrom-InOrder :
    (lo : ℕ) (regions : List MappedRegion) → IsWfFrom lo regions → InOrder regions
unfolding IsWfFrom InOrder
IsWfFrom-InOrder lo [] w = tt
IsWfFrom-InOrder lo (r ∷ rs) (w, l, ws) =
    (IsWfFrom-After (past r) r.address rs w.nonempty ws, IsWfFrom-InOrder (past r) rs ws)

pub IsWfFrom-drop :
    (lo : ℕ) (pre post : List MappedRegion) (r : MappedRegion)
    → IsWfFrom lo (pre ++ (r ∷ post))
    → IsWfFrom lo (pre ++ post)
unfolding IsWfFrom
IsWfFrom-drop lo [] post r (w, l, ws) = lower lo (past r) post (omega (arith, l, w.nonempty)) ws
  where
    lower :
        (lo lo' : ℕ) (regions : List MappedRegion)
        → lo ≤ lo'
        → IsWfFrom lo' regions
        → IsWfFrom lo regions
    lower lo lo' [] le w = omega (arith, le, w)
    lower lo lo' (r ∷ rs) le (w, l, ws) = (w, omega (arith, le, l), ws)
IsWfFrom-drop lo (p ∷ pre) post r (w, l, ws) = (w, l, IsWfFrom-drop (past p) pre post r ws)

-- Two regions with addresses in order that are apart.
before_lem :
    (n r : MappedRegion)
    → IsRegion n
    → IsRegion r
    → r.address < n.address
    → Apart (first n) (past n) r
    → past r ≤ first n
before_lem n r wn wr lt (inl h) = h
before_lem n r wn wr lt (inr h) = absurd (omega (arith, h, lt, wn.nonempty, wr.fits))

after_lem :
    (n r : MappedRegion)
    → IsRegion n
    → IsRegion r
    → n.address < r.address
    → Apart (first n) (past n) r
    → past n ≤ first r
after_lem n r wn wr lt (inl h) = absurd (omega (arith, h, lt, wr.nonempty, wn.fits))
after_lem n r wn wr lt (inr h) = h

-- A region that is apart from all others goes to the place of its address.
pub IsWfFrom-insert :
    (lo : ℕ) (n : MappedRegion) (pre post : List MappedRegion)
    → IsRegion n
    → IsWfFrom lo (pre ++ post)
    → Free (first n) (past n) (pre ++ post)
    → lo ≤ first n
    → Before n.address pre
    → After n.address post
    → IsWfFrom lo (pre ++ (n ∷ post))
unfolding IsWfFrom
IsWfFrom-insert lo n [] [] wn ws f l b a = (wn, l, wn.below_end)
IsWfFrom-insert lo n [] (r ∷ post) wn (w, _, ws) (apart, f) l b (lt, a) =
    (wn, l, (w, after_lem n r wn w lt apart, ws))
IsWfFrom-insert lo n (r ∷ pre) post wn (w, l', ws) (apart, f) l (lt, b) a =
    (w, l', IsWfFrom-insert (past r) n pre post wn ws f (before_lem n r wn w lt apart) b a)

-- No region that is apart has the same address.
pub Free-other :
    (lo : ℕ) (n r : MappedRegion) (pre post : List MappedRegion)
    → IsRegion n
    → IsWfFrom lo (pre ++ (r ∷ post))
    → Free (first n) (past n) (pre ++ (r ∷ post))
    → ¬ (r.address ≡ n.address)
unfolding IsWfFrom
Free-other lo n r [] post wn (w, l, ws) (inl h, f) e =
    absurd (omega (arith, h, e, w.nonempty, wn.fits))
Free-other lo n r [] post wn (w, l, ws) (inr h, f) e =
    absurd (omega (arith, h, e, wn.nonempty, w.fits))
Free-other lo n r (p ∷ pre) post wn (w, l, ws) (_, f) e = Free-other (past p) n r pre post wn ws f e

pub All-at :
    (P : MappedRegion → Type 0) (pre post : List MappedRegion) (r : MappedRegion)
    → All P (pre ++ (r ∷ post))
    → P r
All-at P [] post r (h, _) = h
All-at P (p ∷ pre) post r (_, hs) = All-at P pre post r hs

pub head-eq : {a b : MappedRegion} {xs ys : List MappedRegion} → (a ∷ xs) ≡ (b ∷ ys) → a ≡ b
head-eq e = cc

pub tail-eq : {a b : MappedRegion} {xs ys : List MappedRegion} → (a ∷ xs) ≡ (b ∷ ys) → xs ≡ ys
tail-eq e = cc

-- An address stands for one region.
pub InOrder-unique :
    (pre post pre' post' : List MappedRegion) (r r' : MappedRegion)
    → InOrder (pre ++ (r ∷ post))
    → pre ++ (r ∷ post) ≡ pre' ++ (r' ∷ post')
    → r.address ≡ r'.address
    → (r ≡ r') × (pre ++ post ≡ pre' ++ post')
unfolding InOrder
InOrder-unique [] post [] post' r r' s e same = (head-eq e, tail-eq e)
InOrder-unique [] post (p ∷ pre') post' r r' (a, s) e same =
    let lt = All-at _ pre' post' r' (subst (After r.address) (tail-eq e) a) in
    absurd (omega (arith, lt, same))
InOrder-unique (p ∷ pre) post [] post' r r' (a, s) e same =
    let lt = All-at _ pre post r a in
    let here = ap (λ (x : MappedRegion). x.address) (head-eq e) in
    absurd (omega (arith, lt, same, here))
InOrder-unique (p ∷ pre) post (p' ∷ pre') post' r r' (a, s) e same =
    let (q, rest) = InOrder-unique pre post pre' post' r r' s (tail-eq e) same in
    (q, rw (head-eq e, rest) refl)

pub not_absent :
    (k : ℕ) (pre post : List MappedRegion) (r : MappedRegion)
    → All (λ (x : MappedRegion). ¬ (x.address ≡ k)) (pre ++ (r ∷ post))
    → ¬ (r.address ≡ k)
not_absent k pre post r h = All-at _ pre post r h

-- The first region of a list has the lowest address.
pub InOrder-first :
    (n r : MappedRegion) (regions rest : List MappedRegion)
    → InOrder (n ∷ regions)
    → regions ≡ r ∷ rest
    → n.address < r.address
unfolding InOrder
InOrder-first n r regions rest (a, s) e = (rw e at a).0

pub IsWfFrom-IsRegion :
    (lo : ℕ) (pre post : List MappedRegion) (r : MappedRegion)
    → IsWfFrom lo (pre ++ (r ∷ post))
    → IsRegion r
unfolding IsWfFrom
IsWfFrom-IsRegion lo [] post r (w, _, _) = w
IsWfFrom-IsRegion lo (p ∷ pre) post r (_, _, ws) = IsWfFrom-IsRegion (past p) pre post r ws
