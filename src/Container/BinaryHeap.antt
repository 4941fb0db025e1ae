-- ===== src/Container/BinaryHeap.antt =====
-- kernel/src/container/binary_heap.rs: a max heap in a vector. A fuel that runs out counts as a
-- panic.
pub mod Places
pub mod Order
pub mod Queue
use aurora_os.Prelude.{
  ℕ, zero, suc, ◌+◌, ◌-◌, ◌*◌, ◌/◌, ◌==◌, List, [], ◌∷◌, ◌++◌, Bool, Option, none, some, leb,
  length, get_elem?, set, take, if◌then◌else◌,
}
use aurora_os.KResult.{KResult, ok, err, panic, out_of_mem, ◌>>=◌}

-- `a < b` of the elements.
pub record Ord (T : Type 0) : Type 0 where
  pub lt : T → T → Bool

abbrev pub parent : ℕ → Option ℕ
parent index = if index == 0 then none else some ((index - 1) / 2)

module _ {T : Type 0} where
  -- `data[index]`
  unfoldable pub at : List T → ℕ → KResult T
  at xs index = elim (get_elem? xs index) [ none ↦ panic | some x ↦ ok x ]

  unfoldable pub swap : List T → ℕ → ℕ → KResult (List T)
  unfolding at
  swap xs i j = do x ← at xs i; y ← at xs j; ok (set (set xs i y) j x)

  abbrev pub left_child : List T → ℕ → Option ℕ
  left_child xs index = if leb (length xs) (index * 2 + 1) then none else some (index * 2 + 1)

  abbrev pub right_child : List T → ℕ → Option ℕ
  right_child xs index = if leb (length xs) (index * 2 + 2) then none else some (index * 2 + 2)

  unfoldable pub peek : List T → Option T
  peek xs = get_elem? xs 0

module _ {T : Type 0} ⦃ord : Ord T⦄ where
  -- `data[i] < data[j]`
  unfoldable pub below : List T → ℕ → ℕ → KResult Bool
  unfolding at
  below xs i j = do x ← at xs i; y ← at xs j; ok (ord.lt x y)

  -- The choice of largest_child between the children that there are.
  unfoldable pub larger : List T → Option ℕ → Option ℕ → KResult (Option ℕ)
  unfolding below
  larger xs (some left) (some right) =
      below xs right left >>= λ b. ok (some (if b then left else right))
  larger xs (some left) none = ok (some left)
  larger xs none right = ok right

  unfoldable pub largest_child : List T → ℕ → KResult (Option ℕ)
  unfolding larger
  largest_child xs index = larger xs (left_child xs index) (right_child xs index)

  -- The loop of push.
  unfoldable pub sift_up : ℕ → List T → ℕ → KResult (List T)
  unfolding below swap
  sift_up zero xs index = panic
  sift_up (suc fuel) xs index = elim (parent index) [
    | none ↦ ok xs
    | some p ↦
        below xs p index >>= λ b. if b then (swap xs p index >>= λ ys. sift_up fuel ys p) else ok xs
  ]

  -- The loop of pop.
  unfoldable pub sift_down : ℕ → List T → ℕ → KResult (List T)
  unfolding largest_child below swap
  sift_down zero xs index = panic
  sift_down (suc fuel) xs index = largest_child xs index >>= λ largest. elim largest [
    | none ↦ ok xs
    | some child ↦ below xs index child >>= λ b.
        if b then (swap xs index child >>= λ ys. sift_down fuel ys child) else ok xs
  ]

  -- `room` is whether the heap of the kernel has memory for one more.
  unfoldable pub push : Bool → T → List T → KResult (List T)
  unfolding sift_up
  push room object xs =
      if room then sift_up (suc (length xs)) (xs ++ (object ∷ [])) (length xs) else err out_of_mem

  -- After the last element is taken off.
  unfoldable pub pop_from : T → List T → KResult (Option T × List T)
  unfolding sift_down
  pop_from tail [] = ok (some tail, [])
  pop_from tail (out ∷ xs) = do ys ← sift_down (suc (length xs)) (tail ∷ xs) 0; ok (some out, ys)

  unfoldable pub pop : List T → KResult (Option T × List T)
  unfolding pop_from
  pop xs = elim (get_elem? xs (length xs - 1)) [
    | none ↦ ok (none, [])
    | some tail ↦ pop_from tail (take (length xs - 1) xs)
  ]
