-- ===== src/Alloc/CapAllocator.antt =====
-- kernel/src/alloc/cap_allocator.rs: the tree of allocators that pay for kernel memory. The
-- allocators are a store under numbers, a parent is the number of another allocator. The allocators
-- that a call passes are locked until it ends, so a call is one step.
pub mod Store
pub mod Steps
pub mod Prealloc
pub mod Accounting
use aurora_os.Prelude.{
  ℕ, zero, suc, ◌+◌, ◌-◌, ◌*◌, ◌%◌, Bool, true, false, Option, none, some, ltb, ◌==◌, if◌then◌else◌,
}
use aurora_os.BitUtils.{usize_mod, page_size, align_up}
use aurora_os.KResult.{KResult, ok, err, panic, out_of_mem, unknown}

pub record CapAllocatorInner : Type 0 where
  pub parent : Option ℕ
  pub is_alive : Bool
  pub max_capacity : ℕ
  pub prealloc_size : ℕ
  pub used_size : ℕ

abbrev pub Allocators : Type 0
Allocators = ℕ → CapAllocatorInner

unfoldable pub update : ℕ → CapAllocatorInner → Allocators → Allocators
update i a s j = if j == i then a else s j

abbrev pub parent_of : Allocators → ℕ → Option ℕ
parent_of s i = CapAllocatorInner.parent (s i)

abbrev pub alive : Allocators → ℕ → Bool
alive s i = CapAllocatorInner.is_alive (s i)

abbrev pub capacity : Allocators → ℕ → ℕ
capacity s i = CapAllocatorInner.max_capacity (s i)

abbrev pub prealloc : Allocators → ℕ → ℕ
prealloc s i = CapAllocatorInner.prealloc_size (s i)

abbrev pub used : Allocators → ℕ → ℕ
used s i = CapAllocatorInner.used_size (s i)

-- The loop of `get_parent`; the parent field of the allocator is its cursor. An allocator is made
-- after its parent, so its number is enough fuel.
unfoldable pub closest_alive : ℕ → Allocators → Option ℕ → Option ℕ
closest_alive zero s cursor = none
closest_alive (suc fuel) s none = none
closest_alive (suc fuel) s (some p) = elim (alive s p) [
  | true ↦ some p
  | false ↦ closest_alive fuel s (parent_of s p)
]

unfoldable pub get_parent : ℕ → Allocators → Allocators × Option ℕ
get_parent me s =
    let p = closest_alive (suc me) s (parent_of s me) in
    (update me (record (s me) { parent = p }) s, p)

-- Turns preallocated bytes into used ones.
unfoldable pub spend : ℕ → ℕ → Allocators → Allocators
spend me bytes s =
    update me
      (record (s me) {
        prealloc_size = (prealloc s me + usize_mod - bytes) % usize_mod;
        used_size = (used s me + bytes) % usize_mod;
      })
      s

unfoldable pub receive : ℕ → ℕ → Allocators → Allocators
receive me bytes s =
    update me (record (s me) { prealloc_size = (prealloc s me + bytes) % usize_mod }) s

-- Moves bytes from what the parent has preallocated to what the child has.
unfoldable pub transfer : ℕ → ℕ → ℕ → Allocators → Allocators
transfer p me bytes s = receive me bytes (spend p bytes s)

-- `prealloc_inner`, by the recursion depth that is left once it has been decremented.
unfoldable pub prealloc_inner : ℕ → ℕ → ℕ → Allocators → Allocators × KResult (Unit {0})
prealloc_inner zero me bytes s = (s, err unknown)
prealloc_inner (suc depth) me bytes s =
    elim (ltb (capacity s me) ((used s me + prealloc s me + bytes) % usize_mod)) [
      | true ↦ (s, err out_of_mem)
      | false ↦
          let (s₁, closest) = get_parent me s in
          elim closest [
            | none ↦ (s₁, err out_of_mem)
            | some p ↦ elim (ltb (prealloc s₁ p) bytes) [
              | false ↦ (transfer p me bytes s₁, ok tt)
              | true ↦
                  let (s₂, result) =
                    prealloc_inner depth p (align_up (bytes - prealloc s₁ p) page_size) s₁ in
                  elim result [
                    | ok _ ↦ (transfer p me bytes s₂, ok tt)
                    | err e ↦ (s₂, err e)
                    | panic ↦ (s₂, panic)
                  ]
            ]
          ]
    ]

abbrev pub prealloc_recurse_depth : ℕ
prealloc_recurse_depth = 8

unfoldable pub alloc_bytes : ℕ → ℕ → Allocators → Allocators × KResult (Unit {0})
alloc_bytes me bytes s = elim (ltb (prealloc s me) bytes) [
  | false ↦ (spend me bytes s, ok tt)
  | true ↦
      let (s₁, result) =
        prealloc_inner (prealloc_recurse_depth - 1) me (align_up (bytes - prealloc s me) page_size)
          s in
      elim result [ ok _ ↦ (spend me bytes s₁, ok tt) | err e ↦ (s₁, err e) | panic ↦ (s₁, panic) ]
]

-- The assertion that no more is freed than is used is a panic.
unfoldable pub dealloc_bytes : ℕ → ℕ → Allocators → Allocators × KResult (Unit {0})
dealloc_bytes me bytes s = if ltb (used s me) bytes then (s, panic) else (
  update me
      (record (s me) {
        prealloc_size = (prealloc s me + bytes) % usize_mod;
        used_size = used s me - bytes;
      })
      s,
  ok tt,
)

unfoldable pub new_root : ℕ → CapAllocatorInner
new_root total_pages = record {
  parent = none;
  is_alive = true;
  max_capacity = page_size * total_pages % usize_mod;
  prealloc_size = page_size * total_pages % usize_mod;
  used_size = 0;
}

unfoldable pub kill_allocator : ℕ → Allocators → Allocators
kill_allocator me s = update me (record (s me) { is_alive = false }) s
