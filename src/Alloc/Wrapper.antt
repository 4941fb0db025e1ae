-- ===== src/Alloc/Wrapper.antt =====
-- CapAllocatorWrapper of kernel/src/alloc/cap_allocator.rs: the allocation of pages and heap memory,
-- paid by the closest allocator that is alive. What the zone and heap managers answer is an argument.
pub mod Books
pub mod Paid
use aurora_os.Prelude.{ℕ, ◌-◌, ◌≡◌, Bool, true, false, Option, none, some, ltb, ◌==◌, if◌then◌else◌}
use aurora_os.KResult.{KResult, ok, err, panic}
use aurora_os.Alloc.CapAllocator
use aurora_os.Alloc.CapAllocator.{Allocators, alive, get_parent}

-- A wrapper's allocator and the store, which every call may change.
abbrev pub Wrapped : Type 0
Wrapped = ℕ × Allocators

-- The allocator that a call of `with_inner` works on; none is the panic "root allocator died".
unfoldable pub target : Wrapped → Allocators × Option ℕ
target (w, s) = elim (alive s w) [ true ↦ (s, some w) | false ↦ get_parent w s ]

unfoldable pub with_inner :
    (ℕ → Allocators → Allocators × KResult (Unit {0})) → Wrapped → Wrapped × KResult (Unit {0})
with_inner f ws = elim (target ws).1 [
  | none ↦ ((ws.0, (target ws).0), panic)
  | some t ↦ let (s₁, r) = f t (target ws).0 in ((t, s₁), r)
]

unfoldable pub alloc_bytes : ℕ → Wrapped → Wrapped × KResult (Unit {0})
alloc_bytes size = with_inner (λ t. CapAllocator.alloc_bytes t size)

unfoldable pub dealloc_bytes : ℕ → Wrapped → Wrapped × KResult (Unit {0})
dealloc_bytes size = with_inner (λ t. CapAllocator.dealloc_bytes t size)

-- `r` as the result of a call that has the answer `a`; an error of `dealloc_bytes` is a panic.
abbrev pub answer {ℓ} : {A : Type ℓ} → Option A → KResult (Unit {0}) → KResult (Option A)
answer a (ok _) = ok a
answer a (err e) = ok a
answer a panic = panic

-- page_alloc: charges the size, then asks the zone manager.
unfoldable pub page_alloc {ℓ} : {A : Type ℓ} → ℕ → Option A → Wrapped → Wrapped × KResult (Option A)
page_alloc alloc_size allocation ws =
    let (ws₁, r) = alloc_bytes alloc_size ws in
    elim r [
      | err e ↦ (ws₁, ok none)
      | panic ↦ (ws₁, panic)
      | ok _ ↦ elim allocation [
        | some a ↦ (ws₁, ok (some a))
        | none ↦ let (ws₂, r₂) = dealloc_bytes alloc_size ws₁ in (ws₂, answer none r₂)
      ]
    ]

-- heap_alloc: asks the heap, then charges the size of what it gave.
unfoldable pub heap_alloc {ℓ} :
    {A : Type ℓ} → (A → ℕ) → Option A → Wrapped → Wrapped × KResult (Option A)
heap_alloc size none ws = (ws, ok none)
heap_alloc size (some a) ws =
    let (ws₁, r) = alloc_bytes (size a) ws in
    elim r [ ok _ ↦ (ws₁, ok (some a)) | err e ↦ (ws₁, ok none) | panic ↦ (ws₁, panic) ]

-- The end of a reallocation, after the bytes for growth were charged.
unfoldable pub settle {ℓ} : {A : Type ℓ} → ℕ → ℕ → Option A → Wrapped → Wrapped × KResult (Option A)
settle old_size new_size none ws = elim (ltb old_size new_size) [
  | true ↦ let (ws₁, r) = dealloc_bytes (new_size - old_size) ws in (ws₁, answer none r)
  | false ↦ (ws, ok none)
]
settle old_size new_size (some a) ws = elim (ltb new_size old_size) [
  | true ↦ let (ws₁, r) = dealloc_bytes (old_size - new_size) ws in (ws₁, answer (some a) r)
  | false ↦ (ws, ok (some a))
]

-- page_realloc_inner and heap_realloc: `old` is the allocation to change, `allocation` the answer of
-- the manager.
unfoldable pub realloc {ℓ} :
    {A : Type ℓ} → A → ℕ → ℕ → Option A → Wrapped → Wrapped × KResult (Option A)
realloc old old_size new_size allocation ws = elim (old_size == new_size) [
  | true ↦ (ws, ok (some old))
  | false ↦ elim (ltb old_size new_size) [
    | false ↦ settle old_size new_size allocation ws
    | true ↦
        let (ws₁, r) = alloc_bytes (new_size - old_size) ws in
        elim r [
          | ok _ ↦ settle old_size new_size allocation ws₁
          | err e ↦ (ws₁, ok none)
          | panic ↦ (ws₁, panic)
        ]
  ]
]

-- page_realloc and page_realloc_in_place, by the answer of the zone manager.
abbrev pub page_realloc {ℓ} :
    {A : Type ℓ} → A → ℕ → ℕ → Option A → Wrapped → Wrapped × KResult (Option A)
page_realloc = realloc

-- heap_realloc: the sizes are those of the memory that the heap gives for the layouts.
abbrev pub heap_realloc {ℓ} :
    {A : Type ℓ} → A → ℕ → ℕ → Option A → Wrapped → Wrapped × KResult (Option A)
heap_realloc = realloc

-- page_dealloc and heap_dealloc: the bytes are given back before the memory.
abbrev pub page_dealloc : ℕ → Wrapped → Wrapped × KResult (Unit {0})
page_dealloc = dealloc_bytes

abbrev pub heap_dealloc : ℕ → Wrapped → Wrapped × KResult (Unit {0})
heap_dealloc = dealloc_bytes
