-- ===== src/AddrSpace.antt =====
-- userland/aurora_core/src/allocator/addr_space.rs: the mapped regions of an address space.
pub mod Cells
pub mod Regions
pub mod Free
pub mod Action
pub mod Map
pub mod IsWf
pub mod Gaps
pub mod Find
pub mod Order
pub mod Store
pub mod Effects
pub mod Steps
pub mod Mapping
pub mod Unmap
pub mod Pools
pub mod NullPage
pub mod Reach
pub mod Asked
pub mod Storage
pub mod Create
pub mod Remote
pub mod Created
mod Tests
use aurora_os.Prelude.{
  ◌≡◌, ◌⊎◌, inl, inr, refl, ℕ, ◌+◌, ◌%◌, ◌^◌, Bool, true, false, Option, none, some, leb, ltb,
  if◌then◌else◌,
}
use aurora_os.KResult.{SysErr}
use aurora_os.BitUtils.{usize_mod, wrapping_sub}
use aurora_os.BitUtils.Size.{bytes_aligned}

-- `LOWER_HALF_END`
abbrev pub max_map_addr : ℕ
max_map_addr = 2 ^ 47

pub data AddrSpaceError : Type 0 where
  region_list_oom region_list_max_size_exceeded ananamous_mapping_oom : AddrSpaceError
  zero_size_mapping mapping_overlap overflow no_available_region size_mismatch : AddrSpaceError
  invalid_address : ℕ → AddrSpaceError
  memory_syscall_error : SysErr → AddrSpaceError

pub record RegionPadding : Type 0 where
  pub start : ℕ
  pub end : ℕ

-- A capability is its number.
pub data MappingTarget : Type 0 where
  memory event_pool phys_mem : ℕ → MappingTarget
  empty : MappingTarget

abbrev pub is_empty : MappingTarget → Bool
is_empty empty = true
is_empty _ = false

abbrev pub target_memory : MappingTarget → Option ℕ
target_memory (memory m) = some m
target_memory _ = none

-- `From<Option<Memory>>`
abbrev pub from_memory : Option ℕ → MappingTarget
from_memory (some m) = memory m
from_memory none = empty

pub record MappedRegion : Type 0 where
  pub map_target : MappingTarget
  pub address : ℕ
  pub size : ℕ
  pub padding : RegionPadding

unfoldable pub start_address : MappedRegion → ℕ
start_address region = wrapping_sub region.address region.padding.start

unfoldable pub end_address : MappedRegion → ℕ
end_address region = (region.address + region.size + region.padding.end) % usize_mod

unfoldable pub contains_address : ℕ → MappedRegion → Bool
contains_address addr region =
    if leb region.address addr
    then ltb addr (
        (region.address + bytes_aligned region.size + bytes_aligned region.padding.end) % usize_mod)
    else leb (wrapping_sub region.address (bytes_aligned region.padding.start)) addr

-- The result of an operation; a panic is a third outcome.
pub data Outcome {ℓ} (A : Type ℓ) : Type ℓ where
  ok : A → Outcome A
  err : AddrSpaceError → Outcome A
  panic : Outcome A

-- The result of a system call.
pub data SysResult {ℓ} (A : Type ℓ) : Type ℓ where
  returned : A → SysResult A
  refused : SysErr → SysResult A

-- To split on an answer and keep the equation.
pub SysResult-cases {ℓ} :
    {A : Type ℓ} (r : SysResult A) → ((a : A) × (r ≡ returned a)) ⊎ ((e : SysErr) × (r ≡ refused e))
SysResult-cases (returned a) = inl (a, refl)
SysResult-cases (refused e) = inr (e, refl)

-- `map_err` of the result of a system call.
abbrev pub map_err {ℓ} : {A : Type ℓ} → AddrSpaceError → SysResult A → Outcome A
map_err e (returned a) = ok a
map_err e (refused _) = err e

-- `?` on the result of a system call.
abbrev pub from_sys {ℓ} : {A : Type ℓ} → SysResult A → Outcome A
from_sys (returned a) = ok a
from_sys (refused e) = err (memory_syscall_error e)

-- `unwrap` and `expect`.
abbrev pub unwrap {ℓ} : {A : Type ℓ} → Outcome A → Outcome A
unwrap (ok a) = ok a
unwrap _ = panic
