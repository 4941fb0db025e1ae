-- ===== src/Alloc/Tests.antt =====
-- A root allocator with a child, and the theorems at them.
use aurora_os.Prelude.{ℕ, ◌≡◌, refl, arith, true, false, none, some, if◌then◌else◌, ◌==◌}
use aurora_os.KResult.{ok}
use aurora_os.Alloc.CapAllocator.{
  CapAllocatorInner, Allocators, alloc_bytes, prealloc_inner, get_parent, closest_alive, update,
  transfer, spend, receive,
}
use aurora_os.Alloc.CapAllocator.Store.{Ordered, Within, Bounded, Closest, get_parent-Closest}
use aurora_os.Alloc.CapAllocator.Prealloc.{Outcome, prealloc_inner-Outcome}
use aurora_os.Alloc.CapAllocator.Accounting.{Accounts, alloc_bytes-Accounts}
use aurora_os.Alloc.Wrapper.{target, realloc}
use aurora_os.Alloc.Wrapper.Books.{Sound}
use aurora_os.Alloc.Wrapper.Paid.{Paid, realloc-Paid}
use aurora_os.BitUtils.{align_up}

-- A root with 16 pages, and an empty child that may take 8 of them.
abbrev root : CapAllocatorInner
root = record {
  parent = none;
  is_alive = true;
  max_capacity = 65536;
  prealloc_size = 65536;
  used_size = 0;
}

abbrev child : CapAllocatorInner
child = record {
  parent = some 0;
  is_alive = true;
  max_capacity = 32768;
  prealloc_size = 0;
  used_size = 100;
}

abbrev unused_allocator : CapAllocatorInner
unused_allocator = record {
  parent = none;
  is_alive = false;
  max_capacity = 0;
  prealloc_size = 0;
  used_size = 0;
}

abbrev tree : Allocators
tree i = if i == 0 then root else (if i == 1 then child else unused_allocator)

tree-Ordered : Ordered tree
tree-Ordered i p e = ground arith

tree-Within : Within tree
tree-Within i = ground arith

tree-Bounded : Bounded tree
tree-Bounded i = ground arith

tree-Sound : Sound (1, tree)
tree-Sound = record { ordered = tree-Ordered; within = tree-Within; bounded = tree-Bounded }

alloc_bytes_run : (alloc_bytes 1 5000 tree).1 ≡ ok tt
unfolding alloc_bytes prealloc_inner get_parent closest_alive update transfer spend receive align_up
alloc_bytes_run = refl

child_target : (target (1, tree)).1 ≡ some 1
unfolding target
child_target = refl

get_parent-Closest_example : Closest tree (some 0) (get_parent 1 tree).1
get_parent-Closest_example = get_parent-Closest 1 tree tree-Ordered

prealloc_inner-Outcome_example :
    Outcome 1 8192 tree (prealloc_inner 7 1 8192 tree).0 (prealloc_inner 7 1 8192 tree).1
prealloc_inner-Outcome_example =
    prealloc_inner-Outcome 7 1 8192 tree tree-Ordered tree-Within tree-Bounded (omega arith)

alloc_bytes-Accounts_example :
    Accounts 1 5000 tree (alloc_bytes 1 5000 tree).0 (alloc_bytes 1 5000 tree).1
alloc_bytes-Accounts_example =
    alloc_bytes-Accounts 1 5000 tree tree-Ordered tree-Within tree-Bounded (omega arith)

realloc-Paid_example :
    Paid 4196 100
      (1, tree)
      (realloc {A = ℕ} 7 100 4196 (some 8) (1, tree)).0
      (realloc {A = ℕ} 7 100 4196 (some 8) (1, tree)).1
realloc-Paid_example =
    realloc-Paid 7 100 4196 (some 8) (1, tree) 1 tree-Sound child_target (omega arith) (omega arith)
