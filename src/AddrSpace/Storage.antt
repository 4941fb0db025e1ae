-- ===== src/AddrSpace/Storage.antt =====
-- The two storages of the list of regions.
use native.Mathlib.Nat.{div-mul-le_self, le-div_iff_mul-le}
use aurora_os.Prelude.{
  ℕ, suc, ◌+◌, ◌-◌, ◌*◌, leb→le, subst, ◌/◌, ◌%◌, ◌≤◌, ◌<◌, ◌≡◌, ◌==◌, refl, sym, ap, ◌∙◌, some,
  List, Bool, true, false, Bool-cases, inl, inr, arith, length, get_elem?, leb, ltb, if◌then◌else◌,
}
use aurora_os.BitUtils.{usize_mod}
use aurora_os.AddrSpace.{
  MappedRegion, Outcome, ok, err, panic, SysResult, SysResult-cases, returned, refused,
}
use aurora_os.AddrSpace.Regions.{
  ◌>>=◌, StorageLaws, vec_storage, MemoryCapStorage, memory_cap_storage, insert, remove,
  ensure_capacity, try_grow, spliced, cut, region_list_max_size, regions_of, resized, insert_at,
  MemoryCalls,
}
use aurora_os.AddrSpace.Cells.{
  copy, slice, slice_inside, length-slice, copy_closes, write-copy_opens,
}

pub vec_storage-StorageLaws : StorageLaws (List MappedRegion) vec_storage
vec_storage-StorageLaws = record {
  insert_splices =
      λ index region t t' e. spliced_if (leb index (length t)) (spliced index region t) t' e;
  insert_returns = λ index region t h e. ground arith;
  remove_cuts = λ index region t e. (cut index t, rw (vec_storage, e) refl, refl);
}
  where
    spliced_if :
        (b : Bool) (x t' : List MappedRegion) → (if b then ok x else panic) ≡ ok t' → t' ≡ x
    spliced_if true x t' e = cc
    spliced_if false x t' e = cc

module _ {W : Type 0} where
  length-regions_of : (t : MemoryCapStorage W) → length (regions_of t) ≡ t.len
  unfolding regions_of
  length-regions_of t = length-slice t.cells t.len

  -- What stands at an index is taken out, and the gap is closed.
  remove_cut :
      (index : ℕ) (region : MappedRegion) (t : MemoryCapStorage W)
      → get_elem? (regions_of t) index ≡ some region
      → (t' : MemoryCapStorage W) × (remove index t ≡ ok (region, t'))
        × (regions_of t' ≡ cut index (regions_of t))
  unfolding remove regions_of
  remove_cut index region t e =
      let (lt, same) = slice_inside t.cells t.len index region e in
      let inside : ltb index t.len ≡ true = ground arith in
      let len = t.len - 1 in
      let moved = copy (index + 1) index (len - index) t.cells in
      (
        record t { len = len; cells = moved },
        rw (inside, same) refl,
        copy_closes index t.len t.cells lt,
      )

module _ {W : Type 0} ⦃sys : MemoryCalls W⦄ (size_of_region : ℕ) where
  -- A change of the capacity keeps the regions.
  abbrev Keeps : MemoryCapStorage W → Outcome (MemoryCapStorage W) → Type 0
  Keeps t (ok t') = (t'.cells ≡ t.cells) × (t'.len ≡ t.len)
  Keeps t (err e) = Unit
  Keeps t panic = ⊥

  resized-Keeps :
      (capacity : ℕ) (t : MemoryCapStorage W) (r : SysResult ℕ × W) → Keeps t (resized capacity t r)
  unfolding resized
  resized-Keeps capacity t (returned n, w) = (refl, refl)
  resized-Keeps capacity t (refused e, w) = tt

  ensure_capacity-Keeps : (t : MemoryCapStorage W) → Keeps t (ensure_capacity size_of_region t)
  unfolding ensure_capacity try_grow
  ensure_capacity-Keeps t = elim (Bool-cases (t.len == t.capacity)) [
    | inr e ↦ rw (ensure_capacity, e) (refl, refl)
    | inl e ↦ elim (SysResult-cases (sys.memory_size t.memory t.kernel)) [
      | inr (x, m) ↦ rw (ensure_capacity, try_grow, e, m) tt
      | inl (n, m) ↦ elim (Bool-cases (ltb region_list_max_size (n * 2 % usize_mod))) [
        | inl big ↦ rw (ensure_capacity, try_grow, e, m, big) tt
        | inr small ↦ rw (ensure_capacity, try_grow, e, m, small) (resized-Keeps _ t _)
      ]
    ]
  ]

  -- A write after the capacity is ensured.
  abbrev then_write : ℕ → MappedRegion → Outcome (MemoryCapStorage W) → Outcome (MemoryCapStorage W)
  then_write index region r = r >>= λ t'. ok (insert_at size_of_region index region t')

  insert_at-spliced :
      (index : ℕ) (region : MappedRegion) (t : MemoryCapStorage W)
      → index ≤ t.len
      → regions_of (insert_at size_of_region index region t) ≡ spliced index region (regions_of t)
  unfolding regions_of insert_at
  insert_at-spliced index region t le = write-copy_opens index t.len region t.cells le

  write-spliced :
      (index : ℕ) (region : MappedRegion) (t t' : MemoryCapStorage W)
      (r : Outcome (MemoryCapStorage W))
      → Keeps t r
      → index ≤ t.len
      → then_write index region r ≡ ok t'
      → regions_of t' ≡ spliced index region (regions_of t)
  unfolding regions_of
  write-spliced index region t t' (ok u) (same, len) le e =
      let written : insert_at size_of_region index region u ≡ t' = cc in
      let kept : slice u.cells u.len ≡ slice t.cells t.len =
        ap (λ (d : ℕ → MappedRegion). slice d u.len) same ∙ ap (slice t.cells) len in
      ap regions_of (sym written)
      ∙ insert_at-spliced index region u (omega (arith, le, len))
      ∙ ap (spliced index region) kept
  write-spliced index region t t' (err x) same le e = cc
  write-spliced index region t t' panic same le e = absurd same

  write_returns :
      (index : ℕ) (region : MappedRegion) (t : MemoryCapStorage W)
      (r : Outcome (MemoryCapStorage W))
      → Keeps t r
      → ¬ (then_write index region r ≡ panic)
  write_returns index region t (ok u) same e = cc
  write_returns index region t (err x) same e = cc
  write_returns index region t panic same e = same

  insert-spliced :
      (index : ℕ) (region : MappedRegion) (t t' : MemoryCapStorage W)
      → insert size_of_region index region t ≡ ok t'
      → regions_of t' ≡ spliced index region (regions_of t)
  unfolding insert
  insert-spliced index region t t' e = elim (Bool-cases (leb index t.len)) [
    | inl le ↦
        write-spliced index region t t' (ensure_capacity size_of_region t) (ensure_capacity-Keeps t)
          (leb→le index t.len le) (rw (insert, le) at e)
    | inr gt ↦ let no = rw (insert, gt) at e in cc
  ]

  insert_returns_lem :
      (index : ℕ) (region : MappedRegion) (t : MemoryCapStorage W)
      → leb index (length (regions_of t)) ≡ true
      → ¬ (insert size_of_region index region t ≡ panic)
  unfolding insert
  insert_returns_lem index region t h e =
      let le = rw (length-regions_of t) at h in
      write_returns index region t (ensure_capacity size_of_region t) (ensure_capacity-Keeps t)
        (rw (insert, le) at e)

  -- Whatever the kernel answers, the storage in a memory capability does what the manager relies
  -- on, with the moves of the regions in memory that insert and remove make: an insertion that
  -- succeeds puts the region at its index and keeps the order of the others, one at an index up to
  -- the length does not panic, and a removal gives the region of the index and closes the gap.
  pub memory_cap_storage-StorageLaws :
      StorageLaws (MemoryCapStorage W) (memory_cap_storage size_of_region)
  unfolding memory_cap_storage
  memory_cap_storage-StorageLaws = record {
    insert_splices = insert-spliced;
    insert_returns = insert_returns_lem;
    remove_cuts = remove_cut;
  }

  -- The list fits its capacity, and the capacity is what the memory has room for.
  pub record Fits (t : MemoryCapStorage W) : Type 0 where
    pub within : t.len ≤ t.capacity
    pub room : t.capacity * size_of_region ≤ region_list_max_size

  -- There is room for one more.
  abbrev HasRoom : Outcome (MemoryCapStorage W) → Type 0
  HasRoom (ok t) = (suc t.len ≤ t.capacity) × (t.capacity * size_of_region ≤ region_list_max_size)
  HasRoom (err e) = Unit
  HasRoom panic = ⊥

  resized-HasRoom :
      (capacity : ℕ) (t : MemoryCapStorage W) (r : SysResult ℕ × W)
      → suc t.len ≤ capacity
      → capacity * size_of_region ≤ region_list_max_size
      → HasRoom (resized capacity t r)
  unfolding resized
  resized-HasRoom capacity t (returned n, w) more room = (more, room)
  resized-HasRoom capacity t (refused e, w) more room = tt

  module _ (t : MemoryCapStorage W) (n : ℕ)
      (answer : sys.memory_size t.memory t.kernel ≡ returned n) (pos : 0 < size_of_region)
      (some_room : size_of_region ≤ n) (small_memory : n ≤ region_list_max_size) where
    doubled : suc (n / size_of_region) ≤ n * 2 / size_of_region
    doubled =
        let below = div-mul-le_self n size_of_region in
        let sum : suc (n / size_of_region) * size_of_region
            ≡ n / size_of_region * size_of_region + size_of_region =
          grind arith in
        (le-div_iff_mul-le pos).1 (omega (arith, below, sum))

    at_most : (m : ℕ) → ltb region_list_max_size m ≡ false → m ≤ region_list_max_size
    at_most m e = ground arith

    ensure_capacity-HasRoom :
        Fits t → t.capacity ≡ n / size_of_region → HasRoom (ensure_capacity size_of_region t)
    unfolding ensure_capacity try_grow
    ensure_capacity-HasRoom fits whole =
        let word : n * 2 % usize_mod ≡ n * 2 = omega arith in
        elim (Bool-cases (t.len == t.capacity)) [
          | inr e ↦ rw (ensure_capacity, e) (ground (arith, fits.within), fits.room)
          | inl e ↦ elim (Bool-cases (ltb region_list_max_size (n * 2))) [
            | inl big ↦ rw (ensure_capacity, try_grow, e, answer, word, big) tt
            | inr small ↦
                rw (ensure_capacity, try_grow, e, answer, word, small)
                  (resized-HasRoom (n * 2 / size_of_region) t _ (ground (arith, doubled))
                    (omega (arith, div-mul-le_self (n * 2) size_of_region, at_most (n * 2) small)))
          ]
        ]

    write-Fits :
        (index : ℕ) (region : MappedRegion) (t' : MemoryCapStorage W)
        (r : Outcome (MemoryCapStorage W)) (b : Bool)
        → HasRoom r
        → (if b then then_write index region r else panic) ≡ ok t'
        → Fits t'
    unfolding insert_at
    write-Fits index region t' (ok u) true (more, room) e =
        let written : insert_at size_of_region index region u ≡ t' = cc in
        subst Fits written (record { within = omega (arith, more); room = room })
    write-Fits index region t' (err x) true h e = cc
    write-Fits index region t' panic true h e = absurd h
    write-Fits index region t' r false h e = cc

    -- With memory of at least one region and at most the greatest size of the list, of which the
    -- capacity is the whole number of regions that fit: an insertion into the memory capability
    -- storage that succeeds leaves a list within its capacity, and a capacity within the greatest
    -- size.
    pub insert-Fits :
        (index : ℕ) (region : MappedRegion) (t' : MemoryCapStorage W)
        → Fits t
        → t.capacity ≡ n / size_of_region
        → insert size_of_region index region t ≡ ok t'
        → Fits t'
    unfolding insert
    insert-Fits index region t' fits whole e =
        write-Fits index region t' (ensure_capacity size_of_region t) (leb index t.len)
          (ensure_capacity-HasRoom fits whole) e
