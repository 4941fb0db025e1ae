-- ===== src/Mem/Range.antt =====
-- kernel/src/mem/addr.rs and range.rs: physical addresses and unaligned ranges of them. An address is
-- a word below 2 ^ 48; arithmetic that leaves these panics.
pub mod Contains
pub mod Split
use aurora_os.Prelude.{
  ℕ, ◌+◌, ◌*◌, ◌%◌, Bool, true, false, not, ◌&&◌, ◌||◌, Option, none, some, ltb, leb, ◌==◌,
  if◌then◌else◌, min, max,
}
use aurora_os.BitUtils.{
  usize_mod, get_bits, wrapping_sub, align_up, align_down, align_of, page_size,
}
use aurora_os.KResult.{KResult, ok, err, panic, ◌>>=◌, ◌>>◌}

-- PhysAddr::try_new
unfoldable pub try_new : ℕ → Option ℕ
try_new addr = if get_bits addr 48 64 == 0 then some addr else none

-- PhysAddr::new
unfoldable pub new : ℕ → KResult ℕ
new addr = elim (try_new addr) [ none ↦ panic | some a ↦ ok a ]

-- `addr + n`, `addr - n`
unfoldable pub add : ℕ → ℕ → KResult ℕ
add addr n = new ((addr + n) % usize_mod)

unfoldable pub sub : ℕ → ℕ → KResult ℕ
sub addr n = new (wrapping_sub addr n)

-- UPhysRange
pub record Range : Type 0 where
  pub addr : ℕ
  pub size : ℕ

unfoldable pub end_addr : Range → KResult ℕ
end_addr r = add r.addr r.size

unfoldable pub contains : Range → ℕ → KResult Bool
contains r a = elim (leb r.addr a) [ false ↦ ok false | true ↦ do end ← end_addr r; ok (ltb a end) ]

unfoldable pub contains_range : Range → Range → KResult Bool
contains_range r range = do
  first ← contains r range.addr
  elim first [ true ↦ ok true | false ↦ do end ← end_addr range; contains r end ]

abbrev pub joined : ℕ → Range → Range → Range
joined addr r other = record { addr = addr; size = (r.size + other.size) % usize_mod }

unfoldable pub merge : Range → Range → KResult (Option Range)
merge r other = do
  end ← end_addr r
  elim (end == other.addr) [
    | true ↦ ok (some (joined r.addr r other))
    | false ↦ do
      other_end ← end_addr other
      ok (if other_end == r.addr then some (joined other.addr r other) else none)
  ]

-- The pieces of a range from `sbegin` to `send` on both sides of one from `begin` to `end`; `before`
-- and `after` say whether the range holds the addresses next to the other one.
unfoldable pub pieces : ℕ → ℕ → ℕ → ℕ → Bool → Bool → Option Range × Option Range
pieces sbegin send begin end before after =
    let lower : Range = record { addr = sbegin; size = wrapping_sub begin sbegin } in
    let upper : Range = record { addr = end; size = wrapping_sub send end } in
    if before && not after
    then (some lower, none)
    else (if after && not before then (some upper, none) else (some lower, some upper))

unfoldable pub split_at : Range → Range → KResult (Option Range × Option Range)
split_at r range = do
  send ← end_addr r
  end ← end_addr range
  touches ← contains_range r range
  elim touches [
    | false ↦ ok (some r, none)
    | true ↦ elim (leb range.addr r.addr && leb send end) [
      | true ↦ ok (none, none)
      | false ↦ do
        below ← sub range.addr 1
        before ← contains r below
        above ← add end 1
        after ← contains r above
        ok (pieces r.addr send range.addr end before after)
    ]
  ]
