-- ===== src/Mem/VirtAddr.antt =====
-- VirtAddr of kernel/src/mem/addr.rs: virtual addresses, whose upper 17 bits are all alike.
pub mod Canonical
use aurora_os.Prelude.{ℕ, Option, none, some, ◌==◌, if◌then◌else◌, bit_and, bit_or}
use aurora_os.BitUtils.{get_bits, bit_not}

abbrev pub mask : ℕ
mask = 281474976710655

-- A single bit is 0 or 1, so there is no other case.
unfoldable pub new_truncate : ℕ → ℕ
new_truncate addr =
    if get_bits addr 47 48 == 0 then bit_and addr mask else bit_or addr (bit_not mask)

unfoldable pub try_new : ℕ → Option ℕ
try_new addr =
    if get_bits addr 47 64 == 0
    then some addr
    else (if get_bits addr 47 64 == 1
        then some (new_truncate addr)
        else (if get_bits addr 47 64 == 131071 then some addr else none))
