-- ===== src/Cap/CapId.antt =====
-- userland/sys/src/cap.rs: capability types and capability ids. An id is a word: four bits of
-- flags, the weakness in bit 4, the type in bits 5 to 9 and a unique number above.
pub mod Layout
use mathlib.Core.Option
use aurora_os.Prelude.{ℕ, Bool, true, false, Option, none, some, bit_or, ◌==◌, if◌then◌else◌}
use aurora_os.BitUtils.{get_bits, shl}
use aurora_os.Cap.Flags.{Bitflags, all_flags}

pub data CapType : Type 0 where
  thread thread_group address_space capability_space memory lock event_pool channel : CapType
  reply message_capacity key allocator drop_check drop_check_reciever root_oom : CapType
  mmio_allocator phys_mem int_allocator interrupt : CapType

-- `as_usize`: the discriminant.
unfoldable pub as_usize : CapType → ℕ
as_usize thread = 1
as_usize thread_group = 2
as_usize address_space = 3
as_usize capability_space = 4
as_usize memory = 5
as_usize lock = 6
as_usize event_pool = 7
as_usize channel = 8
as_usize reply = 9
as_usize message_capacity = 10
as_usize key = 11
as_usize allocator = 12
as_usize drop_check = 13
as_usize drop_check_reciever = 14
as_usize root_oom = 15
as_usize mmio_allocator = 16
as_usize phys_mem = 17
as_usize int_allocator = 18
as_usize interrupt = 19

-- `CapType::from`
unfoldable pub from : ℕ → Option CapType
from n =
    if n == 1
    then some thread
    else (if n == 2
        then some thread_group
        else (if n == 3
            then some address_space
            else (if n == 4
                then some capability_space
                else (if n == 5
                    then some memory
                    else (if n == 6
                        then some lock
                        else (if n == 7
                            then some event_pool
                            else (if n == 8
                                then some channel
                                else (if n == 9
                                    then some reply
                                    else (if n == 10
                                        then some message_capacity
                                        else (if n == 11
                                            then some key
                                            else (if n == 12
                                                then some allocator
                                                else (if n == 13
                                                    then some drop_check
                                                    else (if n == 14
                                                        then some drop_check_reciever
                                                        else (if n == 15
                                                            then some root_oom
                                                            else (if n == 16
                                                            then some mmio_allocator
                                                            else (if n == 17
                                                            then some phys_mem
                                                            else (if n == 18
                                                            then some int_allocator
                                                            else (if n == 19
                                                            then some interrupt
                                                            else none))))))))))))))))))

abbrev bool_bit : Bool → ℕ
bool_bit true = 1
bool_bit false = 0

-- `CapId::new`
unfoldable pub new : CapType → ℕ → Bool → ℕ → ℕ
unfolding as_usize
new cap_type flags is_weak base_id =
    bit_or (bit_or (bit_or flags (shl (bool_bit is_weak) 4)) (shl (as_usize cap_type) 5))
      (shl base_id 10)

-- `CapId::null_flags`
unfoldable pub null_flags : ℕ → Bool → ℕ
null_flags flags is_weak = bit_or flags (shl (bool_bit is_weak) 4)

-- `CapId::try_from`
unfoldable pub try_from : ℕ → Option ℕ
try_from n = Option.map (λ _. n) (from (get_bits n 5 10))

unfoldable pub is_weak : ℕ → Bool
is_weak id = get_bits id 4 5 == 1

-- `CapId::cap_type`; `none` is the panic on an id without a type.
unfoldable pub cap_type : ℕ → Option CapType
cap_type id = from (get_bits id 5 10)

module _ ⦃bf : Bitflags⦄ where
  -- `CapId::flags`
  unfoldable pub flags : ℕ → ℕ
  flags id = bf.from_bits_truncate all_flags id
