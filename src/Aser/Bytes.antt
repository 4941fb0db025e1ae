-- ===== src/Aser/Bytes.antt =====
-- Bytes of numbers in little endian order, and get_usize and set_usize of userland/aser/src/lib.rs.
pub mod Laws
use aurora_os.Prelude.{
  ℕ, zero, suc, ◌+◌, ◌*◌, ◌/◌, ◌%◌, List, [], ◌∷◌, ◌++◌, Bool, leb, if◌then◌else◌, length, take,
  drop,
}
use aurora_os.BitUtils.{usize_mod}
use aurora_os.Aser.Result.{Result, ok, err, end_of_input}

-- `to_le_bytes` of a number of `k` bytes.
unfoldable pub le_bytes : ℕ → ℕ → List ℕ
le_bytes zero n = []
le_bytes (suc k) n = (n % 256) ∷ le_bytes k (n / 256)

-- `from_le_bytes`
unfoldable pub from_le : List ℕ → ℕ
from_le [] = 0
from_le (b ∷ bs) = b + 256 * from_le bs

unfoldable pub get_usize : List ℕ → ℕ → Result ℕ
get_usize bytes index =
    let offset = index * 8 % usize_mod in
    if leb (offset + 8) (length bytes)
    then ok (from_le (take 8 (drop offset bytes)))
    else err end_of_input

unfoldable pub set_usize : List ℕ → ℕ → ℕ → Result (List ℕ)
set_usize bytes index num =
    let offset = index * 8 % usize_mod in
    if leb (offset + 8) (length bytes)
    then ok (take offset bytes ++ (le_bytes 8 num ++ drop (offset + 8) bytes))
    else err end_of_input
