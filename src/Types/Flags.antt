-- ===== src/Types/Flags.antt =====
-- The sets of flags of src/types/flags.h, as the number that holds their bits, and the flags of a
-- message (src/protocol/packet/MessageFlag.h).
pub mod Sets
use Prim.Native.Nat.{bit_and, bit_or}
use ceema.Prelude.{ℕ, ◌-◌, ◌^◌, Bool, not, List, [], ◌∷◌, ◌==◌}

pub data MessageFlag : Type 0 where
  push no_queue no_ack notify group : MessageFlag

-- The value of the enumerator.
unfoldable pub bits : MessageFlag → ℕ
bits push = 0x01
bits no_queue = 0x02
bits no_ack = 0x04
bits notify = 0x08
bits group = 0x10

unfoldable pub isset : ℕ → MessageFlag → Bool
unfolding bits
isset value flag = not (bit_and value (bits flag) == 0)

unfoldable pub isnset : ℕ → MessageFlag → Bool
unfolding bits
isnset value flag = bit_and value (bits flag) == 0

unfoldable pub set : ℕ → MessageFlag → ℕ
unfolding bits
set value flag = bit_or value (bits flag)

-- `value &= ~flag`, for a value of 32 bits.
unfoldable pub unset : ℕ → MessageFlag → ℕ
unfolding bits
unset value flag = bit_and value (2 ^ 32 - 1 - bits flag)

-- The constructor from an initializer list.
unfoldable pub flags_of : List MessageFlag → ℕ
unfolding set
flags_of [] = 0
flags_of (flag ∷ flags) = set (flags_of flags) flag
