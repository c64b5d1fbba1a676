-- ===== src/Types/Flags/Sets.antt =====
-- The flags of src/types/flags.h as a set.
use Prim.Native.Nat.{bit_and, bit_or, max, min}
use ceema.Prelude.{
  ℕ, ◌≡◌, ◌≤◌, ◌∙◌, refl, ap, sym, ◌&&◌, ◌||◌, ◌==◌, ◌-◌, ◌^◌, Bool, true, false, not, arith,
}
use ceema.Types.Bits.{shl, bit, bit-bit_or, bit-bit_and, bit_le, bit_and-shl}
use ceema.Types.Flags.{
  MessageFlag, push, no_queue, no_ack, notify, group, bits, isset, isnset, set, unset,
}

abbrev place : MessageFlag → ℕ
place push = 0
place no_queue = 1
place no_ack = 2
place notify = 3
place group = 4

abbrev pub same : MessageFlag → MessageFlag → Bool
same a b = place a == place b

bits-place : (flag : MessageFlag) → bits flag ≡ shl (place flag) 1
unfolding bits
bits-place push = refl
bits-place no_queue = refl
bits-place no_ack = refl
bits-place notify = refl
bits-place group = refl

shl_zero : (k x : ℕ) → x ≤ 1 → (shl k x == 0) ≡ (x == 0)
shl_zero ℕ.zero x h = refl
shl_zero (ℕ.suc k) x h = let e = shl_zero k x h in ground arith

isset-bit : (value : ℕ) (flag : MessageFlag) → isset value flag ≡ not (bit (place flag) value == 0)
unfolding isset
isset-bit value flag =
    rw
      (
        bits-place flag,
        bit_and-shl (place flag) value,
        shl_zero (place flag) (bit (place flag) value) (bit_le (place flag) value),
      )
      refl

-- What a digit of the one-flag numbers and of their masks is.
abbrev digit_of : Bool → ℕ
digit_of true = 1
digit_of false = 0

bit-bits : (a b : MessageFlag) → bit (place b) (bits a) ≡ digit_of (same a b)
unfolding bit bits
bit-bits push push = refl
bit-bits push no_queue = refl
bit-bits push no_ack = refl
bit-bits push notify = refl
bit-bits push group = refl
bit-bits no_queue push = refl
bit-bits no_queue no_queue = refl
bit-bits no_queue no_ack = refl
bit-bits no_queue notify = refl
bit-bits no_queue group = refl
bit-bits no_ack push = refl
bit-bits no_ack no_queue = refl
bit-bits no_ack no_ack = refl
bit-bits no_ack notify = refl
bit-bits no_ack group = refl
bit-bits notify push = refl
bit-bits notify no_queue = refl
bit-bits notify no_ack = refl
bit-bits notify notify = refl
bit-bits notify group = refl
bit-bits group push = refl
bit-bits group no_queue = refl
bit-bits group no_ack = refl
bit-bits group notify = refl
bit-bits group group = refl

bit-mask : (a b : MessageFlag) → bit (place b) (2 ^ 32 - 1 - bits a) ≡ digit_of (not (same a b))
unfolding bit bits
bit-mask push push = refl
bit-mask push no_queue = refl
bit-mask push no_ack = refl
bit-mask push notify = refl
bit-mask push group = refl
bit-mask no_queue push = refl
bit-mask no_queue no_queue = refl
bit-mask no_queue no_ack = refl
bit-mask no_queue notify = refl
bit-mask no_queue group = refl
bit-mask no_ack push = refl
bit-mask no_ack no_queue = refl
bit-mask no_ack no_ack = refl
bit-mask no_ack notify = refl
bit-mask no_ack group = refl
bit-mask notify push = refl
bit-mask notify no_queue = refl
bit-mask notify no_ack = refl
bit-mask notify notify = refl
bit-mask notify group = refl
bit-mask group push = refl
bit-mask group no_queue = refl
bit-mask group no_ack = refl
bit-mask group notify = refl
bit-mask group group = refl

or_digit : (b : Bool) (d : ℕ) → d ≤ 1 → not (max d (digit_of b) == 0) ≡ (b || not (d == 0))
or_digit true d h = ground arith
or_digit false d h = ground arith

and_digit : (b : Bool) (d : ℕ) → d ≤ 1 → not (min d (digit_of b) == 0) ≡ (b && not (d == 0))
and_digit true d h = ground arith
and_digit false d h = ground arith

-- On any number, setting and clearing a flag changes what is set as adding and removing it from a
-- set does, and isnset is the opposite of isset.
pub flags_refine :
    (value : ℕ) (flag other : MessageFlag)
    → (isset (set value flag) other ≡ (same flag other || isset value other))
      × (isset (unset value flag) other ≡ (not (same flag other) && isset value other))
      × (isnset value other ≡ not (isset value other))
unfolding set unset isnset isset
flags_refine value flag other =
    let d : ℕ = bit (place other) value in
    let le : d ≤ 1 = bit_le (place other) value in
    let value_digit : isset value other ≡ not (d == 0) = isset-bit value other in
    (
      isset-bit (bit_or value (bits flag)) other
          ∙ ap (λ x. not (x == 0))
              (bit-bit_or (place other) value (bits flag) ∙ ap (max d) (bit-bits flag other))
          ∙ or_digit (same flag other) d le
          ∙ ap (λ x. same flag other || x) (sym value_digit),
      isset-bit (bit_and value (2 ^ 32 - 1 - bits flag)) other
          ∙ ap (λ x. not (x == 0))
              (bit-bit_and (place other) value (2 ^ 32 - 1 - bits flag)
                ∙ ap (min d) (bit-mask flag other))
          ∙ and_digit (not (same flag other)) d le
          ∙ ap (λ x. not (same flag other) && x) (sym value_digit),
      not_not (bit_and value (bits other) == 0),
    )
  where
    not_not : (b : Bool) → b ≡ not (not b)
    not_not true = refl
    not_not false = refl
