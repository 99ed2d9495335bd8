-- ===== src/Base/Int.antt =====
-- Integers, for the positions that a program counts from the end.
use Prim.Native.Nat.{ℕ, suc, ◌+◌, ◌-◌, min}
use mathlib.Core.List.{List}
use interop.Base.Tests.{leb, if◌then◌else◌}
use interop.Base.Lists.{length, take, drop}

-- `negsuc n` is -(n + 1).
pub data ℤ : Type 0 where
  pos : ℕ → ℤ
  negsuc : ℕ → ℤ

abbrev pub sub_ℕ : ℕ → ℕ → ℤ
sub_ℕ a b = if leb b a then pos (a - b) else negsuc (b - a - 1)

infixl 65 ◌+ℤ◌
abbrev pub ◌+ℤ◌ : ℤ → ℤ → ℤ
pos a +ℤ pos b = pos (a + b)
pos a +ℤ negsuc b = sub_ℕ a (suc b)
negsuc a +ℤ pos b = sub_ℕ b (suc a)
negsuc a +ℤ negsuc b = negsuc (suc (a + b))

-- A position of `slice` in a sequence of the given size: counted from the end if negative, and
-- kept within the sequence.
abbrev pub position : ℤ → ℕ → ℕ
position (pos n) size = min n size
position (negsuc n) size = size - suc n

module _ {ℓ} {A : Type ℓ} where
  -- `slice(start, end)` of a blob or an array.
  unfoldable pub slice : List A → ℤ → ℤ → List A
  slice xs from until =
      take (position until (length xs) - position from (length xs))
        (drop (position from (length xs)) xs)

  -- `slice(start)`
  unfoldable pub slice_from : List A → ℤ → List A
  slice_from xs from = drop (position from (length xs)) xs
