-- ===== src/Transport/Int.antt =====
-- The signed `int` of the driver interfaces.
use sidp_client.Base.{ℕ, ◌-◌, ◌^◌, Bool, true, false, u32}

pub data ℤ : Type 0 where
  pos negsuc : ℕ → ℤ

abbrev pub is_negative : ℤ → Bool
is_negative (ℤ.pos n) = false
is_negative (ℤ.negsuc n) = true

abbrev pub to_size : ℤ → ℕ
to_size (ℤ.pos n) = n
to_size (ℤ.negsuc n) = u32 (2 ^ 32 - 1 - n)
