-- ===== src/Mtu/Laws.antt =====
-- When two MTU values agree, and the MTU that is written to an annotation and read back.
use network_controller_harve.Common.{
  ℕ, ◌≡◌, refl, ◌↔◌, ◌≤◌, ◌<◌, ◌^◌, true, arith, ℤ, pos, negsuc, int_iff, int_eq, itoa, atoi-itoa_ℕ,
  ok,
}
use network_controller_harve.Mtu.{
  is_valid_mtu, are_equal_mtus, mtu_default_to, get_mtu_from_string, default_mtu,
}

-- `AreEqualMTUs` says yes exactly if the two values are the same once 0 is read as 1500.
pub are_equal_mtus_iff :
    (a b : ℤ) → (are_equal_mtus a b ≡ true) ↔ (mtu_default_to a ≡ mtu_default_to b)
unfolding are_equal_mtus mtu_default_to
are_equal_mtus_iff a b = (
  λ h. ground (
    arith,
    int_iff a b,
    int_iff a (pos 0),
    int_iff b (pos 0),
    int_iff a default_mtu,
    int_iff b default_mtu,
  ),
  λ h. ground (
    arith,
    int_iff a b,
    int_iff a (pos 0),
    int_iff b (pos 0),
    int_iff a default_mtu,
    int_iff b default_mtu,
  ),
)

valid_mtu_le : (n : ℕ) → is_valid_mtu (pos n) ≡ true → n ≤ 9000
unfolding is_valid_mtu
valid_mtu_le n h = ground arith

valid_mtu_pos : (n : ℕ) → is_valid_mtu (negsuc n) ≡ true → ⊥
unfolding is_valid_mtu
valid_mtu_pos n h = ground arith

-- A valid MTU, printed into an annotation, is read back by `GetMTUFromString`.
pub get_mtu_from_string-itoa :
    (mtu : ℤ) → is_valid_mtu mtu ≡ true → get_mtu_from_string (itoa mtu) ≡ ok mtu
unfolding get_mtu_from_string itoa
get_mtu_from_string-itoa (negsuc n) h = absurd (valid_mtu_pos n h)
get_mtu_from_string-itoa (pos n) h =
    let bound : n < 2 ^ 63 = omega (arith, valid_mtu_le n h) in rw (atoi-itoa_ℕ n bound, h) refl
