-- ===== src/Network/Bonds/Retried.antt =====
-- How often an operation is tried, and when a bond is made anew.
use network_controller_harve.Common.{
  ℕ, zero, suc, ◌+◌, ◌≤◌, ◌≡◌, ◌↔◌, ◌⊎◌, Bool, true, [], bytes_eq, bytes_iff, int_eq, int_iff, pos,
  negsuc, arith, Bool-cases, inl, inr, ok, err, Error, Effect,
}
use network_controller_harve.Network.{Link, BondAttrs}
use network_controller_harve.Network.Bonds.{
  again, retry, retry_on_kernel_conflict, or_default_miimon, compare_bond,
}

-- An operation that also counts how often it ran.
abbrev pub counted {ℓ} : {S : Type ℓ} → (S → Effect S) → ℕ × S → Effect (ℕ × S)
counted operation (n, s) = ((suc n, (operation s).0), (operation s).1)

module _ {ℓ} {S : Type ℓ} (is_conflict : Error → Bool) (operation : S → Effect S) where
  again-counted :
      (n : ℕ) (m : Effect (ℕ × S)) (next : ℕ × S → Effect (ℕ × S)) (k : ℕ)
      → m.0.0 ≤ k + n
      → ((t : ℕ × S) → t.0 ≤ k → (next t).0.0 ≤ k + n)
      → m.0.0 ≤ k
      → (again is_conflict m next).0.0 ≤ k + n
  again-counted n (t, ok done) next k h f g = h
  again-counted n (t, err e) next k h f g = elim (Bool-cases (is_conflict e)) [
    | inl busy ↦ rw busy (f t g)
    | inr other ↦ rw other h
  ]

  retry-counted :
      (n k : ℕ) (s : S) → (retry is_conflict (counted operation) n (k, s)).0.0 ≤ k + n + 1
  unfolding retry
  retry-counted zero k s = omega arith
  retry-counted (suc n) k s = omega (
    arith,
    again-counted (n + 1) (counted operation (k, s))
        (λ t. retry is_conflict (counted operation) n t) (suc k) (omega arith)
        (λ t g. omega (arith, retry-counted n t.0 t.1)) (omega arith),
  )

  -- `retryOnKernelConflict` runs its operation at most twice.
  pub retry_on_kernel_conflict-counted :
      (s : S) → (retry_on_kernel_conflict is_conflict (counted operation) (0, s)).0.0 ≤ 2
  unfolding retry_on_kernel_conflict
  retry_on_kernel_conflict-counted s = retry-counted 1 0 s

-- `compareBond` keeps a bond exactly if it has the wanted name, mode and interval, -1 standing for
-- 100, and the wanted MTU, hardware address and length of the queue, where one is given.
compare_bond_iff :
    (old new : Link) (old_bond new_bond : BondAttrs)
    → (compare_bond old old_bond new new_bond ≡ true) ↔ (
        (old.name ≡ new.name)
        × (old_bond.mode ≡ new_bond.mode)
        × ((new.mtu ≡ pos 0) ⊎ (old.mtu ≡ new.mtu))
        × ((new.hardware_addr ≡ []) ⊎ (old.hardware_addr ≡ new.hardware_addr))
        × ((new.tx_q_len ≡ negsuc 0) ⊎ (old.tx_q_len ≡ new.tx_q_len))
        × (old_bond.miimon ≡ or_default_miimon new_bond.miimon))
unfolding compare_bond
compare_bond_iff old new old_bond new_bond =
    let n = bytes_iff old.name new.name in
    let m = int_iff old_bond.mode new_bond.mode in
    let u = int_iff new.mtu (pos 0) in
    let u' = int_iff old.mtu new.mtu in
    let a = bytes_iff new.hardware_addr [] in
    let a' = bytes_iff old.hardware_addr new.hardware_addr in
    let q = int_iff new.tx_q_len (negsuc 0) in
    let q' = int_iff old.tx_q_len new.tx_q_len in
    let i = int_iff old_bond.miimon (or_default_miimon new_bond.miimon) in
    (
      λ h. (
        ground (arith, h),
        ground (arith, h),
        ground (arith, h),
        ground (arith, h),
        ground (arith, h),
        ground (arith, h),
      ),
      λ h. ground (arith, h.0, h.1, h.2, h.3, h.4, h.5),
    )
