-- ===== src/Network/Bonds.antt =====
-- The bond of a cluster network and its slaves: pkg/network/iface/bond.go.
pub mod Retried
use network_controller_harve.Common.{
  ℕ, zero, suc, ◌-◌, Bool, true, false, not, ◌||◌, ◌&&◌, List, [], ◌∷◌, Option, none, some, Bytes,
  ◌==◌, ◌!=◌, bytes_eq, nat_eq, int_eq, ℤ, pos, negsuc, Result, ok, err, ◌>>=◌, Check, Effect,
  and_then, if◌then◌else◌, Error, not_a_bond, invalid_index, enslaved_elsewhere, slaves_left,
}
use network_controller_harve.Network.{
  Netlink, Link, BondAttrs, OperState, oper_up, is_link_not_found, kind_bond,
}

abbrev pub max_retry_attempts : ℕ
max_retry_attempts = 2

abbrev pub default_value_miimon : ℤ
default_value_miimon = pos 100

abbrev pub again {ℓ} : {S : Type ℓ} → (Error → Bool) → Effect S → (S → Effect S) → Effect S
again is_conflict (t, ok done) next = (t, ok tt)
again is_conflict (t, err e) next = if is_conflict e then next t else (t, err e)

-- The loop of `retryOnKernelConflict`, with the attempts that are left after this one; the last
-- error is wrapped.
unfoldable pub retry {ℓ} : {S : Type ℓ} → (Error → Bool) → (S → Effect S) → ℕ → S → Effect S
retry is_conflict operation zero s = operation s
retry is_conflict operation (suc n) s =
    again is_conflict (operation s) (λ t. retry is_conflict operation n t)

-- `retryOnKernelConflict`
unfoldable pub retry_on_kernel_conflict {ℓ} :
    {S : Type ℓ} → (Error → Bool) → (S → Effect S) → S → Effect S
retry_on_kernel_conflict is_conflict operation s =
    retry is_conflict operation (max_retry_attempts - 1) s

abbrev pub is_up : OperState → Bool
is_up oper_up = true
is_up OperState.oper_down = false
is_up OperState.oper_other = false

-- A mode and an interval of a link that is a bond.
abbrev pub bond_of : Link → Result BondAttrs
bond_of l = bond_in l.bond
  where
    bond_in : Option BondAttrs → Result BondAttrs
    bond_in none = err not_a_bond
    bond_in (some b) = ok b

abbrev pub or_default_miimon : ℤ → ℤ
or_default_miimon miimon = if miimon == negsuc 0 then default_value_miimon else miimon

-- `compareBond`; an empty hardware address is that of none.
unfoldable pub compare_bond : Link → BondAttrs → Link → BondAttrs → Bool
compare_bond old old_bond new new_bond =
    if old.name != new.name
    then false
    else if old_bond.mode != new_bond.mode
    then false
    else if new.mtu != pos 0 && old.mtu != new.mtu
    then false
    else if new.hardware_addr != [] && old.hardware_addr != new.hardware_addr
    then false
    else if new.tx_q_len != negsuc 0 && old.tx_q_len != new.tx_q_len
    then false
    else if old_bond.miimon != or_default_miimon new_bond.miimon
    then false
    else true

-- The links of a master: the loop of `getSlaves`.
unfoldable pub slaves_of : ℕ → List Link → List Link
slaves_of index [] = []
slaves_of index (l ∷ links) =
    if l.master_index == index then l ∷ slaves_of index links else slaves_of index links

-- `if err != nil { errs = append(errs, err) }`, with one error for all.
abbrev pub both : Check → Check → Check
both (ok done) rest = rest
both (err e) rest = err slaves_left

abbrev pub as_check : Result Link → Check
as_check (ok l) = ok tt
as_check (err e) = err e

-- The map of the slaves by their names.
unfoldable pub is_slave : Bytes → List Link → Bool
is_slave name [] = false
is_slave name (l ∷ links) = l.name == name || is_slave name links

unfoldable pub drop_slave : Bytes → List Link → List Link
drop_slave name [] = []
drop_slave name (l ∷ links) =
    let rest = drop_slave name links in if l.name == name then rest else l ∷ rest

module _ (nl : Netlink) where
  abbrev pub up_unless : Result Link → nl.State → Effect nl.State
  up_unless (err e) s = (s, err e)
  up_unless (ok l) s = if is_up l.oper_state || l.flag_up then (s, ok tt) else nl.link_set_up l s

  -- `setLinkUp`
  unfoldable pub set_link_up : Bytes → nl.State → Effect nl.State
  set_link_up name s =
      retry_on_kernel_conflict nl.is_conflict (λ t. up_unless (nl.link_by_name name t) t) s

  -- `getSlaves`
  unfoldable pub get_slaves : ℕ → nl.State → Result (List Link)
  get_slaves index s =
      if index == 0
      then err invalid_index
      else nl.link_list s >>= λ links. ok (slaves_of index links)

  -- `modifyBond`
  unfoldable pub modify_bond : Link → BondAttrs → Link → BondAttrs → nl.State → Effect nl.State
  modify_bond old old_bond new new_bond s =
      if compare_bond old old_bond new new_bond
      then (s, ok tt)
      else and_then (nl.link_del old s) (λ t. nl.link_add new t)

  -- The answer for the bond's name in `ensureBond`. A link of another kind panics.
  abbrev pub add_or_modify : Link → BondAttrs → Result Link → nl.State → Effect nl.State
  add_or_modify new new_bond (err e) s =
      if is_link_not_found e then nl.link_add new s else (s, err e)
  add_or_modify new new_bond (ok old) s = modify_as (bond_of old) s
    where
      modify_as : Result BondAttrs → nl.State → Effect nl.State
      modify_as (err e) s = (s, err e)
      modify_as (ok old_bond) s = modify_bond old old_bond new new_bond s

  -- The link that `ensureBond` fetches in the end.
  unfoldable pub fetch_bond : Bytes → nl.State → Result Link
  fetch_bond name s = do l ← nl.link_by_name name s; b ← bond_of l; ok l

  -- `ensureBond`
  unfoldable pub ensure_bond : Link → BondAttrs → nl.State → Effect nl.State
  ensure_bond new new_bond s =
      and_then (add_or_modify new new_bond (nl.link_by_name new.name s) s)
        (λ t. and_then (nl.link_set_up new t) (λ u. (u, as_check (fetch_bond new.name u))))

  abbrev pub or_up : Bytes → Effect nl.State → Effect nl.State
  or_up name (t, ok done) = (t, ok tt)
  or_up name (t, err e) = ((set_link_up name t).0, err e)

  -- The part of `ensureBondSlaves` for a link that is no slave of the bond yet.
  abbrev pub add_slave : Link → Bytes → Result Link → nl.State → Effect nl.State
  add_slave bond name (err e) s = (s, err e)
  add_slave bond name (ok l) s =
      if l.master_index != 0 && l.master_index != bond.index
      then (s, err enslaved_elsewhere)
      else and_then (nl.link_set_down l s) (λ t. or_up name (nl.link_set_bond_slave l bond t))

  -- The loop of `ensureBondSlaves` over the slaves that are no longer wanted, in the order of the
  -- list: every one is released and brought up, and one error stands for all.
  unfoldable pub release : List Link → nl.State → Effect nl.State
  release [] s = (s, ok tt)
  release (l ∷ links) s =
      let (t, r) = and_then (nl.link_set_no_master l s) (λ t. set_link_up l.name t) in
      let (u, rest) = release links t in (u, both r rest)

  -- The loop of `ensureBondSlaves` over the wanted slaves, with the slaves that are left in the map.
  unfoldable pub ensure_slaves : Link → List Bytes → List Link → nl.State → Effect nl.State
  ensure_slaves bond [] left s = release left s
  ensure_slaves bond (name ∷ names) left s =
      and_then
        (if is_slave name left then (s, ok tt) else add_slave bond name (nl.link_by_name name s) s)
        (λ t.
          and_then (set_link_up name t) (λ u. ensure_slaves bond names (drop_slave name left) u))

  abbrev pub ensure_with : Link → List Bytes → Result (List Link) → nl.State → Effect nl.State
  ensure_with bond names (err e) s = (s, err e)
  ensure_with bond names (ok slaves) s = ensure_slaves bond names slaves s

  abbrev pub ensure_fetched : List Bytes → Result Link → nl.State → Effect nl.State
  ensure_fetched names (err e) s = (s, err e)
  ensure_fetched names (ok bond) s = ensure_with bond names (get_slaves bond.index s) s

  -- `EnsureBond`: `ensureBond`, and `ensureBondSlaves` of the bond that it fetched
  unfoldable pub ensure_bond_and_slaves : Link → BondAttrs → List Bytes → nl.State → Effect nl.State
  ensure_bond_and_slaves new new_bond names s =
      and_then (ensure_bond new new_bond s) (λ t. ensure_fetched names (fetch_bond new.name t) t)

  -- The loop of `remove` over the slaves: every one is brought up, and one error stands for all.
  unfoldable pub recover : List Link → nl.State → Effect nl.State
  recover [] s = (s, ok tt)
  recover (slave ∷ slaves) s =
      let (t, r) = set_link_up slave.name s in let (u, rest) = recover slaves t in (u, both r rest)

  abbrev pub remove_with : Link → Result (List Link) → nl.State → Effect nl.State
  remove_with l (err e) s = (s, err e)
  remove_with l (ok slaves) s = and_then (nl.link_del l s) (λ t. recover slaves t)

  -- `Bond.remove`
  unfoldable pub remove_bond : Link → nl.State → Effect nl.State
  remove_bond l s = remove_with l (get_slaves l.index s) s

  -- `Link.Remove`
  unfoldable pub remove_link : Link → nl.State → Effect nl.State
  remove_link l s = if l.kind == kind_bond then remove_bond l s else nl.link_del l s
