-- ===== src/Layer3.antt =====
-- The route annotation of a network attachment: the `Layer3NetworkConf` part of pkg/utils/nad.go.
pub mod Outdating
use network_controller_harve.Common.{
  ℕ, Bool, true, false, not, ◌||◌, ◌&&◌, List, [], ◌∷◌, Option, none, some, Bytes, codes, ◌==◌,
  ◌!=◌, bytes_eq, nat_eq, all, GoMap, get, put, delete, Result, ok, err, ◌>>=◌, ◌>>◌, refuse_if,
  Check, if◌then◌else◌, int_eq, pos, bad_json, bad_route,
}
use network_controller_harve.Objects.{Layer3Conf, Nad, NetConf, key_network_route}
use network_controller_harve.Env.{Env}

abbrev pub auto : Bytes
auto = codes "auto"

abbrev pub manual : Bytes
manual = codes "manual"

abbrev pub empty_route : Layer3Conf
empty_route = record {
  mode = [];
  cidr = [];
  gateway = [];
  server_ip_addr = [];
  connectivity = [];
  outdated = false;
}

-- `isMaskZero`
abbrev pub is_mask_zero : List ℕ → Bool
is_mask_zero mask = all (λ b. b == 0) mask

abbrev pub has_mask : Option (List ℕ) → Bool
has_mask none = false
has_mask (some mask) = not (is_mask_zero mask)

abbrev pub decoded_route : Option Layer3Conf → Result Layer3Conf
decoded_route none = err bad_json
decoded_route (some c) = ok c

-- The mode decides what becomes of the mark `outdated`.
abbrev pub outdate : Layer3Conf → Layer3Conf
outdate c = if c.mode == auto then record c { outdated = true } else record c { outdated = false }

module _ (env : Env) where
  -- The checks at the end of `NewLayer3NetworkConf` and `NewLayer3NetworkConfFromNad`.
  unfoldable pub check_conf : Layer3Conf → Check
  check_conf c = do
    refuse_if (c.mode != [] && (c.mode != auto && c.mode != manual)) bad_route
    refuse_if (c.mode == manual && not (has_mask (env.parse_cidr c.cidr))) bad_route
    refuse_if (c.mode == manual && not (env.parses_ip c.gateway)) bad_route

  -- `NewLayer3NetworkConf`
  unfoldable pub new_layer3 : Bytes → Result Layer3Conf
  new_layer3 conf =
      if conf == []
      then ok empty_route
      else do c ← decoded_route (env.decode_layer3 conf); check_conf c; ok c

  -- `NewLayer3NetworkConfFromNad`
  unfoldable pub new_layer3_from_nad : Nad → Result Layer3Conf
  unfolding new_layer3
  new_layer3_from_nad nad = new_layer3 (get key_network_route nad.annotations)

  -- `OutdateLayer3NetworkConfPerMode`
  unfoldable pub outdate_per_mode : Bytes → Result Bytes
  outdate_per_mode conf =
      if conf == []
      then ok []
      else decoded_route (env.decode_layer3 conf) >>= λ c. ok (env.encode_layer3 (outdate c))

  -- `nadConf != nil && nadConf.Vlan == 0`
  abbrev pub has_no_vlan : Option NetConf → Bool
  has_no_vlan none = false
  has_no_vlan (some nc) = nc.vlan == pos 0

  -- `OutdateNadLayer3NetworkConf`: the annotations of the network, which the code also writes.
  unfoldable pub outdate_nad : Nad → Option NetConf → Result GoMap
  outdate_nad nad nad_conf =
      let route = get key_network_route nad.annotations in
      if route == []
      then ok nad.annotations
      else if has_no_vlan nad_conf
      then ok (delete key_network_route nad.annotations)
      else outdate_per_mode route >>= λ r. ok (put key_network_route r nad.annotations)

  -- The end of `OutdateNadLayer3NetworkConfWhenRouteModeChanges`, with both routes decoded.
  abbrev pub outdate_changed : Layer3Conf → Layer3Conf → GoMap → Option GoMap
  outdate_changed new_conf old_conf annotations =
      if new_conf.mode == old_conf.mode
      then none
      else some (put key_network_route (env.encode_layer3 (outdate new_conf)) annotations)

  -- `OutdateNadLayer3NetworkConfWhenRouteModeChanges`; `none` is the nil map of no change.
  unfoldable pub outdate_when_mode_changes : Nad → Nad → Result (Option GoMap)
  outdate_when_mode_changes old_nad new_nad =
      let new_route = get key_network_route new_nad.annotations in
      let old_route = get key_network_route old_nad.annotations in
      if new_route == [] || old_route == [] then ok none else do
        new_conf ← decoded_route (env.decode_layer3 new_route)
        old_conf ← decoded_route (env.decode_layer3 old_route)
        ok (outdate_changed new_conf old_conf new_nad.annotations)
