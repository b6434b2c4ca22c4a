-- ===== src/Layer3/Outdating.antt =====
-- Outdating a route keeps all of it but the mark.
use network_controller_harve.Common.{
  ◌≡◌, refl, ◌≢◌, false, some, Bytes, ◌==◌, bytes_eq, bytes_ne, arith, ap, ◌∙◌, insert, ne_test, [],
  ok, get, find, or_empty, entries, lookup, lookup-insert, String, string_eq, int_eq, int_iff, pos,
  Dict,
}
use network_controller_harve.Objects.{Layer3Conf, Nad, NetConf, key_network_route}
use network_controller_harve.Env.{Env}
use network_controller_harve.Layer3.{outdate_per_mode, outdate_nad, outdate, auto}

outdate_idempotent : (c : Layer3Conf) → outdate (outdate c) ≡ outdate c
outdate_idempotent c = ground arith

outdate-mode : (c : Layer3Conf) → outdate c ≡ record c { outdated = c.mode == auto }
outdate-mode c = ground arith

module _ (env : Env)
    (decode-encode : (c : Layer3Conf) → env.decode_layer3 (env.encode_layer3 c) ≡ some c)
    (encode-ne-nil : (c : Layer3Conf) → env.encode_layer3 c ≢ []) where
  -- A route text that decodes is outdated to a text that decodes to the same route, except that it
  -- is marked outdated exactly if its mode is `auto`; doing so again changes nothing.
  outdate_per_mode_lem :
      (conf : Bytes) (c : Layer3Conf)
      → conf ≢ []
      → env.decode_layer3 conf ≡ some c
      → (r : Bytes) × (outdate_per_mode env conf ≡ ok r)
        × (env.decode_layer3 r ≡ some (record c { outdated = c.mode == auto }))
        × (outdate_per_mode env r ≡ ok r)
  unfolding outdate_per_mode
  outdate_per_mode_lem conf c some_text e =
      let r : Bytes = env.encode_layer3 (outdate c) in
      let again : outdate (outdate c) ≡ outdate c = outdate_idempotent c in
      (
        r,
        rw (bytes_ne conf [] some_text, e) refl,
        decode-encode (outdate c) ∙ ap some (outdate-mode c),
        rw (bytes_ne r [] (encode-ne-nil (outdate c)), decode-encode (outdate c), again) refl,
      )

  -- `OutdateNadLayer3NetworkConf` on a network with a route that decodes and a VLAN id that is not
  -- 0 leaves every other annotation, and the new route decodes to the old one, marked outdated
  -- exactly if its mode is `auto`.
  outdate_nad_lem :
      (nad : Nad) (nc : NetConf) (c : Layer3Conf)
      → nc.vlan ≢ pos 0
      → get key_network_route nad.annotations ≢ []
      → env.decode_layer3 (get key_network_route nad.annotations) ≡ some c
      → (d : Dict) × (outdate_nad env nad (some nc) ≡ ok (some d))
        × (env.decode_layer3 (or_empty (lookup key_network_route d))
            ≡ some (record c { outdated = c.mode == auto }))
        × ((k : String) → k ≢ key_network_route → lookup k d ≡ find k nad.annotations)
  unfolding outdate_nad
  outdate_nad_lem nad nc c tagged some_route e =
      let route : Bytes = get key_network_route nad.annotations in
      let (r, er, dr, _) = outdate_per_mode_lem route c some_route e in
      let t : (nc.vlan == pos 0) ≡ false = ground (arith, int_iff nc.vlan (pos 0)) in
      (
        insert key_network_route r (entries nad.annotations),
        simp (bytes_ne route [] some_route, t, er),
        simp lookup-insert dr,
        λ k other. simp (lookup-insert, ne_test k key_network_route other),
      )
