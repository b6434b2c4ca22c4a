-- ===== src/Nads/Provider.antt =====
-- The provider of an overlay network names the network and its namespace.
use network_controller_harve.Common.{
  ◌≡◌, refl, ◌≢◌, false, [], ◌∷◌, ◌++◌, ok, ◌==◌, nat_eq, bytes_eq, bytes_ne, Bytes, codes,
  split_from, ◌∙◌, ap, NoDot, split-part,
}
use network_controller_harve.Nads.{get_nad_name_from_provider, get_provider_from_nad, first_two}

-- For a name and a namespace that are not empty and hold no dot, the provider of
-- `GetProviderFromNad` is taken apart by `GetNadNameFromProvider` into the same two.
pub get_nad_name_from_provider-get_provider_from_nad :
    (nad_name nad_namespace : Bytes)
    → nad_name ≢ []
    → nad_namespace ≢ []
    → NoDot nad_name
    → NoDot nad_namespace
    → (provider : Bytes) × (get_provider_from_nad nad_name nad_namespace ≡ ok provider)
      × (get_nad_name_from_provider provider ≡ ok (nad_name, nad_namespace))
unfolding get_provider_from_nad get_nad_name_from_provider split_from
get_nad_name_from_provider-get_provider_from_nad n ns hn hns dn dns =
    let p : Bytes = n ++ b'.' ∷ (ns ++ codes ".ovn") in
    let filled : (p == []) ≡ false = bytes_ne p [] (append-cons-ne-nil n _) in
    (
      p,
      rw (bytes_ne n [] hn, bytes_ne ns [] hns) refl,
      rw filled (
          ap first_two (
            split-part n [] (ns ++ codes ".ovn") dn
            ∙ ap (λ q. n ∷ q) (split-part ns [] (codes "ovn") dns))),
    )
  where
    append-cons-ne-nil : (s r : Bytes) → s ++ b'.' ∷ r ≢ []
    append-cons-ne-nil [] r = λ e. cc
    append-cons-ne-nil (c ∷ s) r = λ e. cc
