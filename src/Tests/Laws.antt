-- ===== src/Tests/Laws.antt =====
-- The caches of the tests have the documented behaviour.
use network_controller_harve.Common.{
  ◌≡◌, refl, ap, Bool, true, false, not, ◌&&◌, List, [], ◌∷◌, some, Bytes, ◌==◌, bytes_eq,
  bytes_iff, nat_eq, nat_beq, arith, length, if◌then◌else◌, Bool-cases, inl, inr, ◌≢◌, take-append,
  drop-append, sym, ◌∙◌, all,
}
use network_controller_harve.Objects.{Nad, VlanConfig, Layer3Conf}
use network_controller_harve.Env.{SetLaws}
use network_controller_harve.Tests.{
  env_of, member, without, encode_route, decode_route, same_members,
}

without-member :
    (a b : List Bytes) (x : Bytes) → member (without a b) x ≡ (member a x && not (member b x))
without-member [] b x = refl
without-member (y ∷ a) b x = elim (Bool-cases (y == x)) [
  | inl e ↦
      let same : y ≡ x = (bytes_iff y x).0 e in
      ground (arith, without-member a b x, ap (λ z. member b z) same)
  | inr e ↦ ground (arith, without-member a b x)
]

member-empty : (s : List Bytes) (x : Bytes) → length s ≡ 0 → member s x ≡ false
member-empty [] x h = refl
member-empty (y ∷ s) x h = absurd (omega arith)

all-member :
    (p : Bytes → Bool) (s : List Bytes) (x : Bytes)
    → all p s ≡ true
    → member s x ≡ true
    → p x ≡ true
all-member p [] x h here = absurd (cc)
all-member p (y ∷ s) x h here = elim (Bool-cases (y == x)) [
  | inl e ↦ let same : y ≡ x = (bytes_iff y x).0 e in ap p (sym same) ∙ ground (arith, h)
  | inr e ↦
      let later : member s x ≡ true = simp e at here in all-member p s x (ground (arith, h)) later
]

same_members-member :
    (a b : List Bytes) (x : Bytes) → same_members a b ≡ true → member a x ≡ member b x
same_members-member a b x h =
    let forth = all-member (λ y. member b y) a x (ground (arith, h)) in
    let back = all-member (λ y. member a y) b x (ground (arith, h)) in
    elim (Bool-cases (member a x)) [
      | inl here ↦ here ∙ sym (forth here)
      | inr absent ↦ elim (Bool-cases (member b x)) [
        | inl there ↦ absurd (let p : true ≡ false = sym (back there) ∙ absent in cc)
        | inr missing ↦ absent ∙ sym missing
      ]
    ]

pub laws_of : (nads : List Nad) (vcs : List VlanConfig) → SetLaws (env_of nads vcs)
laws_of nads vcs = record {
  contains-set_of = λ xs x. refl;
  contains-difference = without-member;
  contains-empty = member-empty;
  contains-set_add = λ s y x. refl;
  contains-set_remove = λ s y x. ground (arith, without-member s (y ∷ []) x);
  contains-set_equal = λ a b x h. same_members-member a b x h;
  contains-to_slice = λ s x. refl;
  nil_of_to_slice = λ xs h. h;
}

mark : (b : Bool) → nat_beq (if b then 1 else 0) 1 ≡ b
mark true = refl
mark false = refl

pub decode-encode : (c : Layer3Conf) → decode_route (encode_route c) ≡ some c
decode-encode c = simp (
  mark c.outdated,
  take-append c.mode,
  drop-append c.mode,
  take-append c.cidr,
  drop-append c.cidr,
  take-append c.gateway,
  drop-append c.gateway,
  take-append c.server_ip_addr,
  drop-append c.server_ip_addr,
  take-append c.connectivity [],
)

encode-nonempty : (c : Layer3Conf) → encode_route c ≢ []
encode-nonempty c e = cc
