-- ===== src/Common/Lists.antt =====
-- Lists measured by native numbers, the predicates over them, and Go byte texts.
use Prim.Native.Nat.{ℕ, zero, suc, ◌+◌, ◌-◌, ◌≤◌}
use Prim.Native.Char.{code}
use Prim.Native.String.{String}
use mathlib.Core.Path.{◌≡◌, refl, sym, ◌∙◌, ap}
use mathlib.Core.Logic.{◌↔◌, ◌⊎◌, ◌≢◌, inl, inr}
use mathlib.Core.Bool.{Bool, true, false, ◌&&◌, ◌||◌}
use mathlib.Core.List.{List, [], ◌∷◌, ◌++◌, append-nil, append_assoc}
use native.Mathlib.Omega.{arith}
use network_controller_harve.Common.Tests.{
  Eq, ◌==◌, nat_eq, if◌then◌else◌, leb, ltb, Bool-cases, nat_iff,
}

module _ {ℓ} {A : Type ℓ} where
  abbrev pub length : List A → ℕ
  length [] = 0
  length (x ∷ xs) = suc (length xs)

  abbrev pub take : ℕ → List A → List A
  take zero xs = []
  take (suc n) [] = []
  take (suc n) (x ∷ xs) = x ∷ take n xs

  abbrev pub drop : ℕ → List A → List A
  drop zero xs = xs
  drop (suc n) [] = []
  drop (suc n) (x ∷ xs) = drop n xs

  abbrev pub all : (A → Bool) → List A → Bool
  all p [] = true
  all p (x ∷ xs) = p x && all p xs

  abbrev pub any : (A → Bool) → List A → Bool
  any p [] = false
  any p (x ∷ xs) = p x || any p xs

  -- `for … { if p(x) { ys = append(ys, x) } }`
  abbrev pub keep : (A → Bool) → List A → List A
  keep p [] = []
  keep p (x ∷ xs) = if p x then x ∷ keep p xs else keep p xs

  pub nil-length : (xs : List A) → ltb 0 (length xs) ≡ false → xs ≡ []
  nil-length [] few = refl
  nil-length (x ∷ xs) few = absurd (ground arith)

  pub length-append : (xs ys : List A) → length (xs ++ ys) ≡ length xs + length ys
  length-append [] ys = omega arith
  length-append (x ∷ xs) ys = omega (arith, length-append xs ys)

  pub take-append : (xs ys : List A) → take (length xs) (xs ++ ys) ≡ xs
  take-append [] ys = refl
  take-append (x ∷ xs) ys = ap (λ r. x ∷ r) (take-append xs ys)

  pub drop-append : (xs ys : List A) → drop (length xs) (xs ++ ys) ≡ ys
  drop-append [] ys = refl
  drop-append (x ∷ xs) ys = drop-append xs ys

  take-append-drop : (n : ℕ) (xs : List A) → take n xs ++ drop n xs ≡ xs
  take-append-drop zero xs = refl
  take-append-drop (suc n) [] = refl
  take-append-drop (suc n) (x ∷ xs) = ap (λ r. x ∷ r) (take-append-drop n xs)

  pub length-take : (n : ℕ) (xs : List A) → n ≤ length xs → length (take n xs) ≡ n
  length-take zero xs h = refl
  length-take (suc n) [] h = absurd (omega arith)
  length-take (suc n) (x ∷ xs) h = ap suc (length-take n xs (omega arith))

module _ {ℓ κ} {A : Type ℓ} (P : A → Type κ) where
  abbrev pub All : List A → Type κ
  All [] = Unit
  All (x ∷ xs) = P x × All xs

-- There is an element of the list for which `P` holds.
abbrev pub Any {ℓ} : {A : Type ℓ} → (A → Type 0) → List A → Type 0
Any P [] = ⊥
Any P (x ∷ xs) = P x ⊎ Any P xs

-- A Go string: its bytes.
abbrev pub Bytes : Type 0
Bytes = List ℕ

-- An ASCII literal.
abbrev pub codes : String → Bytes
codes String.[] = []
codes (String.◌∷◌ c s) = code c ∷ codes s

unfoldable pub bytes_beq : Bytes → Bytes → Bool
bytes_beq [] [] = true
bytes_beq [] (b ∷ bs) = false
bytes_beq (a ∷ as') [] = false
bytes_beq (a ∷ as') (b ∷ bs) = a == b && bytes_beq as' bs

bytes_beq_sound : (a b : Bytes) → bytes_beq a b ≡ true → a ≡ b
unfolding bytes_beq
bytes_beq_sound [] [] h = refl
bytes_beq_sound [] (b ∷ bs) h = ground arith
bytes_beq_sound (a ∷ as') [] h = ground arith
bytes_beq_sound (a ∷ as') (b ∷ bs) h = ground (arith, bytes_beq_sound as' bs)

pub bytes_beq_refl : (a : Bytes) → bytes_beq a a ≡ true
unfolding bytes_beq
bytes_beq_refl [] = refl
bytes_beq_refl (a ∷ as') = ground (arith, bytes_beq_refl as')

pub bytes_iff : (a b : Bytes) → (bytes_beq a b ≡ true) ↔ (a ≡ b)
bytes_iff a b = (bytes_beq_sound a b, λ e. rw e (bytes_beq_refl b))

instance abbrev pub bytes_eq : Eq Bytes
bytes_eq = record { beq = bytes_beq; beq_iff = bytes_iff }

-- `strings.HasSuffix`: s has the suffix at its end.
unfoldable pub has_suffix : Bytes → Bytes → Bool
has_suffix s suffix = leb (length suffix) (length s) && drop (length s - length suffix) s == suffix

-- `strings.HasPrefix`
unfoldable pub has_prefix : Bytes → Bytes → Bool
has_prefix s [] = true
has_prefix [] (p ∷ ps) = false
has_prefix (c ∷ s) (p ∷ ps) = c == p && has_prefix s ps

-- `strings.Join`
unfoldable pub join : Bytes → List Bytes → Bytes
join sep [] = []
join sep (p ∷ []) = p
join sep (p ∷ q ∷ ps) = p ++ sep ++ join sep (q ∷ ps)

-- `strings.Split` at one byte; `cur` is the part that is being read.
unfoldable pub split_from : ℕ → Bytes → Bytes → List Bytes
split_from sep cur [] = cur ∷ []
split_from sep cur (c ∷ s) =
    let closed = cur ∷ split_from sep [] s in
    let longer = split_from sep (cur ++ c ∷ []) s in if c == sep then closed else longer

pub has_suffix-append : (s suffix : Bytes) → has_suffix (s ++ suffix) suffix ≡ true
unfolding has_suffix
has_suffix-append s suffix =
    let n : length (s ++ suffix) - length suffix ≡ length s =
      omega (arith, length-append s suffix) in
    let fits : leb (length suffix) (length (s ++ suffix)) ≡ true =
      ground (arith, length-append s suffix) in
    rw (n, drop-append s suffix, fits) (bytes_beq_refl suffix)

-- A text with the suffix is what stands before it, and the suffix.
pub append_of_has_suffix :
    (s suffix : Bytes)
    → has_suffix s suffix ≡ true
    → take (length s - length suffix) s ++ suffix ≡ s
unfolding has_suffix
append_of_has_suffix s suffix h =
    let k : ℕ = length s - length suffix in
    let e : drop k s ≡ suffix = ground (arith, bytes_iff (drop k s) suffix) in
    ap (λ r. take k s ++ r) (sym e) ∙ take-append-drop k s

pub All-mono {ℓ κ μ} :
    {A : Type ℓ} {P : A → Type κ} {Q : A → Type μ}
    → ((x : A) → P x → Q x)
    → (xs : List A) → All P xs
    → All Q xs
All-mono f [] h = tt
All-mono f (x ∷ xs) h = (f x h.0, All-mono f xs h.1)

pub bytes_ne : (a b : Bytes) → a ≢ b → (a == b) ≡ false
bytes_ne a b h = elim (Bool-cases (a == b)) [ inl e ↦ absurd (h ((bytes_iff a b).0 e)) | inr e ↦ e ]

-- A text without a dot.
abbrev pub NoDot : Bytes → Type 0
NoDot s = All (λ c. c ≢ b'.') s

-- The first part of a text that is split at its dots.
pub split-part :
    (s cur r : Bytes)
    → NoDot s
    → split_from b'.' cur (s ++ b'.' ∷ r) ≡ (cur ++ s) ∷ split_from b'.' [] r
unfolding split_from
split-part [] cur r h = ap (λ p. p ∷ split_from b'.' [] r) (sym (append-nil cur))
split-part (c ∷ s) cur r h =
    let e : (c == b'.') ≡ false = ground (arith, nat_iff c b'.') in
    rw e (
      split-part s (cur ++ c ∷ []) r h.1
      ∙ ap (λ p. p ∷ split_from b'.' [] r) (append_assoc cur (c ∷ []) s))

-- The last one.
pub split-last : (s cur : Bytes) → NoDot s → split_from b'.' cur s ≡ (cur ++ s) ∷ []
unfolding split_from
split-last [] cur h = ap (λ p. p ∷ []) (sym (append-nil cur))
split-last (c ∷ s) cur h =
    let e : (c == b'.') ≡ false = ground (arith, nat_iff c b'.') in
    rw e (split-last s (cur ++ c ∷ []) h.1 ∙ ap (λ p. p ∷ []) (append_assoc cur (c ∷ []) s))

pub has_prefix-append : (p s : Bytes) → has_prefix (p ++ s) p ≡ true
unfolding has_prefix
has_prefix-append [] [] = refl
has_prefix-append [] (c ∷ s) = refl
has_prefix-append (c ∷ p) s = ground (arith, (nat_iff c c).1 refl, has_prefix-append p s)
