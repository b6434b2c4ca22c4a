-- ===== src/Common/Maps.antt =====
-- `map[string]string`, which may be nil: the labels and the annotations of an object.
use Prim.Native.String.{String}
use mathlib.Core.Path.{◌≡◌, refl, sym}
use mathlib.Core.Logic.{◌≢◌, inl, inr}
use mathlib.Core.Bool.{Bool, true, false}
use mathlib.Core.Option.{Option, none, some}
use mathlib.Core.List.{List, [], ◌∷◌}
use native.Mathlib.Omega.{arith}
use text.Mathlib.TextEquality.{eq_iff}
use network_controller_harve.Common.Tests.{◌==◌, string_eq, if◌then◌else◌, Bool-cases}
use network_controller_harve.Common.Lists.{Bytes}

abbrev pub Dict : Type 0
Dict = List (String × Bytes)

-- nil is `none`.
abbrev pub GoMap : Type 0
GoMap = Option Dict

unfoldable pub lookup : String → Dict → Option Bytes
lookup k [] = none
lookup k ((j, v) ∷ d) = if j == k then some v else lookup k d

unfoldable pub insert : String → Bytes → Dict → Dict
insert k v [] = (k, v) ∷ []
insert k v ((j, w) ∷ d) = if j == k then (k, v) ∷ d else (j, w) ∷ insert k v d

unfoldable pub remove : String → Dict → Dict
remove k [] = []
remove k ((j, v) ∷ d) = if j == k then remove k d else (j, v) ∷ remove k d

-- A nil map reads as an empty one.
abbrev pub entries : GoMap → Dict
entries none = []
entries (some d) = d

abbrev pub is_nil : GoMap → Bool
is_nil none = true
is_nil (some d) = false

-- `v, ok := m[k]`
abbrev pub find : String → GoMap → Option Bytes
find k m = lookup k (entries m)

abbrev pub or_empty : Option Bytes → Bytes
or_empty none = []
or_empty (some v) = v

-- `m[k]`, the empty text where the key is missing.
abbrev pub get : String → GoMap → Bytes
get k m = or_empty (find k m)

-- `if m == nil { m = make(map[string]string) }; m[k] = v`
abbrev pub put : String → Bytes → GoMap → GoMap
put k v m = some (insert k v (entries m))

-- `delete(m, k)`: a nil map stays nil.
abbrev pub delete : String → GoMap → GoMap
delete k none = none
delete k (some d) = some (remove k d)

pub lookup-insert :
    (k j : String) (v : Bytes) (d : Dict)
    → lookup j (insert k v d) ≡ (if k == j then some v else lookup j d)
unfolding lookup insert
lookup-insert k j v [] = refl
lookup-insert k j v ((i, w) ∷ d) =
    ground (arith, eq_iff k j, eq_iff i k, eq_iff i j, lookup-insert k j v d)

pub lookup-remove :
    (k j : String) (d : Dict) → lookup j (remove k d) ≡ (if k == j then none else lookup j d)
unfolding lookup remove
lookup-remove k j [] = ground arith
lookup-remove k j ((i, w) ∷ d) =
    ground (arith, eq_iff k j, eq_iff i k, eq_iff i j, lookup-remove k j d)

-- A key that differs from the one tested for.
pub ne_test : (k key : String) → k ≢ key → (key == k) ≡ false
ne_test k key h = elim (Bool-cases (key == k)) [
  | inl e ↦ absurd (h (sym ((eq_iff key k).0 e)))
  | inr e ↦ e
]
