-- ===== src/Requests/Rounds.antt =====
-- What was sent stays in the log, and a loop that succeeds has succeeded in each round.
use mathlib.Core.Path.{subst}
use network_controller_harve.Common.{
  List, [], ◌∷◌, ◌++◌, ◌≡◌, refl, sym, ◌∙◌, ap, Check, Effect, Bool, true, false, ok, err, and_then,
  and_then-eq-ok, if◌then◌else◌, All,
}
use network_controller_harve.Requests.{
  Request, Log, Server, send, each, append_assoc, append_nil, IsIn, IsIn-left, IsIn-right,
}

-- The log of an effect is the one before with more requests.
abbrev pub Grows : Log → Effect Log → Type 0
Grows log m = (more : Log) × (m.0 ≡ log ++ more)

pub Grows-none : (log : Log) (r : Check) → Grows log (log, r)
Grows-none log r = ([], sym (append_nil log))

pub Grows-send : (server : Server) (q : Request) (log : Log) → Grows log (send server q log)
Grows-send server q log = (q ∷ [], refl)

pub Grows-if :
    (b : Bool) (log : Log) (m k : Effect Log)
    → Grows log m
    → Grows log k
    → Grows log (if b then m else k)
Grows-if true log m k h j = h
Grows-if false log m k h j = j

pub Grows-and_then :
    (log : Log) (m : Effect Log) (k : Log → Effect Log)
    → Grows log m
    → ((next : Log) → Grows next (k next))
    → Grows log (and_then m k)
Grows-and_then log (next, err e) k h rest = h
Grows-and_then log (next, ok done) k (reqs, same) rest =
    let (more, same') = rest next in
    (reqs ++ more, same' ∙ ap (λ l. l ++ more) same ∙ append_assoc log reqs more)

pub Grows-each {ℓ} :
    {A : Type ℓ} (f : A → Log → Effect Log)
    → ((x : A) (log : Log) → Grows log (f x log))
    → (xs : List A) (log : Log) → Grows log (each f xs log)
unfolding each
Grows-each f round [] log = Grows-none log (ok tt)
Grows-each f round (x ∷ xs) log =
    Grows-and_then log (f x log) (each f xs) (round x log) (Grows-each f round xs)

-- Every request of the first log is in the second.
abbrev pub Within : Log → Log → Type 0
Within log next = (q : Request) → IsIn q log → IsIn q next

pub Grows-Within :
    (log next : Log) (m : Effect Log) (r : Check) → Grows log m → m ≡ (next, r) → Within log next
Grows-Within log next m r (more, same) h q here =
    let e : log ++ more ≡ next = sym same ∙ ap (λ (k : Effect Log). k.0) h in
    subst (λ l. IsIn q l) e (IsIn-left q log more here)

-- A request that was sent and that the server took.
abbrev pub Taken : Server → Log → Request → Type 0
Taken server log q = IsIn q log × (server q ≡ ok tt)

pub send-Taken :
    (server : Server) (q : Request) (log next : Log)
    → send server q log ≡ (next, ok tt)
    → Taken server next q
send-Taken server q log next h = (
  subst (λ l. IsIn q l) (ap (λ (m : Effect Log). m.0) h) (IsIn-right q log),
  ap (λ (m : Effect Log). m.1) h,
)

-- What a round that succeeded gives holds of every item in the end.
pub each-All {ℓ κ} :
    {A : Type ℓ} (f : A → Log → Effect Log) (P : Log → A → Type κ)
    → ((x : A) (log : Log) → Grows log (f x log))
    → ((x : A) (log next : Log) → f x log ≡ (next, ok tt) → P next x)
    → ((x : A) (log next : Log) → Within log next → P log x → P next x)
    → (xs : List A) (log next : Log) → each f xs log ≡ (next, ok tt)
    → All (P next) xs
unfolding each
each-All f P grows round later [] log next h = tt
each-All f P grows round later (x ∷ xs) log next h =
    let (mid, e, rest) = and_then-eq-ok (f x log) _ h in
    let kept = Grows-Within mid next (each f xs mid) (ok tt) (Grows-each f grows xs mid) rest in
    (later x mid next kept (round x log mid e), each-All f P grows round later xs mid next rest)
