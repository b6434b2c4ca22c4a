-- ===== src/Requests.antt =====
-- What a controller asks the API server to change: the requests sent so far, and the server's
-- answers as a parameter.
pub mod Rounds
use network_controller_harve.Common.{
  Bytes, List, [], ◌∷◌, ◌++◌, ◌≡◌, refl, sym, ◌∙◌, ap, Check, Effect, Bool, true, all, arith, ◌⊎◌,
  inl, inr, ok, err, and_then,
}
use network_controller_harve.Objects.{
  Nad, ClusterNetwork, HostNetworkConfig, NodeStatus, Node, VlanStatus, VlanConfig, LinkMonitor,
  Job,
}

pub data Request : Type 0 where
  update_nad : Nad → Request
  create_cluster_network update_cluster_network : ClusterNetwork → Request
  -- a link monitor with the rules for the type and for the name of a link
  create_link_monitor : Bytes → Bytes → Bytes → Request
  delete_link_monitor : Bytes → Request
  -- an update of a host network configuration, and a merge patch of its status for one node
  update_host_network_config : HostNetworkConfig → Request
  patch_node_status : Bytes → Bytes → NodeStatus → Request
  -- a merge patch that removes the status for one node
  remove_node_status : Bytes → Bytes → Request
  update_node : Node → Request
  create_vlan_config update_vlan_config : VlanConfig → Request
  delete_vlan_config : Bytes → Request
  create_job update_job : Job → Request
  delete_job : Bytes → Bytes → Request
  update_link_monitor : LinkMonitor → Request
  create_vlan_status update_vlan_status : VlanStatus → Request
  delete_vlan_status : Bytes → Request
  -- an object is put into the queue of its controller, which does not fail
  enqueue_cluster_network enqueue_host_network_config : Bytes → Request

-- The requests in the order in which they were sent.
abbrev pub Log : Type 0
Log = List Request

abbrev pub Server : Type 0
Server = Request → Check

abbrev pub send : Server → Request → Log → Effect Log
send server r log = (log ++ r ∷ [], server r)

-- A loop that ends at the first error.
unfoldable pub each {ℓ} : {A : Type ℓ} → (A → Log → Effect Log) → List A → Log → Effect Log
each f [] log = (log, ok tt)
each f (x ∷ xs) log = and_then (f x log) (λ next. each f xs next)

-- What a loop sends when no round fails.
abbrev pub sent {ℓ} : {A : Type ℓ} → (A → List Request) → List A → List Request
sent g [] = []
sent g (x ∷ xs) = g x ++ sent g xs

pub append_assoc : (a b c : Log) → (a ++ b) ++ c ≡ a ++ (b ++ c)
append_assoc [] b c = refl
append_assoc (r ∷ a) b c = ap (λ l. r ∷ l) (append_assoc a b c)

pub append_nil : (a : Log) → a ++ [] ≡ a
append_nil [] = refl
append_nil (r ∷ a) = ap (λ l. r ∷ l) (append_nil a)

pub each-sent {ℓ} :
    {A : Type ℓ} (f : A → Log → Effect Log) (g : A → List Request)
    → ((x : A) (log : Log) → f x log ≡ (log ++ g x, ok tt))
    → (xs : List A) (log : Log) → each f xs log ≡ (log ++ sent g xs, ok tt)
unfolding each
each-sent f g round [] log = ap (λ l. (l, ok tt)) (sym (append_nil log))
each-sent f g round (x ∷ xs) log = rw (round x log) (
    each-sent f g round xs (log ++ g x) ∙ ap (λ l. (l, ok tt)) (append_assoc log (g x) (sent g xs)))

-- The log of an effect is the one before with requests that pass the test.
abbrev pub Adds : (Request → Bool) → Log → Effect Log → Type 0
Adds p log m = (reqs : List Request) × (m.0 ≡ log ++ reqs) × (all p reqs ≡ true)

all-append :
    (p : Request → Bool) (a b : Log) → all p a ≡ true → all p b ≡ true → all p (a ++ b) ≡ true
all-append p [] b h k = k
all-append p (r ∷ a) b h k = ground (arith, h, k, all-append p a b)

Adds-and_then :
    (p : Request → Bool) (log : Log) (m : Effect Log) (k : Log → Effect Log)
    → Adds p log m
    → ((next : Log) → Adds p next (k next))
    → Adds p log (and_then m k)
Adds-and_then p log (next, err e) k (reqs, same, passed) rest = (reqs, same, passed)
Adds-and_then p log (next, ok done) k (reqs, same, passed) rest =
    let (more, same', passed') = rest next in
    (
      reqs ++ more,
      same' ∙ ap (λ l. l ++ more) same ∙ append_assoc log reqs more,
      all-append p reqs more passed passed',
    )

pub Adds-each {ℓ} :
    {A : Type ℓ} (p : Request → Bool) (f : A → Log → Effect Log)
    → ((x : A) (log : Log) → Adds p log (f x log))
    → (xs : List A) (log : Log) → Adds p log (each f xs log)
unfolding each
Adds-each p f round [] log = ([], sym (append_nil log), refl)
Adds-each p f round (x ∷ xs) log =
    Adds-and_then p log (f x log) (each f xs) (round x log) (Adds-each p f round xs)

-- A request is in a log.
abbrev pub IsIn : Request → Log → Type 0
IsIn r [] = ⊥
IsIn r (q ∷ log) = (q ≡ r) ⊎ IsIn r log

-- What was sent stays in the log, and what is sent is in it.
pub IsIn-left : (r : Request) (a b : Log) → IsIn r a → IsIn r (a ++ b)
IsIn-left r [] b h = elim h [ ]
IsIn-left r (q ∷ a) b (inl e) = inl e
IsIn-left r (q ∷ a) b (inr h) = inr (IsIn-left r a b h)

pub IsIn-right : (r : Request) (log : Log) → IsIn r (log ++ r ∷ [])
IsIn-right r [] = inl refl
IsIn-right r (q ∷ log) = inr (IsIn-right r log)
