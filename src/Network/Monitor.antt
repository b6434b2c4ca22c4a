-- ===== src/Network/Monitor.antt =====
-- The links that a rule picks: pkg/network/monitor/monitor.go.
use network_controller_harve.Common.{
  Bool, true, false, ◌&&◌, List, [], ◌∷◌, Option, none, some, Bytes, ◌==◌, bytes_eq, Result, ok,
  err, ◌>>=◌, if◌then◌else◌, nil_dereference,
}
use network_controller_harve.Network.{Netlink, Link}

-- `Pattern`
pub record Pattern : Type 0 where
  pub kind_rule : Bytes
  pub name_rule : Bytes

-- The rules of a monitor, by the names of their link monitors.
abbrev pub Rules : Type 0
Rules = List (Bytes × Pattern)

-- `DeletePattern`
unfoldable pub delete_pattern : Bytes → Rules → Rules
delete_pattern key [] = []
delete_pattern key ((k, pattern) ∷ rules) =
    let rest = delete_pattern key rules in if k == key then rest else (k, pattern) ∷ rest

-- `AddPattern`
unfoldable pub add_pattern : Bytes → Pattern → Rules → Rules
unfolding delete_pattern
add_pattern key pattern rules = (key, pattern) ∷ delete_pattern key rules

-- `GetPattern`; a nil pattern is `none`.
unfoldable pub get_pattern : Bytes → Rules → Option Pattern
get_pattern key [] = none
get_pattern key ((k, pattern) ∷ rules) = if k == key then some pattern else get_pattern key rules

-- The types of the messages of a link that the monitor knows.
pub data Message : Type 0 where
  new_link del_link other_message : Message

module _ (nl : Netlink) where
  abbrev pub rule_matches : Bytes → Bytes → Result Bool
  rule_matches rule text = if rule == [] then ok true else nl.match_string rule text

  abbrev pub matches_both : Option Pattern → Link → Result Bool
  matches_both none l = err nil_dereference
  matches_both (some p) l = do
    is_match_name ← rule_matches p.name_rule l.name
    is_match_type ← rule_matches p.kind_rule l.kind
    ok (is_match_name && is_match_type)

  -- `Pattern.match`
  unfoldable pub pattern_matches : Option Pattern → Link → Result Bool
  pattern_matches p l = if nl.is_loopback l then ok false else matches_both p l

  -- The loop of `ScanLinks`.
  unfoldable pub matching_links : Option Pattern → List Link → Result (List Link)
  matching_links p [] = ok []
  matching_links p (l ∷ links) = do
    is_match ← pattern_matches p l
    rest ← matching_links p links
    ok (if is_match then l ∷ rest else rest)

  -- `ScanLinks`
  unfoldable pub scan_links : Option Pattern → nl.State → Result (List Link)
  scan_links p s = nl.link_list s >>= λ links. matching_links p links

  -- `Monitor.match`, for the order in which the rules are read
  unfoldable pub first_match : Link → Rules → Result (Option Bytes)
  first_match l [] = ok none
  first_match l ((key, pattern) ∷ rules) = do
    is_match ← pattern_matches (some pattern) l
    let rest = first_match l rules
    if is_match then ok (some key) else rest

  abbrev pub key_of_message : Message → Option Bytes → Option Bytes
  key_of_message new_link found = found
  key_of_message del_link found = found
  key_of_message other_message found = none

  -- `handleLink`, with the name of the link monitor that is put into its queue
  unfoldable pub handle_link : Message → Link → Rules → Result (Option Bytes)
  handle_link message l rules = first_match l rules >>= λ found. ok (key_of_message message found)
