-- ===== src/Cluster/Parse.antt =====
-- internal/cluster/goredis.go: reading the replies of CLUSTER INFO and CLUSTER NODES.
pub mod Token
pub mod Printed
pub mod Slots
pub mod Nodes
pub mod Marker
pub mod Open
use valkeycluster_operator.Prelude.{
  ℕ, Bool, true, false, not, ◌&&◌, ◌||◌, Option, none, some, List, [], ◌∷◌, ◌++◌, any, leb, ◌==◌,
  if◌then◌else◌, ◌≡◌, refl,
}
use valkeycluster_operator.Prelude.Int.{ℤ, pos, eqb_ℤ}
use valkeycluster_operator.Text.{
  Text, codes, text_eq, is_empty, has_prefix, contains, fields, trim_space,
}
use valkeycluster_operator.Text.Cut.{cut, split}
use valkeycluster_operator.Text.Decimal.{atoi}
use valkeycluster_operator.Dict.{Dict, insert}
use valkeycluster_operator.Cluster.{SlotRange, NodeInfo}

-- one line of `parseInfo`
info_line : Text → Dict Text → Dict Text
info_line line out = elim (cut b':' (trim_space line)) [ none ↦ out | some (k, v) ↦ insert k v out ]

info_lines : List Text → Dict Text → Dict Text
unfolding info_line
info_lines [] out = out
info_lines (line ∷ rest) out = info_lines rest (info_line line out)

-- `parseInfo`
unfoldable pub parse_info : Text → Dict Text
unfolding info_lines
parse_info s = info_lines (split b'\n' s) []

-- `strings.Cut`: the whole text and the empty one if there is no separator
abbrev pub cut_or_all : ℕ → Text → Text × Text
cut_or_all b s = elim (cut b s) [ none ↦ (s, []) | some (l, r) ↦ (l, r) ]

-- `parseAddr`: ip, port and announced hostname
unfoldable pub parse_addr : Text → Text × ℤ × Text
parse_addr s =
    let (s', hostname) = cut_or_all b',' s in
    let (s'', _) = cut_or_all b'@' s' in
    let (host, port_str) = cut_or_all b':' s'' in (host, (atoi port_str).0, hostname)

-- both ends of a token with a dash
both_ends : ℤ × Bool → ℤ × Bool → Option SlotRange
both_ends (s, ok) (e, ok') = if ok && ok' then some (record { start = s; end = e }) else none

-- `parseSlotToken`
unfoldable pub parse_slot_token : Text → Option SlotRange
unfolding both_ends
parse_slot_token tok = elim (cut b'-' tok) [
  | some (lo, hi) ↦ both_ends (atoi lo) (atoi hi)
  | none ↦ both_ends (atoi tok) (atoi tok)
]

-- the loop of `parseNodes` over the slot tokens of a line
unfoldable pub parse_slots : List Text → List SlotRange
parse_slots [] = []
parse_slots (tok ∷ toks) =
    let rest = parse_slots toks in
    if has_prefix tok (codes "[")
    then rest
    else elim (parse_slot_token tok) [ none ↦ rest | some r ↦ r ∷ rest ]

-- one line of `parseNodes`, as its fields; a line of fewer than eight is skipped
unfoldable pub parse_fields : List Text → Option NodeInfo
parse_fields (id ∷ address ∷ flags ∷ master ∷ _ ∷ _ ∷ _ ∷ link ∷ toks) =
    let (ip, port, hostname) = parse_addr address in
    some (record {
      id = id;
      host = if is_empty hostname then ip else hostname;
      ip = ip;
      port = port;
      flags = split b',' flags;
      master_id = if text_eq master (codes "-") then [] else master;
      slots = parse_slots toks;
      connected = text_eq link (codes "connected");
    })
parse_fields _ = none

unfoldable pub parse_lines : List Text → List NodeInfo
parse_lines [] = []
parse_lines (line ∷ rest) = elim (parse_fields (fields line)) [
  | none ↦ parse_lines rest
  | some n ↦ n ∷ parse_lines rest
]

-- `parseNodes`
unfoldable pub parse_nodes : Text → List NodeInfo
parse_nodes s = parse_lines (split b'\n' s)

-- `hasOpenSlots`
unfoldable pub has_open_slots : Text → Bool
has_open_slots raw = contains raw (codes "->-") || contains raw (codes "-<-")

unfoldable pub leading_digits : Text → Text
leading_digits [] = []
leading_digits (c ∷ s) = if leb b'0' c && leb c b'9' then c ∷ leading_digits s else []

-- the slot of a field of CLUSTER NODES, if the field is an open-slot marker
unfoldable pub open_marker : Text → Option ℤ
open_marker [] = none
open_marker (c ∷ body) =
    let ds = leading_digits body in
    let (n, ok) = atoi ds in if c == b'[' && not (is_empty ds) && ok then some n else none

-- `seen[n] = true`
unfoldable pub add_slot : ℤ → List ℤ → List ℤ
add_slot n seen = if any (λ m. eqb_ℤ m n) seen then seen else seen ++ n ∷ []

-- the loop of `parseOpenSlots`
unfoldable pub open_from : List Text → List ℤ → List ℤ
open_from [] seen = seen
open_from (f ∷ fs) seen = elim (open_marker f) [
  | none ↦ open_from fs seen
  | some n ↦ open_from fs (add_slot n seen)
]

-- `parseOpenSlots`; the order of the result, that of a Go map, is here the order of appearance
unfoldable pub parse_open_slots : Text → List ℤ
parse_open_slots raw = open_from (fields raw) []

parse_open_slots_test :
    parse_open_slots (codes "a1 10.0.0.1:6379 connected 0-780 [781->-b2] [900-<-c3] [781->-b2]")
    ≡ pos 781 ∷ pos 900 ∷ []
unfolding parse_open_slots open_from open_marker leading_digits add_slot fields atoi is_empty
parse_open_slots_test = refl
