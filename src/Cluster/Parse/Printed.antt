-- ===== src/Cluster/Parse/Printed.antt =====
-- The lines of CLUSTER NODES, as a server prints them, and the nodes they are about.
use valkeycluster_operator.Prelude.{
  ℕ, ◌^◌, ◌<◌, ◌≡◌, ◌≢◌, true, false, Option, none, some, List, [], ◌∷◌, ◌++◌, map, if◌then◌else◌,
  All,
}
use valkeycluster_operator.Prelude.Int.{pos}
use valkeycluster_operator.Text.{Text, codes, join, is_space, has_prefix, text_eq}
use valkeycluster_operator.Text.Words.{IsWord, Spaceless}
use valkeycluster_operator.Text.Decimal.{format_nat}
use valkeycluster_operator.Slots.{format_range}
use valkeycluster_operator.Cluster.{SlotRange, NodeInfo}

-- a node as the server prints it: `ping`, `pong`, `epoch` and the bus port `bus` are not read, and
-- behind the slots stand the markers of open slots
pub record Printed : Type 0 where
  pub id : Text
  pub ip : Text
  pub port : ℕ
  pub bus : Text
  pub hostname : Option Text
  pub flag : Text
  pub flags : List Text
  pub master : Text
  pub ping : Text
  pub pong : Text
  pub epoch : Text
  pub link : Text
  pub ranges : List (ℕ × ℕ)
  pub markers : List Text

abbrev pub range_of : ℕ × ℕ → SlotRange
range_of (a, b) = record { start = pos a; end = pos b }

-- `ip:port`, `ip:port@bus` and `ip:port@bus[,hostname]`
abbrev pub socket : Printed → Text
socket n = n.ip ++ b':' ∷ format_nat n.port

abbrev pub peer : Printed → Text
peer n = socket n ++ b'@' ∷ n.bus

abbrev pub announced : Option Text → Text
announced none = []
announced (some h) = b',' ∷ h

abbrev pub address : Printed → Text
address n = peer n ++ announced n.hostname

abbrev pub name_of : Option Text → Text
name_of none = []
name_of (some h) = h

-- the announced name, if there is one and it is not empty, or the address
abbrev pub host_or : Text → Option Text → Text
host_or ip none = ip
host_or ip (some []) = ip
host_or ip (some (c ∷ h)) = c ∷ h

abbrev pub words : Printed → List Text
words n =
    n.id
    ∷ address n
    ∷ join (n.flag ∷ n.flags) (b',' ∷ [])
    ∷ n.master
    ∷ n.ping
    ∷ n.pong
    ∷ n.epoch
    ∷ n.link
    ∷ (map (λ p. format_range (range_of p)) n.ranges ++ n.markers)

abbrev pub line : Printed → Text
line n = join (words n) (b' ' ∷ [])

-- the node that the line is about
abbrev pub node : Printed → NodeInfo
node n = record {
  id = n.id;
  host = host_or n.ip n.hostname;
  ip = n.ip;
  port = pos n.port;
  flags = n.flag ∷ n.flags;
  master_id = if text_eq n.master (codes "-") then [] else n.master;
  slots = map range_of n.ranges;
  connected = text_eq n.link (codes "connected");
}

-- a byte that may stand in an IPv4 address
abbrev pub IsIpByte : ℕ → Type 0
IsIpByte c = (c ≢ b':') × (c ≢ b'@') × (c ≢ b',') × (is_space c ≡ false)

-- a byte of a part between commas
abbrev pub IsPartByte : ℕ → Type 0
IsPartByte c = (c ≢ b',') × (is_space c ≡ false)

abbrev pub IsMarker : Text → Type 0
IsMarker t = (has_prefix t (codes "[") ≡ true) × IsWord t

-- what a server prints: no separator within a field, and numbers within 63 bits
pub record IsPrinted (n : Printed) : Type 0 where
  pub id : IsWord n.id
  pub ip : All IsIpByte n.ip
  pub port : n.port < 2 ^ 63
  pub bus : All IsPartByte n.bus
  pub hostname : Spaceless (announced n.hostname)
  pub flag : n.flag ≢ []
  pub flags : All (All IsPartByte) (n.flag ∷ n.flags)
  pub master : IsWord n.master
  pub ping : IsWord n.ping
  pub pong : IsWord n.pong
  pub epoch : IsWord n.epoch
  pub link : IsWord n.link
  pub ranges : All (λ p. (p.0 < 2 ^ 63) × (p.1 < 2 ^ 63)) n.ranges
  pub markers : All IsMarker n.markers
