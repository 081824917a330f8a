-- ===== src/Tests/Network.antt =====
-- Small networks.
use valkeycluster_operator.Prelude.{◌≡◌, refl, ⊤, true, [], ◌∷◌}
use valkeycluster_operator.Prelude.Int.{pos}
use valkeycluster_operator.Text.{Text, codes, fields, text_eq, has_prefix}
use valkeycluster_operator.Text.Cut.{split, cut}
use valkeycluster_operator.Text.Decimal.{atoi}
use valkeycluster_operator.Exec.{cause, ok, err}
use valkeycluster_operator.Cluster.{Endpoint, NodeInfo}
use valkeycluster_operator.Cluster.Parse.{
  parse_nodes, parse_lines, parse_fields, parse_addr, parse_slots, parse_slot_token,
}
use valkeycluster_operator.Cluster.GoRedis.{Client, Admin}
use valkeycluster_operator.Tests.World.{pod}

-- a master with one key range and a marker of slot 5, and one without slots
abbrev pub reply : Text
reply =
    codes
      "a 1.1.1.1:1@2 myself,master - 0 0 0 connected 5-6 [5->-b]\nb 1.1.1.2:1@2 master - 0 0 0 connected"

abbrev pub node_a : NodeInfo
node_a = record {
  id = codes "a";
  host = codes "1.1.1.1";
  ip = codes "1.1.1.1";
  port = pos 1;
  flags = codes "myself" ∷ codes "master" ∷ [];
  master_id = [];
  slots = record { start = pos 5; end = pos 6 } ∷ [];
  connected = true;
}

abbrev pub node_b : NodeInfo
node_b = record {
  id = codes "b";
  host = codes "1.1.1.2";
  ip = codes "1.1.1.2";
  port = pos 1;
  flags = codes "master" ∷ [];
  master_id = [];
  slots = [];
  connected = true;
}

-- every node answers every command, and no slot has a key
abbrev pub quiet_client : {W : Type 0} → Client W
quiet_client = record {
  cluster_info = λ _ w. (ok (codes "cluster_state:ok\r\ncluster_slots_assigned:2\r\n"), w);
  cluster_nodes = λ _ w. (ok reply, w);
  cluster_my_id = λ o w. (ok o.addr, w);
  cluster_meet = λ _ _ _ w. (ok tt, w);
  cluster_add_slots_range = λ _ _ _ w. (ok tt, w);
  cluster_replicate = λ _ _ w. (ok tt, w);
  cluster_forget = λ _ _ w. (ok tt, w);
  cluster_failover = λ _ w. (ok tt, w);
  cluster_get_keys_in_slot = λ _ _ _ w. (ok [], w);
  do_command = λ _ _ w. (ok tt, w);
  migrate = λ _ _ _ _ _ _ w. (ok tt, w);
}

-- commands in pods fail
abbrev pub over : {W : Type 0} → Client W → Admin W
over c = record {
  executor = record { exec = λ _ _ _ _ w. (err (cause (codes "no pod")), w) };
  container = codes "valkey";
  client = c;
  resolver = record { is_ip = λ _. true; lookup_host = λ _ w. (ok [], w) };
}

abbrev pub quiet : Admin ⊤
quiet = over quiet_client

abbrev pub here : Endpoint
here = pod (codes "a")

pub parsed : parse_nodes reply ≡ node_a ∷ node_b ∷ []
unfolding parse_nodes parse_lines split parse_fields fields parse_addr text_eq parse_slots cut atoi
    has_prefix parse_slot_token
parsed = refl
