-- ===== src/Tests/Lines.antt =====
-- A line of CLUSTER NODES.
use valkeycluster_operator.Prelude.{
  ℕ, ◌≡◌, refl, Bool, true, not, ◌&&◌, Option, none, some, [], ◌∷◌, map, arith, All, ◌==◌,
}
use valkeycluster_operator.Text.{Text, codes, join, is_space, has_prefix}
use valkeycluster_operator.Text.Words.{IsWord, Spaceless}
use valkeycluster_operator.Cluster.Parse.{parse_nodes}
use valkeycluster_operator.Cluster.Parse.Printed.{
  Printed, IsPrinted, IsIpByte, IsPartByte, announced, line, node,
}
use valkeycluster_operator.Cluster.Parse.Nodes.{parse_nodes-lines}

-- `a1 10.0.0.1:6379@16379,pod-0 myself,master - 0 1 2 connected 0-5460 7000 [781->-b2]`
abbrev printed_as : Option Text → Printed
printed_as name = record {
  id = codes "a1";
  ip = codes "10.0.0.1";
  port = 6379;
  bus = codes "16379";
  hostname = name;
  flag = codes "myself";
  flags = codes "master" ∷ [];
  master = codes "-";
  ping = codes "0";
  pong = codes "1";
  epoch = codes "2";
  link = codes "connected";
  ranges = (0, 5460) ∷ (7000, 7000) ∷ [];
  markers = codes "[781->-b2]" ∷ [];
}

spaceless : Text → Bool
unfolding is_space
spaceless [] = true
spaceless (c ∷ t) = not (is_space c) && spaceless t

spaceless-Spaceless : (t : Text) → spaceless t ≡ true → Spaceless t
unfolding spaceless
spaceless-Spaceless [] h = tt
spaceless-Spaceless (c ∷ t) h = (ground arith, spaceless-Spaceless t (ground arith))

without : ℕ → Text → Bool
without b [] = true
without b (c ∷ t) = not (c == b) && without b t

part : (t : Text) → spaceless t ≡ true → without b',' t ≡ true → All IsPartByte t
unfolding spaceless without
part [] h k = tt
part (c ∷ t) h k = ((ground arith, ground arith), part t (ground arith) (ground arith))

address_part :
    (t : Text)
    → spaceless t ≡ true
    → without b',' t ≡ true
    → without b':' t ≡ true
    → without b'@' t ≡ true
    → All IsIpByte t
unfolding spaceless without
address_part [] h k l m = tt
address_part (c ∷ t) h k l m = (
  (ground arith, ground arith, ground arith, ground arith),
  address_part t (ground arith) (ground arith) (ground arith) (ground arith),
)

word : (c : ℕ) (t : Text) → spaceless (c ∷ t) ≡ true → IsWord (c ∷ t)
word c t h = ((λ e. cc), spaceless-Spaceless (c ∷ t) h)

line_ok : (name : Option Text) → Spaceless (announced name) → IsPrinted (printed_as name)
unfolding spaceless without has_prefix
line_ok name h = record {
  id = word _ _ refl;
  ip = address_part (codes "10.0.0.1") refl refl refl refl;
  port = omega arith;
  bus = part (codes "16379") refl refl;
  hostname = h;
  flag = λ e. cc;
  flags = (part (codes "myself") refl refl, (part (codes "master") refl refl, tt));
  master = word _ _ refl;
  ping = word _ _ refl;
  pong = word _ _ refl;
  epoch = word _ _ refl;
  link = word _ _ refl;
  ranges = ((omega arith, omega arith), ((omega arith, omega arith), tt));
  markers = ((refl, word _ _ refl), tt);
}

abbrev named : Printed
named = printed_as (some (codes "pod-0"))

abbrev nameless : Printed
nameless = printed_as none

name_ok : Spaceless (codes ",pod-0")
unfolding spaceless
name_ok = spaceless-Spaceless (codes ",pod-0") refl

parse_nodes-lines_example :
    parse_nodes (join (map line (named ∷ nameless ∷ [])) (codes "\n"))
    ≡ map node (named ∷ nameless ∷ [])
parse_nodes-lines_example =
    parse_nodes-lines (named ∷ nameless ∷ [])
      (line_ok (some (codes "pod-0")) name_ok, (line_ok none tt, tt))
