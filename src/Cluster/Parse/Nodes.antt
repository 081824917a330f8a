-- ===== src/Cluster/Parse/Nodes.antt =====
-- The lines of CLUSTER NODES are read back as the nodes that they are about.
use valkeycluster_operator.Prelude.{
  ◌≡◌, refl, ◌≢◌, ◌∙◌, ap, false, some, List, [], ◌∷◌, map, arith, All, All-append, append-nil,
  append_assoc, sym, none, Option, ◌++◌, if◌then◌else◌,
}
use valkeycluster_operator.Prelude.Int.{pos}
use valkeycluster_operator.Text.{Text, is_empty, Lacks, join, is_space, fields}
use valkeycluster_operator.Text.Cut.{split, cut-append, cut-none}
use valkeycluster_operator.Text.Words.{
  IsWord, fields-join, split-join, append-ne-nil, join-All, join-ne-nil,
}
use valkeycluster_operator.Text.Decimal.{format_nat, format_nat-Lacks, atoi-format_nat}
use valkeycluster_operator.Slots.{format_range}
use valkeycluster_operator.Cluster.{NodeInfo}
use valkeycluster_operator.Cluster.Parse.{
  cut_or_all, parse_addr, parse_fields, parse_lines, parse_nodes,
}
use valkeycluster_operator.Cluster.Parse.Printed.{
  Printed, range_of, socket, peer, announced, name_of, host_or, address, words, line, node,
  IsPrinted,
}
use valkeycluster_operator.Cluster.Parse.Slots.{
  weaken, digit-Spaceless, weaken-All, words-Lacks, ranges-IsWord, markers-IsWord,
  parse_slots-ranges,
}

module _ (n : Printed) (h : IsPrinted n) where
  no_comma : Lacks b',' (peer n)
  no_comma =
      All-append _ (socket n) _
        (All-append _ n.ip _ (weaken n.ip (λ c x. x.2) h.ip)
          ((λ e. omega arith), format_nat-Lacks b',' n.port (λ x. omega arith)))
        ((λ e. omega arith), weaken n.bus (λ c x. x.0) h.bus)

  no_at : Lacks b'@' (socket n)
  no_at =
      All-append _ n.ip _ (weaken n.ip (λ c x. x.1) h.ip)
        ((λ e. omega arith), format_nat-Lacks b'@' n.port (λ x. omega arith))

  cut-announced :
      (name : Option Text) → cut_or_all b',' (peer n ++ announced name) ≡ (peer n, name_of name)
  cut-announced none =
      ap (cut_or_all b',') (append-nil (peer n))
      ∙ rw (cut_or_all, cut-none b',' (peer n) no_comma) refl
  cut-announced (some name) = rw (cut_or_all, cut-append b',' (peer n) name no_comma) refl

  peer-ne-nil : (t : Text) → peer n ++ t ≢ []
  peer-ne-nil t e =
      append-ne-nil (socket n) (n.bus ++ t) b'@'
        (sym (append_assoc (socket n) (b'@' ∷ n.bus) t) ∙ e)

  parse_addr-address : parse_addr (address n) ≡ (n.ip, pos n.port, name_of n.hostname)
  unfolding parse_addr
  parse_addr-address = ground (
    arith,
    cut-announced n.hostname,
    cut-append b'@' (socket n) n.bus no_at,
    cut-append b':' n.ip (format_nat n.port) (weaken n.ip (λ c x. x.0) h.ip),
    atoi-format_nat n.port h.port,
  )

  host_lem :
      (ip : Text) (name : Option Text)
      → (if is_empty (name_of name) then ip else name_of name) ≡ host_or ip name
  unfolding is_empty
  host_lem ip none = refl
  host_lem ip (some []) = refl
  host_lem ip (some (c ∷ t)) = refl

  address-IsWord : IsWord (address n)
  address-IsWord = (
    peer-ne-nil (announced n.hostname),
    All-append _ (peer n) _
        (All-append _ (socket n) _
          (All-append _ n.ip _ (weaken n.ip (λ c x. x.3) h.ip)
            (unfold is_space in refl, digit-Spaceless n.port))
          (unfold is_space in refl, weaken n.bus (λ c x. x.1) h.bus))
        h.hostname,
  )

  flags-IsWord : IsWord (join (n.flag ∷ n.flags) (b',' ∷ []))
  flags-IsWord = (
    join-ne-nil n.flag n.flags (b',' ∷ []) h.flag,
    join-All (λ c. is_space c ≡ false) (n.flag ∷ n.flags) b',' (unfold is_space in refl)
        (weaken-All (n.flag ∷ n.flags) (λ c x. x.1) h.flags),
  )

  words-IsWord : All IsWord (words n)
  words-IsWord = (
    h.id,
    (
      address-IsWord,
      (
        flags-IsWord,
        (
          h.master,
          (
            h.ping,
            (
              h.pong,
              (
                h.epoch,
                (
                  h.link,
                  All-append IsWord (map (λ p. format_range (range_of p)) n.ranges) n.markers
                      (ranges-IsWord n.ranges) (markers-IsWord n.markers h.markers),
                ),
              ),
            ),
          ),
        ),
      ),
    ),
  )

  parse_fields-words : parse_fields (words n) ≡ some (node n)
  unfolding parse_fields
  parse_fields-words =
      rw
        (
          parse_addr-address,
          host_lem n.ip n.hostname,
          split-join b',' n.flag n.flags (weaken-All (n.flag ∷ n.flags) (λ c x. x.0) h.flags),
          parse_slots-ranges n.ranges n.markers h.ranges h.markers,
        )
        refl

  line-read : parse_fields (fields (line n)) ≡ some (node n)
  line-read = ap parse_fields (fields-join (words n) words-IsWord) ∙ parse_fields-words

  line-Lacks : Lacks b'\n' (line n)
  line-Lacks =
      join-All (λ c. c ≢ b'\n') (words n) b' ' (λ e. omega arith)
        (words-Lacks (words n) words-IsWord)

parse_lines-read :
    (l : Text) (ls : List Text) (n : NodeInfo)
    → parse_fields (fields l) ≡ some n
    → parse_lines (l ∷ ls) ≡ n ∷ parse_lines ls
unfolding parse_lines
parse_lines-read l ls n e = ground arith

lines-read : (ns : List Printed) → All IsPrinted ns → parse_lines (map line ns) ≡ map node ns
unfolding parse_lines
lines-read [] h = refl
lines-read (n ∷ ns) h =
    parse_lines-read (line n) (map line ns) (node n) (line-read n h.0)
    ∙ ap (◌∷◌ (node n)) (lines-read ns h.1)

lines-Lacks : (ns : List Printed) → All IsPrinted ns → All (Lacks b'\n') (map line ns)
lines-Lacks [] h = tt
lines-Lacks (n ∷ ns) h = (line-Lacks n h.0, lines-Lacks ns h.1)

-- `parseNodes` reads back the nodes of lines of CLUSTER NODES whose addresses have no colon of their
-- own, with a bus port and with or without an announced name, and whose fields have no separator
-- within: the identity, the address, the host (the announced name, or the address where there is none
-- or an empty one), the flags, the master, the link and the slot ranges of each, in order; the fields
-- it does not need and the markers of open slots are passed over.
pub parse_nodes-lines :
    (ns : List Printed)
    → All IsPrinted ns
    → parse_nodes (join (map line ns) (b'\n' ∷ [])) ≡ map node ns
unfolding parse_nodes
parse_nodes-lines [] h = unfold join split parse_lines parse_fields fields in refl
parse_nodes-lines (n ∷ ns) h =
    ap parse_lines (split-join b'\n' (line n) (map line ns) (lines-Lacks (n ∷ ns) h))
    ∙ lines-read (n ∷ ns) h
