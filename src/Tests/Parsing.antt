-- ===== src/Tests/Parsing.antt =====
-- Texts read and printed.
use valkeycluster_operator.Prelude.{
  ℕ, ◌+◌, ◌*◌, ◌≤◌, ◌<◌, ◌≡◌, ◌↔◌, ◌⊎◌, ◌++◌, ◌∷◌, ◌^◌, Has, arith,
}
use valkeycluster_operator.Prelude.Int.{ℤ, pos}
use valkeycluster_operator.Cluster.{SlotRange}
use valkeycluster_operator.Cluster.Parse.{parse_open_slots}
use valkeycluster_operator.Cluster.Parse.Open.{In, Distinct, Marked, parse_open_slots-Marked}
use valkeycluster_operator.Text.{Text, codes, fields}
use valkeycluster_operator.Text.Decimal.{format_nat}
use valkeycluster_operator.Resources.Config.{max_bytes, max_bytes_headroom}

abbrev middle : SlotRange
middle = record { start = pos 5461; end = pos 10921 }

max_bytes_headroom_example :
    (n : ℕ) × (max_bytes 1000 ≡ pos n) × (100 * n ≤ 70 * 1000) × (70 * 1000 < 100 * n + 100)
max_bytes_headroom_example = max_bytes_headroom 1000 (omega arith)

abbrev reply : Text
reply = codes "a1 connected 0-780 [781->-b2] [900-<-c3]"

parse_open_slots-Marked_example :
    Distinct (parse_open_slots reply)
    × ((k : ℤ) → In k (parse_open_slots reply) ↔ Marked k (fields reply))
    × ((n : ℕ) (id : Text)
        → n < 2 ^ 63
        → Has
            (λ f.
              (f ≡ b'[' ∷ (format_nat n ++ b'-' ∷ b'>' ∷ b'-' ∷ (id ++ codes "]")))
              ⊎ (f ≡ b'[' ∷ (format_nat n ++ b'-' ∷ b'<' ∷ b'-' ∷ (id ++ codes "]"))))
            (fields reply)
        → In (pos n) (parse_open_slots reply))
parse_open_slots-Marked_example = parse_open_slots-Marked reply
