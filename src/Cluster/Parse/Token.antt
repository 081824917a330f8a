-- ===== src/Cluster/Parse/Token.antt =====
-- A slot token, read back from the print of its range.
use valkeycluster_operator.Prelude.{ℕ, ◌^◌, ◌<◌, ◌≡◌, some, arith}
use valkeycluster_operator.Prelude.Int.{pos}
use valkeycluster_operator.Text.{Lacks}
use valkeycluster_operator.Text.Cut.{cut-append, cut-none}
use valkeycluster_operator.Text.Decimal.{itoa, format_nat, atoi-format_nat, format_nat-Lacks}
use valkeycluster_operator.Cluster.{SlotRange}
use valkeycluster_operator.Cluster.Parse.{parse_slot_token}
use valkeycluster_operator.Slots.{format_range}

pub no_dash : (n : ℕ) → Lacks b'-' (format_nat n)
no_dash n = format_nat-Lacks b'-' n (λ h. omega arith)

-- What `FormatRange` prints of a range of slots is read back as that range.
pub parse_slot_token-format_range :
    (s e : ℕ)
    → s < 2 ^ 63
    → e < 2 ^ 63
    → let r : SlotRange = record { start = pos s; end = pos e } in
      parse_slot_token (format_range r) ≡ some r
unfolding parse_slot_token format_range itoa
parse_slot_token-format_range s e hs he = ground (
  arith,
  cut-none b'-' (format_nat s) (no_dash s),
  cut-append b'-' (format_nat s) (format_nat e) (no_dash s),
  atoi-format_nat s hs,
  atoi-format_nat e he,
)
