-- ===== src/Client/Counters.antt =====
-- cmd/stayrtr/stayrtr.go: the type metricsEvent, the outer handler of the server.
pub mod Labels
use stayrtr.Prelude.{
  ℕ, suc, ◌+◌, Option, none, some, List, [], ◌∷◌, Text, map, leb, ◌==◌, ◌&&◌, if◌then◌else◌, GoMap,
  text_keys, lookup, insert,
}
use stayrtr.Prelude.Int.{ℤ, pos, sub_ℕ}
use stayrtr.Pdu.{Pdu, get_type, type_to_string}
use stayrtr.Client.Handlers.{increment}

-- The metrics that metricsEvent sets: ClientsMetric of one local address, and PDUsRecv by its label.
pub record Counters : Type 0 where
  pub clients_metric : ℤ
  pub pdus_recv : GoMap Text ℕ

-- strings.Replace of a space by an underscore, and strings.ToLower, of a byte
unfoldable pub label_byte : ℕ → ℕ
label_byte c = if c == 32 then 95 else if leb 65 c && leb c 90 then c + 32 else c

unfoldable pub pdu_label : Pdu → Text
pdu_label pdu = map label_byte (type_to_string (get_type pdu))

-- ClientConnected, ClientDisconnected and HandlePDU
unfoldable pub count_connected : Counters → Counters
count_connected m = record m { clients_metric = increment m.clients_metric }

unfoldable pub count_disconnected : Counters → Counters
count_disconnected m = record m { clients_metric = sub_ℕ m.clients_metric 1 }

unfoldable pub count_so_far : Option ℕ → ℕ
count_so_far none = 0
count_so_far (some n) = n

unfoldable pub count_pdu : Counters → Pdu → Counters
count_pdu m pdu =
    let label = pdu_label pdu in
    record m {
      pdus_recv = insert label (suc (count_so_far (lookup label m.pdus_recv))) m.pdus_recv;
    }

unfoldable pub count_pdus : Counters → List Pdu → Counters
count_pdus m [] = m
count_pdus m (pdu ∷ pdus) = count_pdus (count_pdu m pdu) pdus
