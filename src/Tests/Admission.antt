-- ===== src/Tests/Admission.antt =====
-- The tickets of a trail, reconciled with an issuer's list.
use waxseal.Base.{
  ok, ◌∷◌, ◌>>=◌, value_error, List, Result, ◌≡◌, codes, ℕ, [], some, refl, raise, Bytes, text_eq,
  Option,
}
use waxseal.Base.Int.{ℤ, pos}
use waxseal.Handoff.{Json}
use waxseal.Handoff.Reading.{readable_or_none, get_or_null}
use waxseal.Header.{genesis_prev_hash, Entry}
use waxseal.Receipts.Line.{find_member}
use waxseal.Tickets.{
  sorted_set, any_negative, mem, measured_tickets, reconcile_set, window_lo, insert, new_ticket,
  keep, max_of, reconcile_tickets,
}
use waxseal.Tickets.Scan.{
  from_payload, to_payload, read_ticket, ticket_of, note_ticket, TicketScan, scan_tickets,
  ticket_payload_type,
}
use waxseal.Verdict.{broken}

-- A payload of one byte is that ticket of the desk; any other is no JSON.
one_byte : Bytes → Result Json
one_byte (n ∷ []) = ok (to_payload (record { issuer = codes "desk"; ticket_id = pos n }))
one_byte _ = raise value_error

ticket_row : ℤ → Option Bytes → Entry
ticket_row seq payload = record {
  header = record {
    seq = seq;
    ts = [];
    hash_version = [];
    payload_type = ticket_payload_type;
    payload_hash = [];
    prev_hash = genesis_prev_hash;
  };
  entry_hash = [];
  payload = payload;
}

abbrev rows : List Entry
rows = ticket_row (pos 0) (some (1 ∷ [])) ∷ ticket_row (pos 1) (some (0 ∷ 0 ∷ [])) ∷ []

abbrev found : TicketScan
found = record { present = pos 1 ∷ []; unreadable = pos 1 ∷ [] }

unfoldable admitting : ℕ
unfolding one_byte ticket_row to_payload from_payload ticket_of new_ticket get_or_null find_member
    read_ticket readable_or_none note_ticket scan_tickets text_eq mem keep insert sorted_set max_of
    any_negative window_lo measured_tickets reconcile_set reconcile_tickets
admitting = 0

abbrev issued : List ℤ
issued = pos 0 ∷ pos 1 ∷ pos 5 ∷ []

-- The row that could not be read does not keep the verdict from being broken.
broken_beside_unreadable :
    (reconcile_tickets found.present (some issued) (pos 3) >>= λ r. ok r.verdict) ≡ ok broken
unfolding admitting
broken_beside_unreadable = refl
