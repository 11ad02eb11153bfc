-- ===== src/Tickets/Scan.antt =====
-- The payload of a ticket in src/waxseal/domain/tickets.py, and the tickets that a trail carries.
-- `json.loads` of a payload is an argument.
use waxseal.Base.{
  Bytes, ◌∷◌, not, value_error, some, codes, [], ok, Option, none, List, if◌then◌else◌, Result,
  ◌>>=◌, ◌≡◌, raise, text_eq, Text,
}
use waxseal.Base.Int.{ℤ}
use waxseal.Handoff.{json_int, json_text, no_members, member, Json, json_object}
use waxseal.Handoff.Reading.{get_or_null, readable_or_none}
use waxseal.Header.{Entry}
use waxseal.Tickets.{Ticket, new_ticket}

-- TICKET_PAYLOAD_TYPE
abbrev pub ticket_payload_type : Text
ticket_payload_type = codes "application/vnd.waxseal.admission-ticket+json"

unfoldable pub to_payload : Ticket → Json
to_payload t = json_object (
    member (codes "issuer") (json_text t.issuer)
      (member (codes "ticket_id") (json_int t.ticket_id) no_members))

-- `Ticket(...)` on any two values; every check of its `__post_init__` raises `ValueError`
unfoldable pub ticket_of : Json → Json → Result Ticket
unfolding new_ticket
ticket_of (json_text issuer) (json_int ticket_id) = new_ticket issuer ticket_id
ticket_of (json_text issuer) _ = raise value_error
ticket_of _ ticket_id = raise value_error

unfoldable pub from_payload : Json → Result Ticket
unfolding ticket_of get_or_null
from_payload (json_object obj) =
    ticket_of (get_or_null (codes "issuer") obj) (get_or_null (codes "ticket_id") obj)
from_payload _ = raise value_error

-- `present`, a set, is a list here.
pub record TicketScan : Type 0 where
  pub present : List ℤ
  pub unreadable : List ℤ

module _ (loads : Bytes → Result Json) (issuer : Text) where
  unfoldable pub read_ticket : Option Bytes → Result (Option Ticket)
  unfolding readable_or_none from_payload
  read_ticket none = ok none
  read_ticket (some payload) = readable_or_none (loads payload >>= from_payload)

  -- A row that was read, or not, in front of the scan of the later ones.
  unfoldable pub note_ticket : ℤ → Option Ticket → TicketScan → TicketScan
  note_ticket seq none scan = record scan { unreadable = seq ∷ scan.unreadable }
  note_ticket seq (some t) scan =
      if text_eq t.issuer issuer then record scan { present = t.ticket_id ∷ scan.present } else scan

  unfoldable pub scan_tickets : List Entry → Result TicketScan
  unfolding read_ticket note_ticket
  scan_tickets [] = ok (record { present = []; unreadable = [] })
  scan_tickets (e ∷ es) =
      let rest = scan_tickets es in
      if not (text_eq e.header.payload_type ticket_payload_type)
      then rest
      else (read_ticket e.payload >>= λ t. rest >>= λ scan. ok (note_ticket e.header.seq t scan))

-- A ticket is read back from the payload that was written for it.
pub from_payload-ticket :
    (t : Ticket) → new_ticket t.issuer t.ticket_id ≡ ok t → from_payload (to_payload t) ≡ ok t
unfolding from_payload to_payload get_or_null text_eq
from_payload-ticket t valid = valid
