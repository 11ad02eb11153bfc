-- ===== src/Tickets/Trail.antt =====
-- `scan_tickets` and `reconcile_tickets` of src/waxseal/domain/tickets.py together.
use waxseal.Base.{◌⊎◌, ◌>>=◌, Text, Result, List, ok, ◌∷◌, some, [], ◌≡◌, Bytes}
use waxseal.Base.Int.{ℤ}
use waxseal.Handoff.{Json}
use waxseal.Header.{Entry}
use waxseal.Tickets.{Ticket}
use waxseal.Tickets.Scan.{from_payload, ticket_payload_type}

module _ (loads : Bytes → Result Json) (issuer : Text) where
  -- A row of the trail is the issuer's ticket with this number.
  unfoldable pub IsTicket : ℤ → Entry → Type 0
  IsTicket t e =
      (payload : Bytes) × (ticket : Ticket) × (e.header.payload_type ≡ ticket_payload_type)
      × (e.payload ≡ some payload)
      × ((loads payload >>= from_payload) ≡ ok ticket)
      × (ticket.issuer ≡ issuer)
      × (ticket.ticket_id ≡ t)

  unfoldable pub Carries : ℤ → List Entry → Type 0
  unfolding IsTicket
  Carries t [] = ⊥
  Carries t (e ∷ es) = IsTicket t e ⊎ Carries t es
