-- ===== src/Interventions.antt =====
-- src/waxseal/domain/intervention.py: the acts of supervision that a trail records. `json.loads` of
-- a payload is an argument; an object has each key once.
use waxseal.Base.{
  not, ◌>>=◌, ◌∷◌, refl, codes, if◌then◌else◌, ◌++◌, Option, Bytes, [], some, value_error, ok_inj,
  inr, Result, text_eq, none, List, Bool-cases, ◌≢◌, Text, ok, ◌∙◌, >>=-eq-ok, inl, raise, ap, ◌≡◌,
}
use waxseal.Base.Int.{ℤ}
use waxseal.Handoff.{json_null, member, Json, no_members, Members, json_object, json_text}
use waxseal.Handoff.Reading.{readable_or_none, get_or_null}
use waxseal.Header.{Entry}

-- INTERVENTION_PAYLOAD_TYPE
abbrev pub intervention_payload_type : Text
intervention_payload_type = codes "application/vnd.waxseal.human-intervention.v1+json"

pub record InterventionRecord : Type 0 where
  pub intervention_id : Text
  pub system_id : Text
  pub actor_ref : Text
  pub action : Text
  pub decision_ref : Option Text
  pub rationale : Option Text
  pub trace_id : Option Text

-- `_require_nonempty`
unfoldable pub require_nonempty : Json → Result Text
require_nonempty (json_text (c ∷ s)) = ok (c ∷ s)
require_nonempty _ = raise value_error

-- `_optional_str`
unfoldable pub optional_str : Json → Result (Option Text)
optional_str json_null = ok none
optional_str (json_text t) = ok (some t)
optional_str _ = raise value_error

-- An optional text, which is an explicit null where there is none.
unfoldable pub or_null_text : Option Text → Json
or_null_text none = json_null
or_null_text (some t) = json_text t

-- `InterventionRecord(...)` with its `__post_init__`, on what `from_payload` has read
unfoldable pub new_intervention : Members → Result InterventionRecord
unfolding require_nonempty optional_str get_or_null
new_intervention obj = do
  intervention_id ← require_nonempty (get_or_null (codes "intervention_id") obj)
  system_id ← require_nonempty (get_or_null (codes "system_id") obj)
  actor_ref ← require_nonempty (get_or_null (codes "actor_ref") obj)
  action ← require_nonempty (get_or_null (codes "action") obj)
  decision_ref ← optional_str (get_or_null (codes "decision_ref") obj)
  rationale ← optional_str (get_or_null (codes "rationale") obj)
  trace_id ← optional_str (get_or_null (codes "trace_id") obj)
  ok (record {
    intervention_id = intervention_id;
    system_id = system_id;
    actor_ref = actor_ref;
    action = action;
    decision_ref = decision_ref;
    rationale = rationale;
    trace_id = trace_id;
  })

unfoldable pub to_payload : InterventionRecord → Json
unfolding or_null_text
to_payload r = json_object (
    member (codes "intervention_id") (json_text r.intervention_id) (
      member (codes "system_id") (json_text r.system_id) (
        member (codes "actor_ref") (json_text r.actor_ref) (
          member (codes "action") (json_text r.action) (
            member (codes "decision_ref") (or_null_text r.decision_ref) (
              member (codes "rationale") (or_null_text r.rationale)
                (member (codes "trace_id") (or_null_text r.trace_id) no_members)))))))

unfoldable pub from_payload : Json → Result InterventionRecord
unfolding new_intervention
from_payload (json_object obj) = new_intervention obj
from_payload _ = raise value_error

pub record InterventionScan : Type 0 where
  pub records : List (ℤ × InterventionRecord)
  pub unreadable : List ℤ

-- A row that was read, or not, in front of the scan of the later ones.
unfoldable pub noted : ℤ → Option InterventionRecord → InterventionScan → InterventionScan
noted seq none scan = record scan { unreadable = seq ∷ scan.unreadable }
noted seq (some r) scan = record scan { records = (seq, r) ∷ scan.records }

module _ (loads : Bytes → Result Json) where
  unfoldable pub read_row : Option Bytes → Result (Option InterventionRecord)
  unfolding readable_or_none from_payload
  read_row none = ok none
  read_row (some payload) = readable_or_none (loads payload >>= from_payload)

  unfoldable pub scan_interventions : List Entry → Result InterventionScan
  unfolding read_row noted
  scan_interventions [] = ok (record { records = []; unreadable = [] })
  scan_interventions (e ∷ es) =
      let rest = scan_interventions es in
      if not (text_eq e.header.payload_type intervention_payload_type)
      then rest
      else (read_row e.payload >>= λ r. rest >>= λ scan. ok (noted e.header.seq r scan))

-- A record that the constructor would make: its four names are not empty.
unfoldable pub IsNamed : InterventionRecord → Type 0
IsNamed r = (r.intervention_id ≢ []) × (r.system_id ≢ []) × (r.actor_ref ≢ []) × (r.action ≢ [])

require_nonempty-ok : (t : Text) → t ≢ [] → require_nonempty (json_text t) ≡ ok t
unfolding require_nonempty
require_nonempty-ok [] h = absurd (h refl)
require_nonempty-ok (c ∷ s) h = refl

optional_str-ok : (o : Option Text) → optional_str (or_null_text o) ≡ ok o
unfolding optional_str or_null_text
optional_str-ok none = refl
optional_str-ok (some t) = refl

-- A record is read back from the payload that was written for it.
pub from_payload-intervention :
    (r : InterventionRecord) → IsNamed r → from_payload (to_payload r) ≡ ok r
unfolding from_payload to_payload new_intervention get_or_null IsNamed text_eq
from_payload-intervention r (a, b, c, d) =
    rw
      (
        require_nonempty-ok r.intervention_id a,
        require_nonempty-ok r.system_id b,
        require_nonempty-ok r.actor_ref c,
        require_nonempty-ok r.action d,
        optional_str-ok r.decision_ref,
        optional_str-ok r.rationale,
        optional_str-ok r.trace_id,
      )
      refl

module _ (loads : Bytes → Result Json) where
  -- Two scans, of an earlier and a later part of a trail.
  pub both : InterventionScan → InterventionScan → InterventionScan
  both a b = record { records = a.records ++ b.records; unreadable = a.unreadable ++ b.unreadable }

  noted-both :
      (seq : ℤ) (o : Option InterventionRecord) (a b : InterventionScan)
      → noted seq o (both a b) ≡ both (noted seq o a) b
  unfolding noted both
  noted-both seq none a b = refl
  noted-both seq (some r) a b = refl

  -- The scan of a trail is the scans of its parts, one after the other.
  pub scan_interventions-append :
      (es fs : List Entry) {a b : InterventionScan}
      → scan_interventions loads es ≡ ok a
      → scan_interventions loads fs ≡ ok b
      → scan_interventions loads (es ++ fs) ≡ ok (both a b)
  unfolding scan_interventions both
  scan_interventions-append [] fs {a} {b} ha hb =
      hb ∙ ap (λ (s : InterventionScan). ok (both s b)) (ok_inj ha)
  scan_interventions-append (e ∷ es) fs {a} {b} ha hb =
      elim (Bool-cases (text_eq e.header.payload_type intervention_payload_type)) [
        | inr foreign ↦ rw foreign (scan_interventions-append es fs (rw foreign at ha) hb)
        | inl own ↦
            let (o, got, h1) = >>=-eq-ok (read_row loads e.payload) _ (rw own at ha) in
            let (later, scanned, h2) = >>=-eq-ok (scan_interventions loads es) _ h1 in
            rw (own, got, scan_interventions-append es fs scanned hb)
              (ap ok (noted-both e.header.seq o later b)
                ∙ ap (λ (s : InterventionScan). ok (both s b)) (ok_inj h2))
      ]
