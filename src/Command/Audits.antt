-- ===== src/Command/Audits.antt =====
-- cmd/providerapi/main.go and internal/api/admin.go: which audits `trace` finds in the detail of a request.
use providerapi.Prelude.{
  ℕ, String, ◌≡◌, refl, ap, ◌∙◌, Bool, true, false, Option, none, some, List, [], ◌∷◌, map, All,
  arith, ◌==◌, eq_iff, inl, inr, Bool-cases, if◌then◌else◌,
}
use providerapi.Prelude.Int.{ℤ}
use providerapi.Text.{is_empty}
use providerapi.Json.{Json, str, obj, Fields, end, get_field, items_of}
use providerapi.Plugin.Instance.{Instance}
use providerapi.Trace.Store.{EventRow, RequestRow}
use providerapi.Api.Admin.{detail, event_json}
use providerapi.Command.{
  Audits, take_audit, or_empty, map_of, event_type, scan_audits, provider_audit_events,
}

-- The last event of a type.
abbrev pub last_event : String → List EventRow → Option EventRow
last_event typ [] = none
last_event typ (e ∷ es) = elim (last_event typ es) [
  | some later ↦ some later
  | none ↦ if e.typ == typ then some e else none
]

pair_eq : {a b c d : Option Fields} → a ≡ b → c ≡ d → ◌≡◌ {A = Audits} (a, c) (b, d)
pair_eq e f = λ i. (e i, f i)

not_response : (t : String) → (t == "provider_request") ≡ true → (t == "provider_response") ≡ false
not_response t h =
    let same : t ≡ "provider_request" = (eq_iff t "provider_request").0 h in rw same refl

take_audit-eq :
    (t : String) (p q r : Option Fields)
    → take_audit t p (q, r)
      ≡ (if t == "provider_request" then p else q, if t == "provider_response" then p else r)
take_audit-eq t p q r = elim (Bool-cases (t == "provider_request")) [
  | inl first ↦ rw (first, not_response t first) refl
  | inr later ↦ elim (Bool-cases (t == "provider_response")) [
    | inl second ↦ rw (later, second) refl
    | inr neither ↦ rw (later, neither) refl
  ]
]

module _ (parse : String → Option Json) where
  abbrev payload_of : Json → Option Fields
  payload_of (obj m) = some m
  payload_of (str s) = or_empty (map_of (parse s))
  payload_of _ = some end

  -- An event's payload as `trace` reads it, or `old` where there is no event.
  abbrev pub shown : Option Fields → Option EventRow → Option Fields
  shown old none = old
  shown old (some e) = payload_of e.payload

  take-shown :
      (old : Option Fields) (b : Bool) (later : Option EventRow) (e : EventRow)
      → shown (if b then payload_of e.payload else old) later
        ≡ shown old (elim later [ some x ↦ some x | none ↦ if b then some e else none ])
  take-shown old b (some x) e = refl
  take-shown old true none e = refl
  take-shown old false none e = refl

  module _ (decimal : ℤ → String) (digits : ℕ → String) (pid : Instance → ℤ)
      (stamp : EventRow → ℤ) where
    abbrev typed : EventRow → String
    typed e = elim (event_json decimal digits pid stamp e) [ obj m ↦ event_type parse m | _ ↦ "" ]

    event_type-typed : (e : EventRow) → is_empty e.typ ≡ false → typed e ≡ e.typ
    unfolding get_field
    event_type-typed e named = ground (arith, named)

    scan_audits-events :
        (es : List EventRow) (req resp : Option Fields)
        → All (λ e. is_empty e.typ ≡ false) es
        → scan_audits parse (items_of (map (event_json decimal digits pid stamp) es)) (req, resp)
          ≡ (
            shown req (last_event "provider_request" es),
            shown resp (last_event "provider_response" es),
          )
    unfolding scan_audits
    scan_audits-events [] req resp h = refl
    scan_audits-events (e ∷ es) req resp (named, h) =
        let p = payload_of e.payload in
        let next : take_audit (typed e) p (req, resp) ≡ (
          if e.typ == "provider_request" then p else req,
          if e.typ == "provider_response" then p else resp,
        ) =
          ap (λ t. take_audit t p (req, resp)) (event_type-typed e named)
          ∙ take_audit-eq e.typ p req resp in
        ap (scan_audits parse (items_of (map (event_json decimal digits pid stamp) es))) next
        ∙ scan_audits-events es _ _ h
        ∙ pair_eq
            (take-shown req (e.typ == "provider_request") (last_event "provider_request" es) e)
            (take-shown resp (e.typ == "provider_response") (last_event "provider_response" es) e)

    -- What `trace` finds in the detail that the administrator's interface gives of a request are the payloads
    -- of the request's last event of type provider_request and of its last of type provider_response,
    -- where every event has a type.
    pub provider_audit_events-detail :
        (row : RequestRow) (events : List EventRow) (full : Option Json)
        → All (λ e. is_empty e.typ ≡ false) events
        → provider_audit_events parse (detail decimal digits pid stamp row events full) ≡ (
          shown none (last_event "provider_request" events),
          shown none (last_event "provider_response" events),
        )
    unfolding provider_audit_events get_field
    provider_audit_events-detail row events full named = scan_audits-events events none none named
