-- ===== src/Trace/Service/Apart.antt =====
-- internal/trace/trace.go: the sessions of a service do not disturb each other.
use mathlib.Core.Path.{subst}
use providerapi.Prelude.{
  ℕ, String, ◌≡◌, refl, sym, ap, ◌∙◌, true, false, some, List, [], ◌∷◌, inl, inr, Bool-cases,
  Option-cases, eq_iff,
}
use providerapi.Json.{Json}
use providerapi.Protocol.Types.{CompletionRequest}
use providerapi.Trace.Payload.{Files}
use providerapi.Trace.Store.{Store}
use providerapi.Trace.Store.Rows.{IsKeyed}
use providerapi.Prelude.Int.{ℤ}
use providerapi.Trace.Retention.{Retention}
use providerapi.Trace.Session.{Session, start}
use providerapi.Trace.Session.Use.{Use, use_}
use providerapi.Trace.Service.{
  Service, beside, own, new_service, Turn, starts, uses, sweeps, is_for, turn, run_turns, turns_of,
  Seen, seen,
}
use providerapi.Trace.Service.Writes.{Writes}
use providerapi.Trace.Service.Methods.{start-Writes, use-Writes}
use providerapi.Trace.Service.Agree.{
  IsSound, Agree, behind, behind-other, behind-Agree, sweep-Agree,
}

module _ (size : Json → String) (encode : CompletionRequest → Json) (decimal : ℕ → String)
    (strip_query : String → String) where
  abbrev used : Use → Session → Store → Files → Session
  used u s st files = use_ size encode decimal strip_query u (beside st files s)

  used-Writes :
      (j : String) (u : Use) (s : Session) (v : Service)
      → IsSound v
      → v.sessions j ≡ some s
      → Writes j (used u s)
  used-Writes j u s v h e =
      subst (λ j. Writes j (used u s)) (h.1 j s e) (use-Writes size encode decimal strip_query u s)

  -- A turn of another request.
  turn-other :
      (id : String) (t : Turn) (v v' : Service)
      → is_for id t ≡ false
      → Agree id v v'
      → Agree id (turn size encode decimal strip_query t v) v'
  unfolding turn
  turn-other id (starts j client now) v v' other h =
      behind-other id j _ v v' other (start-Writes v.level j client now) h
  turn-other id (uses j u) v v' other h = elim (Option-cases (v.sessions j)) [
    | inl e ↦ rw (e, turn) h
    | inr (s, e) ↦
        rw (e, turn)
          (behind-other id j (used u s) v v' other (used-Writes j u s v h.left_IsSound e) h)
  ]
  turn-other id (sweeps changed now) v v' other h = cc

  start-Agree :
      (id client : String) (now : ℤ) (v v' : Service)
      → Agree id v v'
      → Agree id
          (behind id (start v.level id client now) v)
          (behind id (start v'.level id client now) v')
  start-Agree id client now v v' h =
      subst
        (λ level.
          Agree id (behind id (start v.level id client now) v)
            (behind id (start level id client now) v'))
        h.level (behind-Agree id _ v v' (start-Writes v.level id client now) h)

  use-Agree :
      (id : String) (u : Use) (v v' : Service)
      → Agree id v v'
      → Agree id
          (turn size encode decimal strip_query (uses id u) v)
          (turn size encode decimal strip_query (uses id u) v')
  unfolding turn
  use-Agree id u v v' h =
      let same = sym (ap (λ (x : Seen). x.session) h.same) in
      elim (Option-cases (v.sessions id)) [
        | inl e ↦ rw (e, same ∙ e, turn) h
        | inr (s, e) ↦
            rw (e, same ∙ e, turn)
              (behind-Agree id (used u s) v v' (used-Writes id u s v h.left_IsSound e) h)
      ]

  -- A turn for the request itself.
  turn-Agree :
      (id : String) (t : Turn) (v v' : Service)
      → is_for id t ≡ true
      → Agree id v v'
      → Agree id
          (turn size encode decimal strip_query t v)
          (turn size encode decimal strip_query t v')
  unfolding turn
  turn-Agree id (starts j client now) v v' own h =
      rw ((eq_iff j id).0 own) (start-Agree id client now v v' h)
  turn-Agree id (uses j u) v v' own h =
      subst
        (λ j.
          Agree id (turn size encode decimal strip_query (uses j u) v)
            (turn size encode decimal strip_query (uses j u) v'))
        (sym ((eq_iff j id).0 own)) (use-Agree id u v v' h)
  turn-Agree id (sweeps changed now) v v' own h = sweep-Agree id changed now v v' h

  run_turns-Agree :
      (id : String) (ts : List Turn) (v v' : Service)
      → Agree id v v'
      → seen id (run_turns size encode decimal strip_query ts v)
        ≡ seen id (run_turns size encode decimal strip_query (turns_of id ts) v')
  run_turns-Agree id [] v v' h = h.same
  run_turns-Agree id (t ∷ ts) v v' h = elim (Bool-cases (is_for id t)) [
    | inl mine ↦ rw mine (run_turns-Agree id ts _ _ (turn-Agree id t v v' mine h))
    | inr other ↦ rw other (run_turns-Agree id ts _ v' (turn-other id t v v' other h))
  ]

  -- In a service that starts on a store with at most one row for an id, whatever the sessions of its requests
  -- do and whenever sweep runs, in whatever order and at whatever level: what is seen of a request at the end
  -- (its row, its events, its file and its session) is what the turns of that request and the sweeps leave
  -- without those of the other requests.
  pub run_turns-Apart :
      (id level : String) (keep : Retention) (st : Store) (files : Files) (ts : List Turn)
      → IsKeyed st.requests
      → seen id (run_turns size encode decimal strip_query ts (new_service level keep st files))
        ≡ seen id (
            run_turns size encode decimal strip_query
              (turns_of id ts)
              (new_service level keep st files))
  run_turns-Apart id level keep st files ts keyed = run_turns-Agree id ts _ _ (record {
    left_IsSound = (keyed, λ j s e. cc);
    right_IsSound = (keyed, λ j s e. cc);
    level = refl;
    keep = refl;
    same = refl;
  })
