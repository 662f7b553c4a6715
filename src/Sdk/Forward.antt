-- ===== src/Sdk/Forward.antt =====
-- sdk/plugin/server.go: what forwardStream sends for the events of a handler's stream.
use providerapi.Prelude.{
  ℕ, suc, ◌≡◌, refl, ap, ◌∙◌, map, Bool, true, false, ◌||◌, List, [], ◌∷◌, ◌++◌, arith,
  if◌then◌else◌,
}
use providerapi.Protocol.Types.{StreamEvent}
use providerapi.Plugin.Streams.{is_end, any_end}
use providerapi.Sdk.{stop_event, forward_from, forward_stream}

-- The events with consecutive numbers, from `n` on.
abbrev pub numbered : ℕ → List StreamEvent → List (ℕ × StreamEvent)
numbered n [] = []
numbered n (ev ∷ evs) = (n, ev) ∷ numbered (suc n) evs

-- The events, with an end behind them if none of them is one.
abbrev pub ended : List StreamEvent → List StreamEvent
ended evs = if any_end evs then evs else evs ++ stop_event ∷ []

abbrev ended_if : Bool → List StreamEvent → List StreamEvent
ended_if done evs = if done || any_end evs then evs else evs ++ stop_event ∷ []

forward_from-numbered :
    (n : ℕ) (done : Bool) (evs : List StreamEvent)
    → forward_from n done evs ≡ numbered (suc n) (ended_if done evs)
unfolding forward_from
forward_from-numbered n true [] = refl
forward_from-numbered n false [] = refl
forward_from-numbered n true (ev ∷ evs) =
    ap (λ l. (suc n, ev) ∷ l) (forward_from-numbered (suc n) true evs)
forward_from-numbered n false (ev ∷ evs) =
    ground (arith, forward_from-numbered (suc n) (is_end ev.typ) evs)

-- forwardStream sends each event of the handler in order, numbered from 1 without a gap, and behind
-- them a stream_end exactly when no event was an end.
pub forward_stream-numbered : (evs : List StreamEvent) → forward_stream evs ≡ numbered 1 (ended evs)
unfolding forward_stream
forward_stream-numbered evs = forward_from-numbered 0 false evs

-- What the host is sent of a stream, without the numbers.
abbrev pub forwarded : List StreamEvent → List StreamEvent
forwarded evs = map (λ p. p.1) (forward_stream evs)

numbered-forwarded : (n : ℕ) (evs : List StreamEvent) → map (λ p. p.1) (numbered n evs) ≡ evs
numbered-forwarded n [] = refl
numbered-forwarded n (ev ∷ evs) = ap (λ l. ev ∷ l) (numbered-forwarded (suc n) evs)

pub forwarded-ended : (evs : List StreamEvent) → forwarded evs ≡ ended evs
forwarded-ended evs =
    ap (map (λ p. p.1)) (forward_stream-numbered evs) ∙ numbered-forwarded 1 (ended evs)
