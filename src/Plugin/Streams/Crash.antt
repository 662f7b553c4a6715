-- ===== src/Plugin/Streams/Crash.antt =====
-- internal/plugin/runtime.go: what the exit of a plugin does to its open streams (failActiveStreams).
use providerapi.Prelude.{ℕ, ◌≡◌, refl, ap, ◌∙◌, inl, inr, true, [], ◌∷◌, arith, eqb, Bool-cases}
use providerapi.Dict.{Dict}
use providerapi.Protocol.Types.{StreamEvent}
use providerapi.Plugin.Streams.{Channel, update, fail_channel, fail_all}

-- Behind a failure a channel is closed, and stays as it is under every later one.
pub fail_all-closed :
    (ev : StreamEvent) (m : Dict ℕ) (heap : ℕ → Channel) (n : ℕ)
    → (heap n).closed ≡ true
    → fail_all ev m heap n ≡ heap n
unfolding fail_all
fail_all-closed ev [] heap n h = refl
fail_all-closed ev ((id, k) ∷ rest) heap n h = elim (Bool-cases (eqb k n)) [
  | inl e ↦
      let same : update heap k (fail_channel ev (heap k)) n ≡ heap n = ground arith in
      fail_all-closed ev rest (update heap k (fail_channel ev (heap k))) n
        (ap (λ (c : Channel). c.closed) same ∙ h)
      ∙ same
  | inr e ↦
      let same : update heap k (fail_channel ev (heap k)) n ≡ heap n = rw e refl in
      fail_all-closed ev rest (update heap k (fail_channel ev (heap k))) n
        (ap (λ (c : Channel). c.closed) same ∙ h)
      ∙ same
]
