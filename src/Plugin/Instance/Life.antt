-- ===== src/Plugin/Instance/Life.antt =====
-- internal/plugin/runtime.go: the life of an instance, through crashes, restarts, ticks and Stop. A watcher looks
-- at `stopped` under the lock and starts the process behind it, so that Stop may come between the two.
use mathlib.Core.Path.{subst}
use providerapi.Prelude.{
  sym, ap, ◌∙◌, ℕ, zero, suc, String, ◌≡◌, refl, Bool, true, false, Option, List, [], ◌∷◌,
  if◌then◌else◌,
}
use providerapi.Protocol.Types.{Manifest}
use providerapi.Plugin.Instance.{
  Instance, Launch, handshake, protocol_version, start, process_exited, health_tick, stop,
}

-- An instance, with the number of its watchers that sleep before a restart, and of those that have seen that
-- it is not stopped and are about to call Start.
pub record Watched : Type 0 where
  pub inst : Instance
  pub sleeping : ℕ
  pub starting : ℕ

-- What happens to an instance: its process exits, a watcher wakes and looks whether it is stopped, a watcher
-- calls Start, the health loop has a tick with the plugin's answer, Stop is called. A Stop that comes while Start
-- waits for the plugin kills its process, and is the Stop behind a Start that fails.
pub data Life : Type 0 where
  exits : Option String → Life
  wakes : Life
  starts : Launch → Life
  ticks : Bool → Life
  stops : Life

-- watch, up to its sleep
abbrev pub exit_seen : Option String → Watched → Watched
exit_seen e w =
    let (i, again) = process_exited e w.inst in
    record w { inst = i; sleeping = if again then suc w.sleeping else w.sleeping }

-- watch, behind its sleep: the look at `stopped`
abbrev pub wake : ℕ → Watched → Watched
wake zero w = w
wake (suc n) w = record w {
  sleeping = n;
  starting = if w.inst.stopped then w.starting else suc w.starting;
}

-- the Start of a watcher, which does not look again
abbrev pub restart : ℕ → Launch → Watched → Watched
restart zero l w = w
restart (suc n) l w = record w { inst = (start l w.inst).0; starting = n }

abbrev pub live : Life → Watched → Watched
live (exits e) w = exit_seen e w
live wakes w = wake w.sleeping w
live (starts l) w = restart w.starting l w
live (ticks answered) w = record w { inst = health_tick answered w.inst }
live stops w = record w { inst = stop w.inst }

abbrev pub live_all : List Life → Watched → Watched
live_all [] w = w
live_all (a ∷ as_) w = live_all as_ (live a w)

-- Stopped for good: no process runs, and no watcher is about to start one.
pub record IsOver (w : Watched) : Type 0 where
  pub stopped : w.inst.stopped ≡ true
  pub running : w.inst.running ≡ false
  pub quiet : w.starting ≡ 0

wake-IsOver : (n : ℕ) (w : Watched) → IsOver w → IsOver (wake n w)
wake-IsOver zero w h = h
wake-IsOver (suc n) w h = record {
  stopped = h.stopped;
  running = h.running;
  quiet = rw (h.stopped) h.quiet;
}

stop-twice : (i : Instance) → i.stopped ≡ true → stop i ≡ i
unfolding stop
stop-twice i h = rw h refl

tick-stopped : (answered : Bool) (i : Instance) → i.stopped ≡ true → health_tick answered i ≡ i
unfolding health_tick
tick-stopped answered i h = rw h refl

live-IsOver : (a : Life) (w : Watched) → IsOver w → IsOver (live a w)
unfolding process_exited
live-IsOver (exits e) w h =
    rw (h.stopped) (record { stopped = refl; running = refl; quiet = h.quiet })
live-IsOver wakes w h = wake-IsOver w.sleeping w h
live-IsOver (starts l) w h = subst (λ n. IsOver (restart n l w)) (sym h.quiet) h
live-IsOver (ticks b) w h =
    subst (λ i. IsOver (record w { inst = i })) (sym (tick-stopped b w.inst h.stopped)) h
live-IsOver stops w h =
    subst (λ i. IsOver (record w { inst = i })) (sym (stop-twice w.inst h.stopped)) h

live_all-IsOver : (as_ : List Life) (w : Watched) → IsOver w → IsOver (live_all as_ w)
live_all-IsOver [] w h = h
live_all-IsOver (a ∷ as_) w h = live_all-IsOver as_ (live a w) (live-IsOver a w h)

-- Once Stop was called on an instance that was not stopped, while no watcher stood between its look at `stopped`
-- and its Start, the instance stays stopped and its process is never started again, whatever exits, wakings and
-- starts of watchers, ticks and calls of Stop follow in whatever order.
pub live_all-stop :
    (as_ : List Life) (w : Watched)
    → w.inst.stopped ≡ false
    → w.starting ≡ 0
    → IsOver (live_all as_ (live stops w))
unfolding stop
live_all-stop as_ w h quiet =
    live_all-IsOver as_ (live stops w)
      (rw h (record { stopped = refl; running = refl; quiet = quiet }))

start-runs :
    (m : Manifest) (i : Instance)
    → m.protocol_version ≡ protocol_version
    → ((start (handshake m) i).0.stopped ≡ i.stopped) × ((start (handshake m) i).0.running ≡ true)
unfolding start
start-runs m i same = rw same (refl, refl)

-- But a watcher that stood there starts the process of an instance that is stopped, and a further Stop leaves
-- that process alone.
starts-behind-stops :
    (m : Manifest) (n : ℕ) (w : Watched)
    → w.inst.stopped ≡ false
    → w.starting ≡ suc n
    → m.protocol_version ≡ protocol_version
    → ((live_all (stops ∷ starts (handshake m) ∷ stops ∷ []) w).inst.stopped ≡ true)
      × ((live_all (stops ∷ starts (handshake m) ∷ stops ∷ []) w).inst.running ≡ true)
unfolding stop start
starts-behind-stops m n w h one same =
    let began = stop w.inst in
    let stopped : began.stopped ≡ true = rw h refl in
    let (s, r) = start-runs m began same in
    let again = stop-twice (start (handshake m) began).0 (s ∙ stopped) in
    let family : ℕ → Instance =
      λ k. stop (restart k (handshake m) (record w { inst = began })).inst in
    (
      ap (λ k. (family k).stopped) one ∙ ap (λ (i : Instance). i.stopped) again ∙ s ∙ stopped,
      ap (λ k. (family k).running) one ∙ ap (λ (i : Instance). i.running) again ∙ r,
    )
