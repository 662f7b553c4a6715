-- ===== src/Plugin/Manager/Running.antt =====
-- internal/plugin/runtime.go: what StartAll leaves when it returns no error.
use providerapi.Prelude.{
  String, ◌≡◌, refl, sym, ap, ◌∙◌, inl, inr, true, ◌||◌, none, some, [], ◌∷◌, arith, ◌==◌, eq_iff,
  Bool-cases, Option-cases,
}
use providerapi.Dict.{Dict, get, put, get-put, has}
use providerapi.Config.{Config, PluginBinary, ProviderInstance, Credential}
use providerapi.Config.Consistency.{is_some-get}
use providerapi.Plugin.Instance.{
  Instance, Launch, no_process, no_socket, no_connection, no_handshake, handshake, start,
}
use providerapi.Plugin.Manager.{new_instance, launch_of, start_each, start_all}

-- An instance under its id, running and healthy.
pub record IsRunning (id : String) (i : Instance) : Type 0 where
  pub named : i.id ≡ id
  pub running : i.running ≡ true
  pub healthy : i.healthy ≡ true

start-IsRunning : (l : Launch) (i : Instance) → (start l i).1 ≡ none → IsRunning i.id (start l i).0
unfolding start
start-IsRunning (no_process e) i h = ground arith
start-IsRunning (no_socket e) i h = ground arith
start-IsRunning (no_connection e) i h = ground arith
start-IsRunning (no_handshake e) i h = ground arith
start-IsRunning (handshake m) i h = record {
  named = ground arith;
  running = ground arith;
  healthy = ground arith;
}

has-cons :
    {V : Type 0} (id j : String) (v : V) (rest : Dict V)
    → has j ((id, v) ∷ rest) ≡ ((id == j) || has j rest)
unfolding get
has-cons id j v rest = elim (Bool-cases (id == j)) [ inl e ↦ rw e refl | inr e ↦ rw e refl ]

no_entry : (id : String) (i : Instance) → get id [] ≡ some i → IsRunning id i
unfolding get
no_entry id i e = cc

abbrev AllRun : Dict Instance → Type 0
AllRun m = (id : String) (i : Instance) → get id m ≡ some i → IsRunning id i

put-AllRun :
    (id : String) (m : Dict Instance) (i : Instance)
    → IsRunning id i
    → AllRun m
    → AllRun (put id i m)
put-AllRun id m i run all_ k j e = elim (Bool-cases (id == k)) [
  | inl same ↦
      let known : some i ≡ some j = sym (get-put id k i m ∙ rw same refl) ∙ e in
      let equal : i ≡ j = ground arith in rw (← (eq_iff id k).0 same, ← equal) run
  | inr other ↦ all_ k j (sym (get-put id k i m ∙ rw other refl) ∙ e)
]

module _ (cfg : Config) (launch : String → PluginBinary → Credential → Launch) where
  record Outcome (provs : Dict ProviderInstance) (m m' : Dict Instance) : Type 0 where
    run : AllRun m → AllRun m'
    kept : (id : String) → has id m ≡ true → has id m' ≡ true
    added : (id : String) → has id provs ≡ true → has id m' ≡ true

  start_each-good :
      (id : String) (inst : ProviderInstance) (rest : Dict ProviderInstance) (m : Dict Instance)
      → (start (launch_of cfg launch id inst) (new_instance id inst)).1 ≡ none
      → start_each cfg launch ((id, inst) ∷ rest) m
        ≡ start_each cfg launch rest
            (put id (start (launch_of cfg launch id inst) (new_instance id inst)).0 m)
  unfolding start_each
  start_each-good id inst rest m good = rw (good, start_each) refl

  start_each-bad :
      (id : String) (inst : ProviderInstance) (rest : Dict ProviderInstance) (m : Dict Instance)
      (text : String)
      → (start (launch_of cfg launch id inst) (new_instance id inst)).1 ≡ some text
      → (start_each cfg launch ((id, inst) ∷ rest) m).1 ≡ some text
  unfolding start_each
  start_each-bad id inst rest m text bad = rw (bad, start_each) refl

  start_each-Outcome :
      (provs : Dict ProviderInstance) (m : Dict Instance)
      → (start_each cfg launch provs m).1 ≡ none
      → Outcome provs m (start_each cfg launch provs m).0
  unfolding start_each
  start_each-Outcome [] m h = record {
    run = λ a. a;
    kept = λ id k. k;
    added = λ id k. ground arith;
  }
  start_each-Outcome ((id, inst) ∷ rest) m h =
      let began = start (launch_of cfg launch id inst) (new_instance id inst) in
      elim (Option-cases began.1) [
        | inl good ↦
            let same = start_each-good id inst rest m good in
            let r = start_each-Outcome rest (put id began.0 m) (sym (ap (λ x. x.1) same) ∙ h) in
            rw same (record {
              run = λ all_ j i e.
                  r.run
                    (λ k i' e'.
                      put-AllRun id m began.0
                        (start-IsRunning (launch_of cfg launch id inst) (new_instance id inst) good)
                        all_ k i' e')
                    j i e;
              kept = λ j k. r.kept j (ground (arith, get-put id j began.0 m, k));
              added = λ j k. ground (
                arith,
                eq_iff id j,
                r.kept j,
                r.added j,
                get-put id j began.0 m,
                has-cons id j inst rest,
              );
            })
        | inr (text, bad) ↦
            let e : none ≡ some text = sym h ∙ start_each-bad id inst rest m text bad in cc
      ]

  -- When StartAll returns no error, Get finds a running and healthy instance for every configured provider.
  pub start_all-IsRunning :
      (id : String)
      → (start_all cfg launch).1 ≡ none
      → has id cfg.providers ≡ true
      → (i : Instance) × (get id (start_all cfg launch).0 ≡ some i) × IsRunning id i
  unfolding start_all
  start_all-IsRunning id h listed =
      let r = start_each-Outcome cfg.providers [] h in
      let (i, found) =
        is_some-get id (start_each cfg launch cfg.providers []).0 (r.added id listed) in
      (i, found, r.run (λ j k e. no_entry j k e) id i found)
