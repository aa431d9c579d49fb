-- ===== src/Pipeline/Manager/Updating.antt =====
-- The update that ends `Start`: the run is set to running.
use brazier.Base.{suc, Text, ◌≡◌, refl, Bool, true, false, Bool-cases, inl, inr, ◌⊎◌}
use brazier.Db
use brazier.Db.{RunState}
use brazier.Db.Store
use brazier.Db.Store.{Env}
use brazier.Pipeline.Scheduler.{World}
use brazier.Pipeline.Manager.{set_running}

module _ {S : Type 0} (env : Env) (run_id : Text) where
  set_running-cases :
      (w : World S)
      → (((set_running env run_id w).0 ≡ false)
          × ((set_running env run_id w).1.store.tables ≡ w.store.tables))
        ⊎ (((set_running env run_id w).0 ≡ true)
            × ((set_running env run_id w).1.store.tables
                ≡ Db.update_run_state
                    (env.now w.store.calls)
                    run_id
                    RunState.running
                    w.store.tables))
  unfolding set_running Store.update_run_state Store.execute
  set_running-cases w = elim (Bool-cases (env.fails w.store.calls)) [
    | inl failed ↦ rw failed (inl (refl, refl))
    | inr fine ↦ rw fine (inr (refl, refl))
  ]

  set_running-calls : (w : World S) → (set_running env run_id w).1.store.calls ≡ suc w.store.calls
  unfolding set_running Store.update_run_state Store.execute
  set_running-calls w = elim (Bool-cases (env.fails w.store.calls)) [
    | inl failed ↦ rw failed refl
    | inr fine ↦ rw fine refl
  ]

  set_running-dispatcher : (w : World S) → (set_running env run_id w).1.dispatcher ≡ w.dispatcher
  unfolding set_running
  set_running-dispatcher w = refl

  set_running-published : (w : World S) → (set_running env run_id w).1.published ≡ w.published
  unfolding set_running
  set_running-published w = refl

  -- What the update returns, behind the world `v`.
  pub record IsUpdate (v : World S) (u : Bool × World S) : Type 0 where
    pub published : u.1.published ≡ v.published
    pub done :
        u.0 ≡ true
        → u.1.store.tables
          ≡ Db.update_run_state (env.now v.store.calls) run_id RunState.running v.store.tables
    pub failed : u.0 ≡ false → u.1.store.tables ≡ v.store.tables
    pub calls : u.1.store.calls ≡ suc v.store.calls
    pub dispatcher : u.1.dispatcher ≡ v.dispatcher

  pub set_running-IsUpdate : (v : World S) → IsUpdate v (set_running env run_id v)
  set_running-IsUpdate v = elim (set_running-cases v) [
    | inl (refused, same) ↦ record {
      published = set_running-published v;
      done = λ h. cc;
      failed = λ _. same;
      calls = set_running-calls v;
      dispatcher = set_running-dispatcher v;
    }
    | inr (done, e) ↦ record {
      published = set_running-published v;
      done = λ _. e;
      failed = λ h. cc;
      calls = set_running-calls v;
      dispatcher = set_running-dispatcher v;
    }
  ]
