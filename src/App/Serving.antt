-- ===== src/App/Serving.antt =====
-- cmd/shareserver/main.go: what holds when the server listens.
use shareserver.Base.{
  ℕ, Bool, true, ◌&&◌, none, some, List, [], Text, codes, length, all, ◌==◌, ◌≡◌, ◌≢◌, refl, arith,
  ◌⊎◌, inl, inr, Bool-cases, Option-cases,
}
use shareserver.World.{World, Failure, Result, ok, err, fault}
use shareserver.World.Db.{only_admin, update_admin, create_admin, count_admins}
use shareserver.Config.{Config}
use shareserver.Auth.{Crypto, ensure_admin}
use shareserver.Http.Cleanup.{start}
use shareserver.Http.Upkeep.{is_fit, cleanup-IsFit}
use shareserver.App.{
  start_with, Ended, serving, failed, Outside, run, asks, exec_anubis, open_database,
}

Result-cases : (r : Result (Unit {0})) → (r ≡ ok tt) ⊎ ((e : Failure) × (r ≡ err e))
Result-cases (ok tt) = inl refl
Result-cases (err e) = inr (e, refl)

-- The answer of `EnsureAdmin`.
abbrev pub admin_answer : Crypto → Outside → Config → World → Result (Unit {0})
admin_answer c o cfg w =
    (ensure_admin c o.salt cfg.admin_user cfg.admin_password cfg.dev o.created o.admin_id w).0

-- It serves with an administrator set up and every row fit, or ends with the error of the set-up.
abbrev pub IsServing : Outside → Config → Result (Unit {0}) → Ended × World → Type 0
IsServing o cfg answer r =
    (answer ≡ ok tt) × (r.0 ≡ serving cfg.addr) × (all (is_fit o.now) r.1.shares ≡ true)

abbrev pub IsUnready : Result (Unit {0}) → Ended × World → Type 0
IsUnready answer r = (e : Failure) × (answer ≡ err e) × (r.0 ≡ failed e)

-- Nothing was done to the state, and nothing is served.
abbrev pub IsIdle : World → Ended × World → Type 0
IsIdle w r = (r.1 ≡ w) × ((addr : Text) → r.0 ≢ serving addr)

abbrev Opened : Outside → Config → Result (Unit {0}) → World → Ended × World → Type 0
Opened o cfg answer w r =
    IsIdle w r
    ⊎ ((o.open_error ≡ none)
        × (o.migration_error ≡ none)
        × (IsServing o cfg answer r ⊎ IsUnready answer r))

module _ (c : Crypto) where
  ensure_admin-quiet :
      (salt user password : Text) (sync : Bool) (created : Text) (id : ℕ) (w : World)
      → w.faults ≡ []
      → (ensure_admin c salt user password sync created id w).1.faults ≡ []
  unfolding ensure_admin only_admin update_admin create_admin count_admins fault
  ensure_admin-quiet salt user password sync created id w f = ground (arith, f)

  start-cases :
      (cfg : Config) (salt created : Text) (id now : ℕ) (w : World)
      → w.faults ≡ []
      → let answer =
          (ensure_admin c salt cfg.admin_user cfg.admin_password cfg.dev created id w).0 in
        let started = start c cfg salt created id now w in
        ((answer ≡ ok tt) × (started.0 ≡ ok tt) × (all (is_fit now) started.1.shares ≡ true))
        ⊎ ((e : Failure) × (answer ≡ err e) × (started.0 ≡ err e))
  unfolding start
  start-cases cfg salt created id now w f =
      let w1 = (ensure_admin c salt cfg.admin_user cfg.admin_password cfg.dev created id w).1 in
      let quiet =
        ensure_admin-quiet salt cfg.admin_user cfg.admin_password cfg.dev created id w f in
      elim (Result-cases
        (ensure_admin c salt cfg.admin_user cfg.admin_password cfg.dev created id w).0) [
          | inl fine ↦ inl (
            fine,
            rw (fine, start) refl,
            rw (fine, start) (cleanup-IsFit cfg.blob_dir now now w1 quiet).0,
          )
          | inr (e, bad) ↦ inr (e, bad, rw (bad, start) refl)
        ]

  exec_anubis-serving :
      (cfg : Config) (o : Outside) (args : List Text) (addr : Text)
      → exec_anubis c cfg o.environment args o.exec_error ≢ serving addr
  unfolding exec_anubis
  exec_anubis-serving cfg o args addr e = absurd (ground arith)

  Opened-cases :
      (o : Outside) (cfg : Config) (w : World)
      → w.faults ≡ []
      → Opened o cfg
          (admin_answer c o cfg w)
          w
          (start_with c o cfg (open_database o.open_error o.migration_error) w)
  unfolding open_database
  Opened-cases o cfg w f = elim (Option-cases o.open_error) [
    | inr (e, bad) ↦ inl (rw bad refl, λ addr. rw bad (λ q. absurd (ground arith)))
    | inl opens ↦ elim (Option-cases o.migration_error) [
      | inr (e, bad) ↦
          inl (rw (opens, bad) refl, λ addr. rw (opens, bad) (λ q. absurd (ground arith)))
      | inl migrates ↦ inr (
        opens,
        migrates,
        elim (start-cases cfg o.salt o.created o.admin_id o.now w f) [
          | inl (set_up, fine, fit) ↦
              inl (set_up, rw (opens, migrates, fine) refl, rw (opens, migrates) fit)
          | inr (e, fails, bad) ↦ inr (e, fails, rw (opens, migrates, bad) refl)
        ],
      )
    ]
  ]

  with_config :
      (o : Outside) (cfg : Config) (w : World) {r : Ended × World}
      → Opened o cfg (admin_answer c o cfg w) w r
      → IsIdle w r
        ⊎ ((x : Config) × (some cfg ≡ some x)
            × (o.open_error ≡ none)
            × (o.migration_error ≡ none)
            × (IsServing o x (admin_answer c o x w) r ⊎ IsUnready (admin_answer c o x w) r))
  with_config o cfg w (inl idle) = inl idle
  with_config o cfg w (inr (a, b, rest)) = inr (cfg, refl, a, b, rest)

  -- Without faults in the calls to come, `run` either leaves the state as it was and does not serve (a
  -- version, a signing start, no settings, a database that does not open or migrate), or it has settings
  -- and an open database, and then it serves at their address, the administrator set up and every row
  -- encrypted, with a download password and not due, or ends with the error of `EnsureAdmin`.
  pub run-cases :
      (o : Outside) (args : List Text) (w : World)
      → w.faults ≡ []
      → IsIdle w (run c o args w)
        ⊎ ((cfg : Config) × (o.loaded ≡ some cfg)
            × (o.open_error ≡ none)
            × (o.migration_error ≡ none)
            × (IsServing o cfg (admin_answer c o cfg w) (run c o args w)
                ⊎ IsUnready (admin_answer c o cfg w) (run c o args w)))
  unfolding run
  run-cases o args w f = elim (Bool-cases ((length args == 2) && asks (codes "--version") args)) [
    | inl version ↦
        inl (rw (run, version) refl, λ addr. rw (run, version) (λ e. absurd (ground arith)))
    | inr other ↦ elim (Option-cases o.loaded) [
      | inl none_loaded ↦ inl (
        rw (run, other, none_loaded) refl,
        λ addr. rw (run, other, none_loaded) (λ e. absurd (ground arith)),
      )
      | inr (cfg, loaded) ↦ elim (Bool-cases (asks (codes "--anubis") args)) [
        | inl anubis ↦ inl (
          rw (run, other, loaded, anubis) refl,
          λ addr. rw (run, other, loaded, anubis) (exec_anubis-serving cfg o args addr),
        )
        | inr plain ↦ rw (run, other, loaded, plain) (with_config o cfg w (Opened-cases o cfg w f))
      ]
    ]
  ]
