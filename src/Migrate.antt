-- ===== src/Migrate.antt =====
-- cmd/migrate/main.go: the command that moves the schema, over the library that applies migrations.
use cbtraining.Base.{
  ℤ, negsuc, String, ◌≡◌, ◌≢◌, ◌⊎◌, ◌↔◌, inl, inr, arith, Bool, Option, none, some, str_eq,
  if◌then◌else◌, Option-cases, Bool-cases, refl, eq_iff, subst, sym,
}
use Prim.Native.String.{◌++◌ as str_append}
use cbtraining.Config.{or_else}

-- The flags that the command line gives.
pub record Flags : Type 0 where
  pub path : Option String
  pub database : Option String
  pub cmd : Option String
  pub version : Option String

-- What a call of the library reports.
pub data Report : Type 0 where
  done no_change failed : Report

-- golang-migrate on a database whose state is an `S`.
pub record Migrator (S : Type 0) : Type 0 where
  pub init : String → String → Bool  -- `New` succeeds, on a source and an URL
  pub up : S → Report × S
  pub steps : ℤ → S → Report × S
  pub force : ℤ → S → Report × S

pub data Exit : Type 0 where
  returned : Exit  -- and the migrator is closed
  fatal : String → Exit  -- `log.Fatal` runs no deferred call

module _ {S : Type 0} (m : Migrator S) (atoi : String → Option ℤ) where
  -- `ErrNoChange` is an error unless it is looked for.
  check_report : String → Report × S → Exit × S
  check_report message (done, s) = (returned, s)
  check_report message (no_change, s) = (fatal message, s)
  check_report message (failed, s) = (fatal message, s)

  unfoldable pub migrate_up : Report × S → Exit × S
  unfolding check_report
  migrate_up (no_change, s) = (returned, s)
  migrate_up r = check_report "migration up failed" r

  unfoldable pub force_version : Option ℤ → S → Exit × S
  unfolding check_report
  force_version none s = (fatal "invalid version", s)
  force_version (some v) s = check_report "force failed" (m.force v s)

  unfoldable pub run_command : String → String → S → Exit × S
  unfolding migrate_up check_report force_version
  run_command command version s =
      if str_eq command "up"
      then migrate_up (m.up s)
      else if str_eq command "down"
      then check_report "migration down failed" (m.steps (negsuc 0) s)
      else if str_eq command "force"
      then (if str_eq version ""
          then (fatal "force requires -version flag", s)
          else force_version (atoi version) s)
      else (fatal "unknown command", s)

  -- The flag, or the variable `DB_URL`.
  unfoldable pub database_url : Flags → Option String → String
  unfolding or_else
  database_url flags env =
      let given = or_else flags.database "" in if str_eq given "" then or_else env "" else given

  unfoldable pub migrate_main : Flags → Option String → S → Exit × S
  unfolding database_url run_command or_else
  migrate_main flags env s =
      let url = database_url flags env in
      if str_eq url ""
      then (fatal "database URL is not set", s)
      else if m.init (str_append "file://" (or_else flags.path "migrations")) url
      then run_command (or_else flags.cmd "up") (or_else flags.version "") s
      else (fatal "failed to init migrate", s)

module _ {S : Type 0} (m : Migrator S) (atoi : String → Option ℤ) where
  -- `r` is what the library's call for a command, and for `force` a version, leaves of `s`.
  abbrev pub IsCall : String → String → S → Report × S → Type 0
  IsCall command version s r =
      ((command ≡ "up") × (r ≡ m.up s))
      ⊎ (((command ≡ "down") × (r ≡ m.steps (negsuc 0) s))
          ⊎ ((command ≡ "force") × ((v : ℤ) × (atoi version ≡ some v) × (r ≡ m.force v s))))

  -- The command has made one call, whose outcome decides how it ends, or it has failed before.
  abbrev pub IsDecided : String → String → S → Exit × S → Type 0
  IsDecided command version s result =
      ((r : Report × S) × IsCall command version s r
        × (result.1 ≡ r.1)
        × ((result.0 ≡ returned) ↔ ((r.0 ≡ done) ⊎ ((command ≡ "up") × (r.0 ≡ no_change)))))
      ⊎ ((result.0 ≢ returned) × (result.1 ≡ s))

  check_report-returned :
      (message : String) (r : Report × S)
      → let result = check_report m atoi message r in
        (result.1 ≡ r.1) × ((result.0 ≡ returned) ↔ (r.0 ≡ done))
  unfolding check_report
  check_report-returned message (done, s) = (refl, (λ e. refl, λ e. refl))
  check_report-returned message (no_change, s) = (refl, (λ e. cc, λ e. cc))
  check_report-returned message (failed, s) = (refl, (λ e. cc, λ e. cc))

  migrate_up-returned :
      (r : Report × S)
      → let result = migrate_up m atoi r in
        (result.1 ≡ r.1) × ((result.0 ≡ returned) ↔ ((r.0 ≡ done) ⊎ (r.0 ≡ no_change)))
  unfolding migrate_up check_report
  migrate_up-returned (done, s) = (refl, (λ e. inl refl, λ e. refl))
  migrate_up-returned (no_change, s) = (refl, (λ e. inr refl, λ e. refl))
  migrate_up-returned (failed, s) = (refl, (λ e. cc, λ e. ground arith))

  IsDecided-called :
      (command version message : String) (s : S) (r : Report × S)
      → IsCall command version s r
      → command ≢ "up"
      → IsDecided command version s (check_report m atoi message r)
  IsDecided-called command version message s r h n =
      let (same, ends) = check_report-returned message r in
      inl (
        r,
        h,
        same,
        (λ e. inl (ends.0 e), λ e. elim e [ inl d ↦ ends.1 d | inr (u, d) ↦ absurd (n u) ]),
      )

  run_command-IsDecided :
      (command version : String) (s : S)
      → IsDecided command version s (run_command m atoi command version s)
  unfolding run_command force_version
  run_command-IsDecided command version s = elim (Bool-cases (str_eq command "up")) [
    | inl e ↦
        let up = (eq_iff command "up").0 e in
        let (same, ends) = migrate_up-returned (m.up s) in
        rw (e, run_command)
          (inl (
            m.up s,
            inl (up, refl),
            same,
            (
              λ x. elim (ends.0 x) [ inl d ↦ inl d | inr d ↦ inr (up, d) ],
              λ x. elim x [ inl d ↦ ends.1 (inl d) | inr (u, d) ↦ ends.1 (inr d) ],
            ),
          ))
    | inr e ↦
        let other : command ≢ "up" = λ u. absurd (ground (arith, eq_iff command "up")) in
        elim (Bool-cases (str_eq command "down")) [
          | inl f ↦
              rw (e, f, run_command)
                (IsDecided-called command version _ s (m.steps (negsuc 0) s)
                  (inr (inl ((eq_iff command "down").0 f, refl))) other)
          | inr f ↦ elim (Bool-cases (str_eq command "force")) [
            | inl g ↦ elim (Bool-cases (str_eq version "")) [
              | inl y ↦ rw (e, f, g, y, run_command) (inr (λ z. cc, refl))
              | inr y ↦ elim (Option-cases (atoi version)) [
                | inl z ↦ rw (e, f, g, y, run_command, z, force_version) (inr (λ w. cc, refl))
                | inr (v, z) ↦
                    let same : run_command m atoi command version s
                        ≡ check_report m atoi "force failed" (m.force v s) =
                      rw (e, f, g, y, run_command, z, force_version) refl in
                    subst (IsDecided command version s) (sym same) (
                      IsDecided-called command version "force failed" s (m.force v s)
                        (inr (inr ((eq_iff command "force").0 g, (v, z, refl)))) other)
              ]
            ]
            | inr g ↦ rw (e, f, g, run_command) (inr (λ z. cc, refl))
          ]
        ]
  ]

  -- Whatever the flags, the command either ends by `log.Fatal` and leaves the database alone, or it
  -- makes exactly the one call of the library that the flag `cmd` names, and leaves what that call
  -- leaves; then it returns exactly if the call is done, or was `up` and found nothing to do.
  pub migrate_main-IsDecided :
      (flags : Flags) (env : Option String) (s : S)
      → IsDecided
          (or_else flags.cmd "up")
          (or_else flags.version "")
          s
          (migrate_main m atoi flags env s)
  unfolding migrate_main
  migrate_main-IsDecided flags env s =
      elim (Bool-cases (str_eq (database_url m atoi flags env) "")) [
        | inl e ↦ rw (e, migrate_main) (inr (λ z. cc, refl))
        | inr e ↦
            elim (Bool-cases (
              m.init (str_append "file://" (or_else flags.path "migrations"))
                (database_url m atoi flags env))) [
                  | inl f ↦
                      rw (e, f, migrate_main)
                        (run_command-IsDecided (or_else flags.cmd "up") (or_else flags.version "")
                          s)
                  | inr f ↦ rw (e, f, migrate_main) (inr (λ z. cc, refl))
                ]
      ]
