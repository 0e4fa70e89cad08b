-- ===== src/Migrations/Run/History.antt =====
-- What a run of the migrations leaves in the history, and what the next run does.
use mathlib.Core.Path.{subst, sym, ap}
use url_shortner.Prelude.{
  ℕ, ◌≡◌, ◌∙◌, refl, Bool, true, false, Option, none, some, List, [], ◌∷◌, ◌++◌, ◌==◌, ==_iff,
  arith, All, Bool-cases, inl, inr, if◌then◌else◌,
}
use url_shortner.Text.{Text, text_eq_iff}
use url_shortner.Io.{deferring, wrapping, Io, lift, ◌>>◌}
use url_shortner.Io.Inversion.{wrap-ok, bind-ok}
use url_shortner.Ports.{Context}
use url_shortner.Postgres.{no_rows, server, other, Answer, refused, done}
use url_shortner.Errors.{ok, wrap}
use url_shortner.Migrations.{Entry, Migration, discover_migrations}
use url_shortner.Migrations.Run.{
  Connection, history_says, migration_was_applied, in_transaction, apply_migration, apply_each,
  run_locked, run_connected, run_migrations,
}

-- What the program relies on in the database: the history that is committed, and the one that the
-- open transaction sees. A script leaves the history alone if it is harmless.
pub record ConnectionLaws {S : Type 0} (connection : Connection S) : Type 1 where
  pub history : S → ℕ → Option Text
  pub pending : S → ℕ → Option Text
  pub Harmless : Text → Type 0
  pub connect_keeps :
      (ctx : Context) (url : Text) (s : S) (v : ℕ)
      → history (connection.connect ctx url s).1 v ≡ history s v
  pub lock_keeps :
      (ctx : Context) (s : S) (v : ℕ) → history (connection.lock ctx s).1 v ≡ history s v
  pub create_keeps :
      (ctx : Context) (s : S) (v : ℕ) → history (connection.create_history ctx s).1 v ≡ history s v
  pub select_keeps :
      (ctx : Context) (w : ℕ) (s : S) (v : ℕ)
      → history (connection.select_checksum ctx w s).1 v ≡ history s v
  pub select_done :
      (ctx : Context) (v : ℕ) (s : S) (c : Text)
      → (connection.select_checksum ctx v s).0 ≡ done c
      → history s v ≡ some c
  pub select_no_rows :
      (ctx : Context) (v : ℕ) (s : S)
      → (connection.select_checksum ctx v s).0 ≡ refused no_rows
      → history s v ≡ none
  pub begin_ok :
      (ctx : Context) (s : S) (v : ℕ)
      → (connection.begin_transaction ctx s).0 ≡ ok tt
      → pending (connection.begin_transaction ctx s).1 v ≡ history s v
  pub execute_ok :
      (ctx : Context) (sql : Text) (s : S) (v : ℕ)
      → Harmless sql
      → (connection.execute ctx sql s).0 ≡ ok tt
      → pending (connection.execute ctx sql s).1 v ≡ pending s v
  pub insert_ok :
      (ctx : Context) (w : ℕ) (name checksum : Text) (s : S) (v : ℕ)
      → (connection.insert_history ctx w name checksum s).0 ≡ ok tt
      → pending (connection.insert_history ctx w name checksum s).1 v
        ≡ (if w == v then some checksum else pending s v)
  pub commit_ok :
      (ctx : Context) (s : S) (v : ℕ)
      → (connection.commit ctx s).0 ≡ ok tt
      → history (connection.commit ctx s).1 v ≡ pending s v
  pub rollback_keeps : (s : S) (v : ℕ) → history (connection.rollback s) v ≡ history s v
  pub unlock_keeps : (s : S) (v : ℕ) → history (connection.unlock s) v ≡ history s v
  pub close_keeps : (s : S) (v : ℕ) → history (connection.close s) v ≡ history s v

wrapping-ok : {S A : Type 0} (m : Io S A) (s : S) {a : A} → (wrapping m s).0 ≡ ok a → (m s).0 ≡ ok a
wrapping-ok m s h = wrap-ok (m s).0 h

module _ {S : Type 0} (connection : Connection S) (laws : ConnectionLaws connection)
    (ctx : Context) where
  -- The transaction of a migration writes its checksum under its version.
  apply_migration-history :
      (m : Migration) (s : S) (v : ℕ)
      → laws.Harmless m.sql
      → (apply_migration connection ctx m s).0 ≡ ok tt
      → laws.history (apply_migration connection ctx m s).1 v
        ≡ (if m.version == v then some m.checksum else laws.history s v)
  unfolding apply_migration in_transaction
  apply_migration-history m s v harmless h =
      let (u1, began, rest1, to1) =
        bind-ok (wrapping (connection.begin_transaction ctx))
          (λ _. deferring connection.rollback (in_transaction connection ctx m)) s h in
      let s1 = (connection.begin_transaction ctx s).1 in
      let (u2, ran, rest2, to2) =
        bind-ok (wrapping (connection.execute ctx m.sql))
          (λ _.
            wrapping (connection.insert_history ctx m.version m.name m.checksum)
            >> wrapping (connection.commit ctx))
          s1 rest1 in
      let s2 = (connection.execute ctx m.sql s1).1 in
      let (u3, wrote, rest3, to3) =
        bind-ok (wrapping (connection.insert_history ctx m.version m.name m.checksum))
          (λ _. wrapping (connection.commit ctx)) s2 rest2 in
      let s3 = (connection.insert_history ctx m.version m.name m.checksum s2).1 in
      ap (λ (t : S). laws.history t v) to1
      ∙ laws.rollback_keeps (in_transaction connection ctx m s1).1 v
      ∙ ap (λ (t : S). laws.history t v) (to2 ∙ to3)
      ∙ laws.commit_ok ctx s3 v (wrapping-ok (connection.commit ctx) s3 rest3)
      ∙ laws.insert_ok ctx m.version m.name m.checksum s2 v
          (wrapping-ok (connection.insert_history ctx m.version m.name m.checksum) s2 wrote)
      ∙ ap (λ (p : Option Text). if m.version == v then some m.checksum else p)
          (laws.execute_ok ctx m.sql s1 v harmless
              (wrapping-ok (connection.execute ctx m.sql) s1 ran)
            ∙ laws.begin_ok ctx s v (wrapping-ok (connection.begin_transaction ctx) s began))

  -- The history holds the checksum of the migration.
  abbrev pub Recorded : S → Migration → Type 0
  Recorded s m = laws.history s m.version ≡ some m.checksum

  -- No entry of the history is lost or changed.
  abbrev pub Grows : S → S → Type 0
  Grows s t = (v : ℕ) (c : Text) → laws.history s v ≡ some c → laws.history t v ≡ some c

  says-true : (m : Migration) (a : Answer Text) → history_says m a ≡ ok true → a ≡ done m.checksum
  unfolding history_says
  says-true m (done c) h = ap done ((text_eq_iff c m.checksum).0 (ground arith))
  says-true m (refused no_rows) h = absurd (ground arith)
  says-true m (refused (server code)) h = absurd (ground arith)
  says-true m (refused (other n)) h = absurd (ground arith)

  says-false : (m : Migration) (a : Answer Text) → history_says m a ≡ ok false → a ≡ refused no_rows
  unfolding history_says
  says-false m (done c) h = absurd (ground arith)
  says-false m (refused no_rows) h = refl
  says-false m (refused (server code)) h = absurd (ground arith)
  says-false m (refused (other n)) h = absurd (ground arith)

  -- Applying a migration that the history does not know loses nothing and records it.
  apply_migration-Recorded :
      (m : Migration) (s : S)
      → laws.Harmless m.sql
      → laws.history s m.version ≡ none
      → (apply_migration connection ctx m s).0 ≡ ok tt
      → (let t = (apply_migration connection ctx m s).1 in Grows s t × Recorded t m)
  apply_migration-Recorded m s harmless new h = (
    λ v c held. elim (Bool-cases (m.version == v)) [
      | inl same ↦
          absurd (ground (arith, new, held, ap (laws.history s) ((==_iff m.version v).0 same)))
      | inr another ↦ apply_migration-history m s v harmless h ∙ rw another held
    ],
    apply_migration-history m s m.version harmless h
        ∙ rw ((==_iff m.version m.version).1 refl) refl,
  )

  -- One turn of the loop, after the answer of the history, before the rest of the migrations.
  abbrev turn : Migration → List Migration → List Text → Bool → Io S (List Text)
  turn m rest applied was_applied =
      if was_applied
      then apply_each connection ctx rest applied
      else (apply_migration connection ctx m
          >> apply_each connection ctx rest (applied ++ m.name ∷ []))

  -- What the runs of these migrations leave behind.
  abbrev Leaves : List Migration → List Text → S → Type 0
  Leaves ms applied s =
      (names : List Text)
      → (apply_each connection ctx ms applied s).0 ≡ ok names
      → (let t = (apply_each connection ctx ms applied s).1 in Grows s t × All (Recorded t) ms)

  turn-Recorded :
      (was_applied : Bool) (m : Migration) (rest : List Migration) (applied : List Text) (s : S)
      {names : List Text}
      → laws.Harmless m.sql
      → ((acc : List Text) (t : S) → Leaves rest acc t)
      → (let (answer, s1) = connection.select_checksum ctx m.version s in
          history_says m answer ≡ ok was_applied
          → (turn m rest applied was_applied s1).0 ≡ ok names
          → (let t = (turn m rest applied was_applied s1).1 in
              Grows s t × All (Recorded t) (m ∷ rest)))
  turn-Recorded true m rest applied s harmless ih says h =
      let (answer, s1) = connection.select_checksum ctx m.version s in
      let (grows, all) = ih applied s1 _ h in
      let there : laws.history s m.version ≡ some m.checksum =
        laws.select_done ctx m.version s m.checksum (says-true m answer says) in
      let from : Grows s s1 = λ v c held. laws.select_keeps ctx m.version s v ∙ held in
      (
        λ v c held. grows v c (from v c held),
        (grows m.version m.checksum (from m.version m.checksum there), all),
      )
  turn-Recorded false m rest applied s harmless ih says h =
      let (answer, s1) = connection.select_checksum ctx m.version s in
      let new : laws.history s1 m.version ≡ none =
        laws.select_keeps ctx m.version s m.version
        ∙ laws.select_no_rows ctx m.version s (says-false m answer says) in
      let (u, went, on, to) =
        bind-ok (apply_migration connection ctx m)
          (λ _. apply_each connection ctx rest (applied ++ m.name ∷ [])) s1 h in
      let (once, recorded) = apply_migration-Recorded m s1 harmless new went in
      let s2 = (apply_migration connection ctx m s1).1 in
      let (grows, all) = ih (applied ++ m.name ∷ []) s2 _ on in
      subst (λ (t : S). Grows s t × All (Recorded t) (m ∷ rest)) (sym to)
        (
          λ v c held. grows v c (once v c (laws.select_keeps ctx m.version s v ∙ held)),
          (grows m.version m.checksum recorded, all),
        )

  pub apply_each-Recorded :
      (ms : List Migration) (applied : List Text) (s : S)
      → All (λ (m : Migration). laws.Harmless m.sql) ms
      → Leaves ms applied s
  unfolding apply_each migration_was_applied
  apply_each-Recorded [] applied s harmless names h = (λ v c held. held, tt)
  apply_each-Recorded (m ∷ rest) applied s (one, harmless) names h =
      let (w, says, on, to) =
        bind-ok (migration_was_applied connection ctx m) (turn m rest applied) s h in
      subst (λ (t : S). Grows s t × All (Recorded t) (m ∷ rest)) (sym to)
        (turn-Recorded w m rest applied s one (λ acc t. apply_each-Recorded rest acc t harmless)
          says on)

  abbrev Same : S → S → Type 0
  Same s t = (v : ℕ) → laws.history t v ≡ laws.history s v

  -- What a run leaves is also there with steps around it that keep the history.
  around :
      (ms : List Migration) (s s' t t' : S)
      → Same s s'
      → Same t t'
      → Grows s' t × All (Recorded t) ms
      → Grows s t' × All (Recorded t') ms
  around [] s s' t t' before after (grows, all) =
      (λ v c held. after v ∙ grows v c (before v ∙ held), tt)
  around (m ∷ ms) s s' t t' before after (grows, (one, all)) =
      let (grows', all') = around ms s s' t t' before after (grows, all) in
      (grows', (after m.version ∙ one, all'))

  run_connected-Recorded :
      (ms : List Migration) (s : S) {names : List Text}
      → All (λ (m : Migration). laws.Harmless m.sql) ms
      → (run_connected connection ctx ms s).0 ≡ ok names
      → (let t = (run_connected connection ctx ms s).1 in Grows s t × All (Recorded t) ms)
  unfolding run_connected run_locked
  run_connected-Recorded ms s harmless h =
      let (u1, locked, on1, to1) =
        bind-ok (wrapping (connection.lock ctx))
          (λ _. deferring connection.unlock (run_locked connection ctx ms)) s h in
      let s1 = (connection.lock ctx s).1 in
      let (u2, there, on2, to2) =
        bind-ok (wrapping (connection.create_history ctx)) (λ _. apply_each connection ctx ms []) s1
          on1 in
      let s2 = (connection.create_history ctx s1).1 in
      let t = (apply_each connection ctx ms [] s2).1 in
      let last : (run_connected connection ctx ms s).1 ≡ connection.unlock t =
        to1 ∙ ap connection.unlock to2 in
      subst (λ (t' : S). Grows s t' × All (Recorded t') ms) (sym last)
        (around ms s s2 t (connection.unlock t)
          (λ v. laws.create_keeps ctx s1 v ∙ laws.lock_keeps ctx s v) (laws.unlock_keeps t)
          (apply_each-Recorded ms [] s2 harmless _ on2))

  -- A run that succeeds leaves the checksum of every migration in the history, and keeps all that was
  -- there; so none of the migrations was there with another checksum. The scripts must leave the
  -- history alone.
  pub run_migrations-Recorded :
      (sha256_hex : Text → Text) (url : Text) (directory : Option (List Entry)) (s : S)
      (ms : List Migration) {names : List Text}
      → discover_migrations sha256_hex directory ≡ ok ms
      → All (λ (m : Migration). laws.Harmless m.sql) ms
      → (run_migrations connection sha256_hex ctx url directory s).0 ≡ ok names
      → (let t = (run_migrations connection sha256_hex ctx url directory s).1 in
          Grows s t × All (Recorded t) ms)
  unfolding run_migrations run_connected run_locked
  run_migrations-Recorded sha256_hex url directory s ms found harmless h =
      let (ms', discovered, on1, to1) =
        bind-ok (lift (discover_migrations sha256_hex directory))
          (λ (ms : List Migration).
            lift (wrap (connection.parse_config url))
            >> (wrapping (connection.connect ctx url)
                >> deferring connection.close (run_connected connection ctx ms)))
          s h in
      let same : ms' ≡ ms = ground (arith, discovered) in
      let (u2, parsed, on2, to2) =
        bind-ok (lift (wrap (connection.parse_config url)))
          (λ _.
            wrapping (connection.connect ctx url)
            >> deferring connection.close (run_connected connection ctx ms'))
          s on1 in
      let (u3, opened, on3, to3) =
        bind-ok (wrapping (connection.connect ctx url))
          (λ _. deferring connection.close (run_connected connection ctx ms')) s on2 in
      let s1 = (connection.connect ctx url s).1 in
      let t = (run_connected connection ctx ms' s1).1 in
      subst (λ (t' : S). Grows s t' × All (Recorded t') ms) (sym (to1 ∙ to2 ∙ to3))
        (around ms s s1 t (connection.close t) (laws.connect_keeps ctx url s) (laws.close_keeps t) (
          subst (λ (ns : List Migration). Grows s1 t × All (Recorded t) ns) same
            (run_connected-Recorded ms' s1
              (subst (All (λ (m : Migration). laws.Harmless m.sql)) (sym same) harmless) on3)))
