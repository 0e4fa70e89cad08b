-- ===== src/Migrations/Run/Again.antt =====
-- The run of migrations that have all been applied.
use mathlib.Core.Path.{ap}
use url_shortner.Prelude.{
  ℕ, ◌≡◌, ◌∙◌, refl, true, Option, some, List, [], ◌∷◌, ◌++◌, All, if◌then◌else◌, Bool,
}
use url_shortner.Text.{Text, text_eq_refl}
use url_shortner.Io.{deferring, wrapping, Io, lift, ◌>>=◌, ◌>>◌}
use url_shortner.Io.Inversion.{bind_of_ok}
use url_shortner.Ports.{Context}
use url_shortner.Postgres.{done}
use url_shortner.Errors.{Result, ok, wrap}
use url_shortner.Migrations.{Entry, Migration, discover_migrations}
use url_shortner.Migrations.Run.{
  Connection, history_says, migration_was_applied, apply_migration, apply_each, run_locked,
  run_connected, run_migrations,
}
use url_shortner.Migrations.Run.History.{ConnectionLaws, Recorded}

-- The database can be reached: the URL parses, and each of these calls is carried out.
pub record Reachable {S : Type 0} (connection : Connection S) (laws : ConnectionLaws connection)
    (ctx : Context) (url : Text) : Type 0 where
  pub parses : connection.parse_config url ≡ ok tt
  pub connects : (s : S) → (connection.connect ctx url s).0 ≡ ok tt
  pub locks : (s : S) → (connection.lock ctx s).0 ≡ ok tt
  pub creates : (s : S) → (connection.create_history ctx s).0 ≡ ok tt
  pub selects :
      (v : ℕ) (s : S) (c : Text)
      → laws.history s v ≡ some c
      → (connection.select_checksum ctx v s).0 ≡ done c

bind-result :
    {S A B : Type 0} (m : Io S A) (f : A → Io S B) (s : S) {a : A}
    → (m s).0 ≡ ok a
    → ((m >>= f) s).0 ≡ (f a (m s).1).0
bind-result {B = B} m f s h = ap (λ (r : Result B × _). r.0) (bind_of_ok m f s h)

module _ {S : Type 0} (connection : Connection S) (laws : ConnectionLaws connection) (ctx : Context)
    (url : Text) (reachable : Reachable connection laws ctx url) where
  abbrev Known : S → List Migration → Type 0
  Known s ms = All (Recorded connection laws ctx s) ms

  Known-kept :
      (ms : List Migration) (s t : S)
      → ((v : ℕ) → laws.history t v ≡ laws.history s v)
      → Known s ms
      → Known t ms
  Known-kept [] s t same known = tt
  Known-kept (m ∷ ms) s t same (one, known) = (same m.version ∙ one, Known-kept ms s t same known)

  known_was_applied :
      (m : Migration) (s : S)
      → Recorded connection laws ctx s m
      → (migration_was_applied connection ctx m s).0 ≡ ok true
  unfolding migration_was_applied history_says
  known_was_applied m s known =
      rw (reachable.selects m.version s m.checksum known, text_eq_refl m.checksum) refl

  apply_each-again :
      (ms : List Migration) (applied : List Text) (s : S)
      → Known s ms
      → (apply_each connection ctx ms applied s).0 ≡ ok applied
  unfolding apply_each
  apply_each-again [] applied s known = refl
  apply_each-again (m ∷ ms) applied s (one, known) =
      bind-result (migration_was_applied connection ctx m)
        (λ (w : Bool).
          if w
          then apply_each connection ctx ms applied
          else (apply_migration connection ctx m
              >> apply_each connection ctx ms (applied ++ m.name ∷ [])))
        s (known_was_applied m s one)
      ∙ apply_each-again ms applied (migration_was_applied connection ctx m s).1 (
          Known-kept ms s (connection.select_checksum ctx m.version s).1
            (laws.select_keeps ctx m.version s) known)

  run_connected-again :
      (ms : List Migration) (s : S) → Known s ms → (run_connected connection ctx ms s).0 ≡ ok []
  unfolding run_connected run_locked
  run_connected-again ms s known =
      let s1 = (connection.lock ctx s).1 in
      let s2 = (connection.create_history ctx s1).1 in
      bind-result (wrapping (connection.lock ctx))
        (λ _. deferring connection.unlock (run_locked connection ctx ms)) s
        (ap wrap (reachable.locks s))
      ∙ bind-result (wrapping (connection.create_history ctx))
          (λ _. apply_each connection ctx ms []) s1 (ap wrap (reachable.creates s1))
      ∙ apply_each-again ms [] s2
          (Known-kept ms s s2 (λ v. laws.create_keeps ctx s1 v ∙ laws.lock_keeps ctx s v) known)

  -- While the database can be reached, a run of migrations that the history knows with their
  -- checksums succeeds and applies none.
  pub run_migrations-again :
      (sha256_hex : Text → Text) (directory : Option (List Entry)) (s : S) (ms : List Migration)
      → discover_migrations sha256_hex directory ≡ ok ms
      → All (Recorded connection laws ctx s) ms
      → (run_migrations connection sha256_hex ctx url directory s).0 ≡ ok []
  unfolding run_migrations
  run_migrations-again sha256_hex directory s ms found known =
      let s1 = (connection.connect ctx url s).1 in
      bind-result (lift (discover_migrations sha256_hex directory))
        (λ (ms : List Migration).
          lift (wrap (connection.parse_config url))
          >> (wrapping (connection.connect ctx url)
              >> deferring connection.close (run_connected connection ctx ms)))
        s found
      ∙ bind-result (lift (wrap (connection.parse_config url)))
          (λ _.
            wrapping (connection.connect ctx url)
            >> deferring connection.close (run_connected connection ctx ms))
          s (ap wrap reachable.parses)
      ∙ bind-result (wrapping (connection.connect ctx url))
          (λ _. deferring connection.close (run_connected connection ctx ms)) s
          (ap wrap (reachable.connects s))
      ∙ run_connected-again ms s1 (Known-kept ms s s1 (laws.connect_keeps ctx url s) known)
