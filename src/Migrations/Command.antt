-- ===== src/Migrations/Command.antt =====
-- cmd/migrate/main.go: the command that runs the migrations, over the environment and the directories
-- of the file system. What it logs, and its context, which a signal cancels, are left out.
use url_shortner.Prelude.{Option, List}
use url_shortner.Text.{Text, codes, is_empty, trim_space}
use url_shortner.Io.{Io, lift, ◌>>◌}
use url_shortner.Ports.{Context}
use url_shortner.Config.{Env, refuse_if, or_default}
use url_shortner.Migrations.{Entry}
use url_shortner.Migrations.Run.{Connection, run_migrations}

abbrev pub default_migrations_directory : Text
default_migrations_directory = codes "migrations/postgres"

-- run, with the names of the migrations that it applied
unfoldable pub run_command :
    {S : Type 0}
    → Connection S
    → (Text → Text)
    → (Text → Option (List Entry))
    → Env
    → Context
    → Io S (List Text)
unfolding run_migrations or_default
run_command connection sha256_hex read_dir env ctx = do
  let database_url = trim_space (env (codes "TINYURL_DATABASE_URL"))
  lift (refuse_if (is_empty database_url) 80)
  let directory =
      or_default default_migrations_directory (trim_space (env (codes "TINYURL_MIGRATIONS_DIR")))
  run_migrations connection sha256_hex ctx database_url (read_dir directory)
