-- ===== src/Application/Lookups.antt =====
-- internal/link/application: link_finder.go and time_provider.go
use url_shortner.Text.{Text}
use url_shortner.Time.{Time}
use url_shortner.Io.{Io}
use url_shortner.Domain.Link.{Link}
use url_shortner.Ports.{Context, LinkRepository, Clock}

module _ {S : Type 0} where
  -- LinkFinder.Find
  unfoldable pub find : LinkRepository S → Context → Text → Io S Link
  find repository = repository.find_by_code

  -- TimeProvider.CurrentTime
  unfoldable pub current_time : Clock S → S → Time × S
  current_time clock = clock.now
