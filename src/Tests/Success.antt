-- ===== src/Tests/Success.antt =====
-- An example on the management of links: when a change of status goes through.
use url_shortner.Prelude.{◌≡◌, ◌↔◌, none}
use url_shortner.Errors.{ok}
use url_shortner.Domain.Link.{Link}
use url_shortner.Ports.Laws.{FindsStored, UpdatesStored}
use url_shortner.Memory.Repository.Refinement.{FindsStored-repository, UpdatesStored-repository}
use url_shortner.Application.Concurrent.Growth.{IsKeyed}
use url_shortner.Application.Management.Change.{code_of, owner_of, change}
use url_shortner.Application.Management.Parts.{Owned}
use url_shortner.Application.Management.Success.{MakesAt, time_of, change_ok_iff}
use url_shortner.Tests.World.{lib, world, links, table, links_laws, clock, clock_laws}
use url_shortner.Tests.Requests.{world-IsSound, switch_off, off}

world-IsKeyed : IsKeyed (table world)
world-IsKeyed c l h = (world-IsSound.at_code c l h).0

finds : FindsStored links table
finds = record { find_stored = λ code w. FindsStored-repository.find_stored code w.links }

updates : UpdatesStored links table
updates = record { update_stored = λ l old w. UpdatesStored-repository.update_stored l old w.links }

change_ok_iff_example : ((change links clock lib none switch_off world).0 ≡ ok off) ↔ (
    (old : Link) × Owned (table world) (code_of switch_off) (owner_of switch_off) 1 old
    × MakesAt lib switch_off
        (time_of links clock lib links_laws clock_laws finds updates switch_off world)
        old
        off)
change_ok_iff_example =
    change_ok_iff links clock lib links_laws clock_laws finds updates switch_off world off
      world-IsKeyed
