-- ===== src/Server/Gateway/Concurrent/Start.antt =====
-- The walks of a gateway from its start on.
use kvmux.Prelude.{◌≡◌, List, [], arith, All}
use kvmux.Prelude.Double.{Double}
use kvmux.Prelude.Result.{ok}
use kvmux.Config.{Config}
use kvmux.Config.Valid.{IsValidConfig}
use kvmux.Server.Gateway.{Backend}
use kvmux.Server.Gateway.Construct.{
  Gateway, IsFresh, backends_of, new, new-IsFresh, get_elem?-IsFresh,
}
use kvmux.Server.Gateway.Concurrent.{World, Reach}
use kvmux.Server.Gateway.Concurrent.Slots.{count, AreCounted, Reach-AreCounted}

-- A gateway that was just made, with no attempt.
abbrev pub at_start : Gateway → World
at_start g = record { backends = backends_of g; attempts = [] }

fresh-AreCounted :
    (bs : List Backend) → All IsFresh bs → AreCounted (record { backends = bs; attempts = [] })
unfolding count
fresh-AreCounted bs h i b there =
    let fresh = get_elem?-IsFresh bs i b h there in (fresh.idle, omega (arith, fresh.idle))

-- From a gateway made of a valid configuration on, whatever walks run at the same time, and however their
-- positions, outcomes and probes interleave: at each backend the slots in use are the attempts that run
-- there, and not more than its bound.
pub new-AreCounted :
    (fp : Double) (cfg : Config fp) (g : Gateway) (w : World)
    → IsValidConfig fp cfg
    → new fp cfg ≡ ok g
    → Reach (at_start g) w
    → AreCounted w
new-AreCounted fp cfg g w valid made reached =
    let (gate, fresh, nobody) = new-IsFresh fp cfg g valid made in
    Reach-AreCounted (at_start g) w (fresh-AreCounted (backends_of g) fresh) reached
