-- ===== src/Httpapi/Reload.antt =====
-- The reload plans of internal/httpapi/handler.go: what the handler asks of a plane of
-- internal/app. `Prepare` takes the plane's lock and yields a plan, or an error; a plan is completed
-- by `Activate` or by `Abort`. `Activate` is given the configuration that the manager then has as
-- its current one, since the management interface is made anew from it.
use requestinspector_relay.Base.{◌≡◌, Option, none, some, Bool, false}
use requestinspector_relay.Config.{Config}

pub record PlaneOps (S P : Type 0) : Type 0 where
  pub prepare : S → Config → S × Option P
  pub activate : Config → S → P → S × P
  pub abort : S → P → S × P

module _ {S P : Type 0} (ops : PlaneOps S P) (IsFree : S → Type 0)
    (Serves : S → Config → Type 0) where
  -- What becomes of a plane that is prepared for the next settings: a refusal leaves it free, with
  -- the current ones, and so does a plan that is aborted; one that is activated leads to a free plane
  -- with the next ones.
  abbrev pub Completes : Config → Config → S × Option P → Type 0
  Completes current next (s, none) = IsFree s × Serves s current
  Completes current next (s, some p) =
      IsFree (ops.abort s p).0
      × Serves (ops.abort s p).0 current
      × IsFree (ops.activate next s p).0
      × Serves (ops.activate next s p).0 next

  -- What the handler relies on: `IsFree` is the plane's invariant, with its lock free, and `Serves`
  -- tells that the plane runs with the settings of a configuration.
  pub record IsPlane (changed : Config → Config → Bool) : Type 0 where
    pub completes :
        (s : S) (current next : Config)
        → IsFree s
        → Serves s current
        → Completes current next (ops.prepare s next)
    pub unchanged :
        (s : S) (current next : Config)
        → changed current next ≡ false
        → Serves s current
        → Serves s next
