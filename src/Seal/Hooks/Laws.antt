-- ===== src/Seal/Hooks/Laws.antt =====
-- Composed hooks against the two hooks one after the other.
use phalnx.Base.{◌≡◌, refl, Option, none, some, String, Result, ok, err, continue}
use phalnx.Seal.{SealHookContext}
use phalnx.Seal.Hooks.{
  SealHooks, compose_hooks, invoke_before_build, call_before_build, or_else, swallowed,
}

module _ {ℓ κ} {World : Type ℓ} {Thrown Transaction : Type κ} where
  -- The inner hook's abort is asked for only where the outer one answered, and did not abort.
  abbrev pub then_inner :
      Option (SealHooks World Thrown Transaction)
      → SealHookContext
      → Result Thrown (Option String) × World
      → Option String × World
  then_inner inner ctx (err error, w) = (none, w)
  then_inner inner ctx (ok (some reason), w) = (some reason, w)
  then_inner inner ctx (ok none, w) = invoke_before_build inner ctx w

  sequenced :
      (inner : SealHooks World Thrown Transaction) (ctx : SealHookContext)
      (r : Result Thrown (Option String) × World)
      → swallowed
          (continue r λ reason. or_else reason (call_before_build inner.on_before_build ctx))
        ≡ then_inner (some inner) ctx r
  unfolding invoke_before_build
  sequenced inner ctx (err error, w) = refl
  sequenced inner ctx (ok (some reason), w) = refl
  sequenced inner ctx (ok none, w) = refl

  -- Composed hooks run the outer onBeforeBuild, and the inner one in the world it leaves, if it does
  -- not abort and does not throw: its abort is the answer, and if it throws, the answer is no abort
  -- and the inner hook does not run.
  pub invoke-compose_hooks :
      (outer inner : SealHooks World Thrown Transaction) (ctx : SealHookContext) (w : World)
      → invoke_before_build (compose_hooks (some outer) (some inner)) ctx w
        ≡ then_inner (some inner) ctx (call_before_build outer.on_before_build ctx w)
  unfolding invoke_before_build compose_hooks
  invoke-compose_hooks outer inner ctx w =
      sequenced inner ctx (call_before_build outer.on_before_build ctx w)
