-- ===== src/Seal/Hooks.antt =====
-- sdk/kit/src/hooks.ts: hooks of the caller's around seal(), composed and invoked. A hook is a task
-- in the world; one that throws answers `err`. The logger's warnings are left out.
pub mod Laws
use phalnx.Base.{Bool, Option, none, some, String, Result, ok, err, Task, pure, ◌>=>◌}
use phalnx.Seal.{SealHookContext}

-- `Thrown` is what a hook throws, `Transaction` a compiled transaction; the answer of onBeforeBuild is
-- the reason of `{ skipSeal: true, reason }`, if it gave one.
pub record SealHooks {ℓ κ} (World : Type ℓ) (Thrown Transaction : Type κ) : Type (ℓ ⊔ κ) where
  pub on_before_build : Option (SealHookContext → Task World Thrown (Option String))
  pub on_before_sign : Option (SealHookContext → Transaction → Task World Thrown (Unit {0}))
  pub on_after_send : Option (SealHookContext → String → Task World Thrown (Unit {0}))
  pub on_error : Option (SealHookContext → Task World Thrown (Unit {0}))
  pub on_finalize : Option (SealHookContext → String → Task World Thrown (Unit {0}))

module _ {ℓ κ} {World : Type ℓ} {Thrown : Type κ} where
  -- `await outer.onBeforeBuild?.(ctx, params)`.
  abbrev pub call_before_build :
      Option (SealHookContext → Task World Thrown (Option String))
      → SealHookContext
      → Task World Thrown (Option String)
  call_before_build none ctx = pure none
  call_before_build (some hook) ctx = hook ctx

  -- The same for the stages that only observe.
  abbrev pub call {μ} :
      {Arg : Type μ}
      → Option (SealHookContext → Arg → Task World Thrown (Unit {0}))
      → SealHookContext
      → Arg
      → Task World Thrown (Unit {0})
  call none ctx arg = pure tt
  call (some hook) ctx arg = hook ctx arg

  abbrev pub call_error :
      Option (SealHookContext → Task World Thrown (Unit {0}))
      → SealHookContext
      → Task World Thrown (Unit {0})
  call_error none ctx = pure tt
  call_error (some hook) ctx = hook ctx

  abbrev pub or_else :
      Option String → Task World Thrown (Option String) → Task World Thrown (Option String)
  or_else (some reason) inner = pure (some reason)
  or_else none inner = inner

  -- invokeHook swallows what a hook throws. The answer of a stage that observes is not used.
  abbrev pub swallowed : Result Thrown (Option String) × World → Option String × World
  swallowed (err error, w) = (none, w)
  swallowed (ok reason, w) = (reason, w)

module _ {ℓ κ} {World : Type ℓ} {Thrown Transaction : Type κ} where
  abbrev composed :
      SealHooks World Thrown Transaction
      → SealHooks World Thrown Transaction
      → SealHooks World Thrown Transaction
  composed outer inner = record {
    on_before_build = some (λ ctx. call_before_build outer.on_before_build ctx >=> λ reason.
        or_else reason (call_before_build inner.on_before_build ctx));
    on_before_sign =
        some (λ ctx tx. call outer.on_before_sign ctx tx >=> λ _. call inner.on_before_sign ctx tx);
    on_after_send =
        some
          (λ ctx sig. call outer.on_after_send ctx sig >=> λ _. call inner.on_after_send ctx sig);
    on_error = some (λ ctx. call_error outer.on_error ctx >=> λ _. call_error inner.on_error ctx);
    on_finalize =
        some (λ ctx sig. call outer.on_finalize ctx sig >=> λ _. call inner.on_finalize ctx sig);
  }

  unfoldable pub compose_hooks :
      Option (SealHooks World Thrown Transaction)
      → Option (SealHooks World Thrown Transaction)
      → Option (SealHooks World Thrown Transaction)
  compose_hooks none inner = inner
  compose_hooks (some outer) none = some outer
  compose_hooks (some outer) (some inner) = some (composed outer inner)

  abbrev hooks_before_build :
      Option (SealHooks World Thrown Transaction)
      → Option (SealHookContext → Task World Thrown (Option String))
  hooks_before_build none = none
  hooks_before_build (some hooks) = hooks.on_before_build

  unfoldable pub invoke_before_build :
      Option (SealHooks World Thrown Transaction) → SealHookContext → World → Option String × World
  invoke_before_build hooks ctx w = swallowed (call_before_build (hooks_before_build hooks) ctx w)

  unfoldable pub invoke_before_sign :
      Option (SealHooks World Thrown Transaction) → SealHookContext → Transaction → World → World
  invoke_before_sign none ctx tx w = w
  invoke_before_sign (some hooks) ctx tx w = (call hooks.on_before_sign ctx tx w).1

  unfoldable pub invoke_after_send :
      Option (SealHooks World Thrown Transaction) → SealHookContext → String → World → World
  invoke_after_send none ctx sig w = w
  invoke_after_send (some hooks) ctx sig w = (call hooks.on_after_send ctx sig w).1

  unfoldable pub invoke_error :
      Option (SealHooks World Thrown Transaction) → SealHookContext → World → World
  invoke_error none ctx w = w
  invoke_error (some hooks) ctx w = (call_error hooks.on_error ctx w).1

  unfoldable pub invoke_finalize :
      Option (SealHooks World Thrown Transaction) → SealHookContext → String → World → World
  invoke_finalize none ctx sig w = w
  invoke_finalize (some hooks) ctx sig w = (call hooks.on_finalize ctx sig w).1
