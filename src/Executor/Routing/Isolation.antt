-- ===== src/Executor/Routing/Isolation.antt =====
-- executor/pool.py: what an execution is allowed by its docker command, whatever it is routed to.
use cpip.Common.{
  ℕ, ◌≡◌, refl, String, Bool, true, false, List, [], ◌∷◌, ◌++◌, ◌||◌, ◌==◌, ◌⊎◌, inl, inr,
  if◌then◌else◌, choose_if,
}
use cpip.Executor.Sandbox as Sandbox
use cpip.Executor.Sandbox.{SandboxConfig, default_config, Docker, options, ended}
use cpip.Executor.Runtimes.{
  Invocation, Ran, execute_torch, execute_tensorflow, run_playwright, is_valid_method, torch_config,
  tensorflow_config, browser_config, torch_code, tf_code,
}
use cpip.Executor.Names.{ValidName, is_valid_method-ValidName, ValidName-is_valid_method}
use cpip.Executor.Routing.{contains, build_code, without_gpu, execute}

abbrev pub has : String → List String → Bool
has option [] = false
has option (o ∷ opts) = (o == option) || has option opts

-- The command of a container, of its name, its other options, its image and the code.
abbrev pub run_command : String → List String → String → String → List String
run_command name opts image code =
    "docker" ∷ "run" ∷ "--rm" ∷ "--name" ∷ name ∷ (opts ++ (image ∷ "python" ∷ "-c" ∷ code ∷ []))

-- An execution that was refused, or that docker ran as a new container which is read only: with the
-- network cut off unless the code is the script of the caller, and with no GPU unless the method has a
-- valid name.
pub data Isolated (docker : Docker) (uuid : String) (duration : ℕ) (inv : Invocation)
    : Ran → Type 0 where
  refused : ¬ ValidName inv.method → Isolated docker uuid duration inv Ran.invalid_method
  contained :
      {out : Ran} (name code : String) (opts : List String) (cfg : SandboxConfig)
      → out
        ≡ Ran.ran
            (ended cfg name duration (docker (run_command name opts cfg.image code) cfg.timeout))
      → has "--read-only" opts ≡ true
      → (code ≡ inv.script) ⊎ (has "--network=none" opts ≡ true)
      → ValidName inv.method ⊎ (has "--gpus" opts ≡ false)
      → Isolated docker uuid duration inv out

-- The options behind the name of the container.
abbrev behind_name : List String → List String
behind_name (flag ∷ name ∷ opts) = opts
behind_name opts = []

module _ (docker : Docker) (uuid : String) (duration : ℕ) (inv : Invocation) where
  torch-Isolated : Isolated docker uuid duration inv (execute_torch docker uuid duration inv)
  unfolding execute_torch Sandbox.execute options
  torch-Isolated = go (is_valid_method inv.method) refl
    where
      go :
          (v : Bool)
          → is_valid_method inv.method ≡ v
          → Isolated docker uuid duration inv (
              if v
              then Ran.ran (Sandbox.execute docker uuid duration (torch_code inv) torch_config)
              else Ran.invalid_method)
      go true e =
          contained _ (torch_code inv) (behind_name (options torch_config "")) torch_config refl
            refl (inr refl) (inl (is_valid_method-ValidName inv.method e))
      go false e = refused (λ v. cc (e, ValidName-is_valid_method inv.method v))

  tensorflow-Isolated :
      Isolated docker uuid duration inv (execute_tensorflow docker uuid duration inv)
  unfolding execute_tensorflow Sandbox.execute options
  tensorflow-Isolated = go (is_valid_method inv.method) refl
    where
      go :
          (v : Bool)
          → is_valid_method inv.method ≡ v
          → Isolated docker uuid duration inv (
              if v
              then Ran.ran (Sandbox.execute docker uuid duration (tf_code inv) tensorflow_config)
              else Ran.invalid_method)
      go true e =
          contained _ (tf_code inv) (behind_name (options tensorflow_config "")) tensorflow_config
            refl refl (inr refl) (inl (is_valid_method-ValidName inv.method e))
      go false e = refused (λ v. cc (e, ValidName-is_valid_method inv.method v))

  without_gpu-Isolated :
      (mode : String)
      → Isolated docker uuid duration inv (without_gpu docker uuid duration mode inv)
  unfolding run_playwright Sandbox.execute options
  without_gpu-Isolated mode =
      choose_if (Isolated docker uuid duration inv)
        (mode == "browser" || contains inv.method "playwright") _ _
        (contained _ inv.script (behind_name (options browser_config "")) browser_config refl refl
          (inl refl) (inr refl))
        (contained _ (build_code inv) (behind_name (options default_config "")) default_config refl
          refl (inr refl) (inr refl))

  -- Whatever the mode and the method, an execution is refused for an invalid name of the method, or it is
  -- one command of docker, which makes a new container, to be removed at its end, with the option
  -- --read-only. Its options have --network=none unless the code is the script of the caller, and they
  -- have --gpus only if the name of the method is valid: letters, digits, underscores and dots, with at
  -- most a newline behind them.
  pub execute-Isolated :
      (mode lower : String)
      → Isolated docker uuid duration inv (execute docker uuid duration mode lower inv)
  unfolding execute
  execute-Isolated mode lower =
      choose_if (Isolated docker uuid duration inv) _ _ _
        (choose_if (Isolated docker uuid duration inv) _ _ _ torch-Isolated (
          choose_if (Isolated docker uuid duration inv) _ _ _ tensorflow-Isolated
            (without_gpu-Isolated mode)))
        (without_gpu-Isolated mode)
