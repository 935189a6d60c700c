-- ===== src/Security/Policy.antt =====
-- security/sandbox.py: class SandboxSecurityConfig. The profile of the system calls is a value that is
-- written to a file; whether that works is an argument.
use Prim.Native.String.{◌++◌ as ◌<>◌}
use cpip.Common.{String, Bool, true, List, [], ◌∷◌, ◌++◌, if◌then◌else◌}
use cpip.Files.{join}

pub record SandboxSecurityConfig : Type 0 where
  pub drop_capabilities : List String
  pub add_capabilities : List String
  pub read_only_rootfs : Bool
  pub no_new_privileges : Bool

abbrev pub default_config : SandboxSecurityConfig
default_config = record {
  drop_capabilities = "ALL" ∷ [];
  add_capabilities = [];
  read_only_rootfs = true;
  no_new_privileges = true;
}

abbrev pub each_with : String → List String → List String
each_with option [] = []
each_with option (cap ∷ caps) = option ∷ cap ∷ each_with option caps

abbrev pub when : Bool → String → List String
when b option = if b then option ∷ [] else []

-- Without the file, no profile at all is asked for.
unfoldable pub to_docker_args : String → Bool → SandboxSecurityConfig → List String
to_docker_args cpip_home written cfg =
    each_with "--cap-drop" cfg.drop_capabilities
    ++ (each_with "--cap-add" cfg.add_capabilities
        ++ (when cfg.read_only_rootfs "--read-only"
            ++ (when cfg.no_new_privileges "--security-opt=no-new-privileges:true"
                ++ ((if written
                      then "--security-opt=seccomp=" <> join cpip_home "seccomp.json"
                      else "--security-opt=seccomp=unconfined")
                    ∷ []))))
