-- ===== src/Runtime/Hooks.antt =====
-- runtime/hooks.py: the packages that are registered for the cloud, the finder on the import path that
-- makes proxies of them, and what a proxy makes of its attributes; runtime/proxy.py: ProxyFactory. The
-- state is what the module and `sys` hold. A configuration is passed on only. A session stands in the
-- module that made it.
pub mod Registering
pub mod Importing
pub mod Proxied
pub mod Names
pub mod Refused
pub mod Remote
mod Tests
use Prim.Native.Char.{Char, code}
use Prim.Native.String.{◌++◌}
use cpip.Common.{
  ℕ, String, Bool, true, false, not, ◌&&◌, Option, some, none, List, [], ◌∷◌, eqb, ◌==◌, select,
  if◌then◌else◌,
}
use cpip.Common.Dict
use cpip.Common.Dict.{Dict}
use cpip.Common.Texts.{split_dots}
use cpip.Shared.Json.{Json}
use cpip.Runtime.Serialization.Values.{Value, Entries, Codec}
use cpip.Runtime.Interceptor.{CloudSession, new_session, begin}

-- An entry of `_cloud_packages`.
pub record Package : Type 0 where
  pub config : Json
  pub hybrid : Bool
  pub loaded : Bool

pub record ProxyModule : Type 0 where
  pub name : String
  pub package_name : String
  pub config : Json
  pub info : Option Package
  pub initialized : Bool
  pub session : Option CloudSession
  pub submodules : Dict String

-- An entry of `sys.modules`.
pub data Module : Type 0 where
  proxy : ProxyModule → Module
  ordinary : String → Module

-- An entry of `sys.meta_path`: a CpipFinder with its configuration, or another one.
pub data Finder : Type 0 where
  cpip_finder : Json → Finder
  other_finder : String → Finder

pub record Hooks : Type 0 where
  pub cloud_packages : Dict Package
  pub hooks_active : Bool
  pub meta_path : List Finder
  pub modules : Dict Module

unfoldable pub register_cloud_package : String → Json → Bool → Hooks → Hooks
register_cloud_package name config hybrid h = record h {
  cloud_packages =
      Dict.put h.cloud_packages name (record { config = config; hybrid = hybrid; loaded = false });
}

unfoldable pub activate_hooks : Json → Hooks → Hooks
activate_hooks config h =
    if h.hooks_active
    then h
    else record h { meta_path = cpip_finder config ∷ h.meta_path; hooks_active = true }

abbrev pub is_other : Finder → Bool
is_other (cpip_finder config) = false
is_other (other_finder f) = true

unfoldable pub deactivate_hooks : Hooks → Hooks
deactivate_hooks h = record h { meta_path = select is_other h.meta_path; hooks_active = false }

-- `name.split(".")[0]`
abbrev pub first_of : List String → String
first_of [] = ""
first_of (p ∷ ps) = p

abbrev pub top_level : String → String
top_level fullname = first_of (split_dots fullname)

-- A spec with its CpipLoader.
pub record Spec : Type 0 where
  pub name : String
  pub config : Json
  pub info : Package
  pub is_package : Bool

abbrev pub is_ordinary : Option Module → Bool
is_ordinary (some (ordinary m)) = true
is_ordinary _ = false

unfoldable pub find_spec : Json → String → Hooks → Option Spec
find_spec config fullname h = elim (Dict.get h.cloud_packages (top_level fullname)) [
  | none ↦ none
  | some info ↦
      if is_ordinary (Dict.get h.modules (top_level fullname))
      then none
      else some (record {
        name = fullname;
        config = config;
        info = info;
        is_package = fullname == top_level fullname;
      })
]

-- `ProxyModule(name, config, info)`
abbrev pub new_proxy : String → Json → Option Package → ProxyModule
new_proxy name config info = record {
  name = name;
  package_name = top_level name;
  config = config;
  info = info;
  initialized = false;
  session = none;
  submodules = [];
}

abbrev pub create_module : Spec → ProxyModule
create_module spec = new_proxy spec.name spec.config (some spec.info)

abbrev pub exec_module : Module → Module
exec_module (proxy p) = proxy (record p { initialized = true })
exec_module (ordinary m) = ordinary m

-- `_get_session`; the id is a fresh one.
unfoldable pub get_session : String → ProxyModule → CloudSession × ProxyModule
get_session session_id p = elim p.session [
  | some s ↦ (s, p)
  | none ↦ (new_session session_id, record p { session = some (new_session session_id) })
]

abbrev pub starts_with_underscore : String → Bool
starts_with_underscore String.[] = false
starts_with_underscore (String.◌∷◌ c s) = eqb (code c) b'_'

-- What an attribute of a proxy is: AttributeError, a ProxyCallable by its name, or a submodule.
pub data Attribute : Type 0 where
  attribute_error : Attribute
  callable : String → Attribute
  submodule : String → Attribute

abbrev pub dotted : String → String → String
dotted name attr = name ++ ("." ++ attr)

-- `ProxyModule.__getattr__`
unfoldable pub getattr : ProxyModule → String → Attribute
getattr p attr =
    if starts_with_underscore attr
    then attribute_error
    else elim (Dict.get p.submodules (dotted p.name attr)) [
      | none ↦ callable (dotted p.name attr)
      | some m ↦ submodule m
    ]

-- `ProxyCallable.__getattr__`, for one attribute after the other: the name of the last callable.
-- It does not run for what a callable has itself, as `_name`; such attributes are not modelled.
unfoldable pub chain : String → List String → String
chain name [] = name
chain name (attr ∷ attrs) = chain (dotted name attr) attrs

-- `module.attr.attrs(*args, **kwargs)`, up to the wait of the session; none where the first attribute
-- is no callable.
unfoldable pub call_remote :
    Codec
    → Bool
    → String
    → String
    → ℕ
    → String
    → List String
    → Value
    → Entries
    → ProxyModule
    → Option (Bool × ProxyModule)
call_remote codec reached session_id uuid now attr attrs args kwargs p = elim (getattr p attr) [
  | callable name ↦
      let (s, q) = get_session session_id p in
      let (fine, t) = begin codec reached uuid now (chain name attrs) args kwargs s in
      some (fine, record q { session = some t })
  | _ ↦ none
]

-- ProxyFactory: the class's `_instances`.
abbrev pub Instances : Type 0
Instances = Dict ProxyModule

unfoldable pub create : String → Json → Option Package → Instances → ProxyModule × Instances
create name config info instances = elim (Dict.get instances name) [
  | some p ↦ (p, instances)
  | none ↦ (new_proxy name config info, Dict.put instances name (new_proxy name config info))
]

abbrev pub get_proxy : Instances → String → Option ProxyModule
get_proxy instances name = Dict.get instances name

abbrev pub list_proxies : Instances → List String
list_proxies instances = Dict.keys instances
