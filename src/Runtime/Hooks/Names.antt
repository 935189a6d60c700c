-- ===== src/Runtime/Hooks/Names.antt =====
-- runtime/hooks.py: the dotted names of modules and calls, and what
-- server/services/execution_service.py makes of them.
use Prim.Native.String.{◌++◌ as ◌<>◌}
use text.Mathlib.TextLemmas.{append_assoc}
use cpip.Common.{◌≡◌, refl, ap, ◌∙◌, String, List, [], ◌∷◌, ◌++◌, if◌then◌else◌}
use cpip.Common.Texts.{split_dots, join_dots, NoDot, NoDots, split_dots-join_dots}
use cpip.Server.Services.Execution.{
  Call, Called, ExecutionRequest, allowed, allowed_modules, execute_parts, method_parts, here,
}
use cpip.Runtime.Hooks.{dotted, chain, top_level, first_of}

join_dots-append : (s t : String) (ps : List String) → join_dots (s <> t) ps ≡ s <> join_dots t ps
join_dots-append s t [] = refl
join_dots-append s t (p ∷ ps) = append_assoc s t ("." <> join_dots p ps)

-- The name of a call has the attributes in their order.
pub chain-join_dots :
    (name : String) (attrs : List String) → chain name attrs ≡ join_dots name attrs
unfolding chain
chain-join_dots name [] = refl
chain-join_dots name (attr ∷ attrs) =
    chain-join_dots (dotted name attr) attrs
    ∙ join_dots-append name ("." <> attr) attrs
    ∙ ap (λ (t : String). name <> t) (join_dots-append "." attr attrs)

join_dots-join_dots :
    (top : String) (subs ps : List String)
    → join_dots (join_dots top subs) ps ≡ join_dots top (subs ++ ps)
join_dots-join_dots top [] ps = refl
join_dots-join_dots top (sub ∷ subs) ps =
    join_dots-append top ("." <> join_dots sub subs) ps
    ∙ ap (λ (t : String). top <> t)
        (join_dots-append "." (join_dots sub subs) ps
          ∙ ap (λ (t : String). "." <> t) (join_dots-join_dots sub subs ps))

NoDots-append : (subs ps : List String) → NoDots subs → NoDots ps → NoDots (subs ++ ps)
NoDots-append [] ps h k = k
NoDots-append (sub ∷ subs) ps h k = (h.0, NoDots-append subs ps h.1 k)

split_dots-chain :
    (top : String) (subs attrs : List String)
    → NoDot top
    → NoDots subs
    → NoDots attrs
    → split_dots (chain (join_dots top subs) attrs) ≡ top ∷ (subs ++ attrs)
split_dots-chain top subs attrs h hs k =
    ap split_dots (chain-join_dots (join_dots top subs) attrs ∙ join_dots-join_dots top subs attrs)
    ∙ split_dots-join_dots top (subs ++ attrs) h (NoDots-append subs attrs hs k)

-- What the service does with the parts of a method of at least two.
execute_parts-some :
    (call : Call) (req : ExecutionRequest) (top attr : String) (subs attrs : List String)
    → execute_parts call req (top ∷ (subs ++ (attr ∷ attrs))) ≡ (
        if allowed top allowed_modules
        then call top (subs ++ (attr ∷ attrs)) req.args req.kwargs
        else Called.raised ("Module '" <> (top <> "' is not allowed for remote execution")) here)
unfolding execute_parts
execute_parts-some call req top attr [] attrs = refl
execute_parts-some call req top attr (sub ∷ subs) attrs = refl

-- The name under which the proxy of a module or of a submodule calls an attribute belongs to the top
-- module, and the execution service takes it apart again, if the parts of the module's name and the
-- attributes hold no dot themselves: where the top module is on the list of the service, it is called
-- with the names of the submodule and then the attributes, in their order; else an error that names the
-- top module is raised.
pub execute_parts-chain :
    (call : Call) (req : ExecutionRequest) (top attr : String) (subs attrs : List String)
    → NoDot top
    → NoDots subs
    → NoDots (attr ∷ attrs)
    → req.method ≡ chain (join_dots top subs) (attr ∷ attrs)
    → (top_level req.method ≡ top)
      × (execute_parts call req (method_parts req) ≡ (
          if allowed top allowed_modules
          then call top (subs ++ (attr ∷ attrs)) req.args req.kwargs
          else Called.raised ("Module '" <> (top <> "' is not allowed for remote execution")) here))
execute_parts-chain call req top attr subs attrs h hs k e =
    let parts = ap split_dots e ∙ split_dots-chain top subs (attr ∷ attrs) h hs k in
    (
      ap first_of parts,
      ap (execute_parts call req) parts ∙ execute_parts-some call req top attr subs attrs,
    )
