-- ===== src/Runtime/Hooks/Registering.antt =====
-- runtime/hooks.py: the import path, while the hooks are activated and deactivated.
use cpip.Common.{
  ℕ, ◌+◌, ◌≡◌, refl, String, Bool, true, false, List, [], ◌∷◌, if◌then◌else◌, arith, select,
}
use cpip.Shared.Json.{Json}
use cpip.Runtime.Hooks.{
  Hooks, Finder, cpip_finder, other_finder, is_other, register_cloud_package, activate_hooks,
  deactivate_hooks,
}

-- What happens to the hooks; other code puts its own finders on the path, in front.
pub data Change : Type 0 where
  registered : String → Json → Bool → Change
  activated : Json → Change
  deactivated : Change
  installed : String → Change

abbrev pub change : Change → Hooks → Hooks
change (registered name config hybrid) h = register_cloud_package name config hybrid h
change (activated config) h = activate_hooks config h
change deactivated h = deactivate_hooks h
change (installed f) h = record h { meta_path = other_finder f ∷ h.meta_path }

abbrev pub change_all : List Change → Hooks → Hooks
change_all [] h = h
change_all (c ∷ cs) h = change_all cs (change c h)

abbrev pub hooks_on : List Finder → ℕ
hooks_on [] = 0
hooks_on (cpip_finder config ∷ fs) = 1 + hooks_on fs
hooks_on (other_finder f ∷ fs) = hooks_on fs

-- The finders of other code, as it installed them.
abbrev pub installations : List Change → List Finder → List Finder
installations [] fs = fs
installations (installed f ∷ cs) fs = installations cs (other_finder f ∷ fs)
installations (_ ∷ cs) fs = installations cs fs

-- Whether the last activation came after the last deactivation.
abbrev pub is_on : List Change → Bool → Bool
is_on [] b = b
is_on (activated config ∷ cs) b = is_on cs true
is_on (deactivated ∷ cs) b = is_on cs false
is_on (_ ∷ cs) b = is_on cs b

hooks_on-select : (fs : List Finder) → hooks_on (select is_other fs) ≡ 0
hooks_on-select [] = refl
hooks_on-select (cpip_finder config ∷ fs) = hooks_on-select fs
hooks_on-select (other_finder f ∷ fs) = hooks_on-select fs

select-select : (fs : List Finder) → select is_other (select is_other fs) ≡ select is_other fs
select-select [] = refl
select-select (cpip_finder config ∷ fs) = select-select fs
select-select (other_finder f ∷ fs) = rw (select-select fs) refl

abbrev pub Matches : Hooks → Bool → List Finder → Type 0
Matches h b fs =
    (h.hooks_active ≡ b)
    × (hooks_on h.meta_path ≡ (if b then 1 else 0))
    × (select is_other h.meta_path ≡ fs)

change-Matches :
    (c : Change) (cs : List Change) (h : Hooks) (b : Bool) (fs : List Finder)
    → Matches h b fs
    → Matches (change c h) (is_on (c ∷ []) b) (installations (c ∷ []) fs)
unfolding register_cloud_package activate_hooks deactivate_hooks
change-Matches (registered name config hybrid) cs h b fs m = m
change-Matches (activated config) cs h b fs m = ground (arith, m)
change-Matches deactivated cs h b fs m =
    ground (arith, m, hooks_on-select h.meta_path, select-select h.meta_path)
change-Matches (installed f) cs h b fs m = ground (arith, m)

change_all-Matches :
    (cs : List Change) (h : Hooks) (b : Bool) (fs : List Finder)
    → Matches h b fs
    → Matches (change_all cs h) (is_on cs b) (installations cs fs)
change_all-Matches [] h b fs m = m
change_all-Matches (registered n config hybrid ∷ cs) h b fs m =
    change_all-Matches cs _ b fs (change-Matches (registered n config hybrid) cs h b fs m)
change_all-Matches (activated config ∷ cs) h b fs m =
    change_all-Matches cs _ true fs (change-Matches (activated config) cs h b fs m)
change_all-Matches (deactivated ∷ cs) h b fs m =
    change_all-Matches cs _ false fs (change-Matches deactivated cs h b fs m)
change_all-Matches (installed f ∷ cs) h b fs m =
    change_all-Matches cs _ b (other_finder f ∷ fs) (change-Matches (installed f) cs h b fs m)

-- However often the hooks are activated and deactivated: the import path has one finder of cpip if the
-- last of these was an activation, and else none; the finders of other code stay, in their order.
pub change_all_lem :
    (cs : List Change) (h : Hooks)
    → h.hooks_active ≡ false
    → hooks_on h.meta_path ≡ 0
    → let h1 = change_all cs h in
      (hooks_on h1.meta_path ≡ (if is_on cs false then 1 else 0))
      × (select is_other h1.meta_path ≡ installations cs (select is_other h.meta_path))
change_all_lem cs h inactive none_on =
    let m = change_all-Matches cs h false (select is_other h.meta_path) (inactive, none_on, refl) in
    (m.1, m.2)
