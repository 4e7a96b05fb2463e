-- ===== src/Browser/Unit/Raises.antt =====
-- core/unit/update.py: which exception an event raises, and the handlers of a folder's children and
-- of the selection.
use mathlib.Core.Path.{subst}
use apm_repo_sdk_python.Base.{
  sym, ◌∙◌, ◌≡◌, ◌≢◌, refl, Bool, true, false, ◌||◌, List, [], ◌∷◌, Option, none, some, none_some,
  if◌then◌else◌, Option-cases, inl, inr,
}
use apm_repo_sdk_python.Base.Dict.{lookup, contains}
use apm_repo_sdk_python.Browser.Keys.{ProviderHandle}
use apm_repo_sdk_python.Browser.Unit.Children.{
  Outcome, held_provider, on_children_requested, is_loaded, is_stale_for,
}
use apm_repo_sdk_python.Browser.Unit.Goto.{select_folder}
use apm_repo_sdk_python.Browser.Unit.Model.{
  UnitModel, UnitMsg, UnitCmd, unit_slot_deceq, goto_slot, has_pending_children,
}
use apm_repo_sdk_python.Browser.Unit.Valid.{IsValid}
use apm_repo_sdk_python.Errors.{ok, raise, Error, ◌>>=◌}
use apm_repo_sdk_python.Units.Node.{NodeRef, Node, NodeRole, node_ref_deceq}

-- An assertion on the provider, where none is held.
abbrev pub unheld : Option ProviderHandle → Option Error
unheld none = some Error.assertion_error
unheld (some _) = none

-- `chain[-1]` of a chain without nodes.
abbrev pub empty_chain : List Node → Option Error
empty_chain [] = some Error.index_error
empty_chain (_ ∷ _) = none

-- What an event raises: the children of a folder are asked for while no provider is held, or an
-- awaited goto brings no nodes.
abbrev pub fault : UnitModel → UnitMsg → Option Error
fault m (UnitMsg.children_requested node) = unheld m.provider
fault m (UnitMsg.folder_selected folder) = elim folder.role [
  | NodeRole.list_overview ↦ none
  | NodeRole.flat_category ↦ unheld m.provider
  | NodeRole.ordinary ↦ none
]
fault m (UnitMsg.goto_resolved epoch request chain steps) =
    if is_stale_for m goto_slot epoch request then none else empty_chain chain
fault m _ = none

-- How a handler ends: with a model, or with the exception that the event raises.
pub data Ends : Option Error → Outcome → Type 0 where
  returned : {r : UnitModel × List UnitCmd} → Ends none (ok r)
  raised : {error : Error} → Ends (some error) (raise error)

abbrev pub Returns : Outcome → Type 0
Returns o = Ends none o

pub branch :
    (t : Bool) {x y : Outcome} → Returns x → (t ≡ false → Returns y) → Returns (if t then x else y)
branch true h k = h
branch false h k = k refl

pub held :
    (m : UnitModel) {f : ProviderHandle → Outcome}
    → m.provider ≢ none
    → ((handle : ProviderHandle) → Returns (f handle))
    → Returns (held_provider m >>= f)
held m {f} h k = elim (Option-cases m.provider) [
  | inl gone ↦ absurd (h gone)
  | inr (handle, there) ↦ rw there (k handle)
]

pub Returns-bind :
    {x : Outcome} (f : UnitModel × List UnitCmd → Outcome)
    → Returns x
    → ((r : UnitModel × List UnitCmd) → Returns (f r))
    → Returns (x >>= f)
Returns-bind f (returned {r = r}) k = k r

role_cases :
    (role : NodeRole) {x y z : Outcome}
    → Returns x
    → Returns y
    → Returns z
    → Returns (elim role as (λ r. Outcome) [
      | NodeRole.list_overview ↦ x
      | NodeRole.flat_category ↦ y
      | NodeRole.ordinary ↦ z
    ])
role_cases NodeRole.list_overview h k l = h
role_cases NodeRole.flat_category h k l = k
role_cases NodeRole.ordinary h k l = l

pub option :
    {A : Type 0} (o : Option A) {x : Outcome} {f : A → Outcome}
    → (o ≡ none → Returns x)
    → ((a : A) → Returns (f a))
    → Returns (elim o as (λ y. Outcome) [ none ↦ x | some a ↦ f a ])
option none h k = h refl
option (some a) h k = k a

-- Without a provider no level is loaded and none is on its way, so the assertion is reached.
children_unheld :
    (m : UnitModel) (node : Node)
    → m.provider ≡ none
    → m.loaded ≡ []
    → m.pending ≡ []
    → Ends (some Error.assertion_error) (on_children_requested m node)
unfolding on_children_requested has_pending_children lookup contains
children_unheld m node gone no_levels idle =
    rw (no_levels, idle, gone, on_children_requested) raised

pub on_children_requested-Ends :
    (m : UnitModel) (node : Node) (selected : Option NodeRef)
    → IsValid m
    → Ends (unheld m.provider) (on_children_requested (record m { selected = selected }) node)
unfolding on_children_requested has_pending_children lookup
on_children_requested-Ends m node selected v = elim (Option-cases m.provider) [
  | inl gone ↦
      subst (λ o. Ends (unheld o) (on_children_requested (record m { selected = selected }) node))
        (sym gone)
        (children_unheld (record m { selected = selected }) node gone (v.detached gone).1
          (v.detached gone).2)
  | inr (handle, there) ↦
      subst (λ o. Ends (unheld o) (on_children_requested (record m { selected = selected }) node))
        (sym there)
        (branch (is_loaded m node.ref || has_pending_children m node.ref) returned
          (λ _. held m (λ gone. none_some (sym gone ∙ there)) (λ h. returned)))
]

role_Ends :
    (role : NodeRole) {f g h : Option Error} {x y z : Outcome}
    → Ends f x
    → Ends g y
    → Ends h z
    → Ends
        (elim role as (λ r. Option Error) [
          | NodeRole.list_overview ↦ f
          | NodeRole.flat_category ↦ g
          | NodeRole.ordinary ↦ h
        ])
        (elim role as (λ r. Outcome) [
          | NodeRole.list_overview ↦ x
          | NodeRole.flat_category ↦ y
          | NodeRole.ordinary ↦ z
        ])
role_Ends NodeRole.list_overview a b c = a
role_Ends NodeRole.flat_category a b c = b
role_Ends NodeRole.ordinary a b c = c

pub select_folder-Ends :
    (m : UnitModel) (folder : Node)
    → IsValid m
    → Ends (fault m (UnitMsg.folder_selected folder)) (select_folder m folder)
unfolding select_folder
select_folder-Ends m folder v =
    role_Ends folder.role returned (on_children_requested-Ends m folder (some folder.ref) v)
      returned

on_children_requested-Returns :
    (m : UnitModel) (node : Node) → m.provider ≢ none → Returns (on_children_requested m node)
unfolding on_children_requested
on_children_requested-Returns m node h =
    branch (is_loaded m node.ref || has_pending_children m node.ref) returned
      (λ _. held m h (λ handle. returned))

pub select_folder-Returns :
    (m : UnitModel) (folder : Node) → m.provider ≢ none → Returns (select_folder m folder)
unfolding select_folder
select_folder-Returns m folder h =
    role_cases folder.role returned
      (on_children_requested-Returns (record m { selected = some folder.ref }) folder h) returned
